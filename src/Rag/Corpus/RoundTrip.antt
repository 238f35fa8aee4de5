-- ===== src/Rag/Corpus/RoundTrip.antt =====
-- A corpus file, printed record by record and parsed again.
use compliance_agent_platfor.Base.{
  ℕ, suc, String, ◌≡◌, refl, sym, ap, ◌∙◌, Bool, true, false, not, ◌&&◌, List, [], ◌∷◌, ◌++◌, map,
  some, All, All-append, ◌==◌, is_empty, truthy, arith, str_eq, eq_iff, inl, inr, Bool-cases,
}
use Prim.Native.Char.{Char, code}
use compliance_agent_platfor.Base.Dict.{lookup, NodupKeys}
use compliance_agent_platfor.Base.Text.{chars, from_chars}
use compliance_agent_platfor.Error.{ok}
use compliance_agent_platfor.Guardrails.Unicode.{Unicode}
use compliance_agent_platfor.Rag.Corpus.{
  Chars, is_tag_char, split_blocks, with_text, without_nul, before_dash, or_none, strip,
  parse_block, read_blocks, add_chunk, parse_corpus_file,
}
use compliance_agent_platfor.Rag.Corpus.Render.{
  IsSpaced, OneLine, IsTag, Field, field_line, render, IsField, field_value, read_field,
  parse_block-render, field_line-OneLine,
}
use compliance_agent_platfor.Rag.Corpus.Split.{
  HasNul-none, split_blocks-solid, split_blocks-last, render-solid,
}
use compliance_agent_platfor.Schemas.Retrieval.{DocumentChunk}

-- One record of a corpus file, as the module's docstring shows it
pub record CorpusRecord : Type 0 where
  pub chunk_id : Chars
  pub regulatory_ref : Chars
  pub topic : Chars
  pub compliance_level : Chars
  pub text : Chars
  pub citation : Chars

abbrev fields_of : CorpusRecord → List Field
fields_of r =
    (chars "CHUNK_ID", r.chunk_id)
    ∷ (chars "REGULATORY_REF", r.regulatory_ref)
    ∷ (chars "TOPIC", r.topic)
    ∷ (chars "COMPLIANCE_LEVEL", r.compliance_level)
    ∷ (chars "TEXT", r.text)
    ∷ (chars "CITATION", r.citation)
    ∷ []

abbrev render_record : CorpusRecord → Chars
render_record r = render (fields_of r)

-- The records, with a blank line between them
abbrev pub render_file : List CorpusRecord → Chars
render_file [] = []
render_file (r ∷ []) = render_record r
render_file (r ∷ s ∷ rs) = render_record r ++ "\n" ∷ "\n" ∷ render_file (s ∷ rs)

chars-from_chars : (cs : Chars) → chars (from_chars cs) ≡ cs
chars-from_chars [] = refl
chars-from_chars (c ∷ cs) = ap (λ r. c ∷ r) (chars-from_chars cs)

from_chars-truthy : (cs : Chars) → is_empty cs ≡ false → truthy (from_chars cs) ≡ true
from_chars-truthy [] e = absurd (ground (arith, e))
from_chars-truthy (c ∷ cs) e = elim (Bool-cases (str_eq (from_chars (c ∷ cs)) "")) [
  | inl q ↦ absurd (ground (arith, ap chars ((eq_iff (from_chars (c ∷ cs)) "").0 q)))
  | inr q ↦ ap not q
]

abbrev all_tag : Chars → Bool
all_tag [] = true
all_tag (c ∷ cs) = is_tag_char (code c) && all_tag cs

all_tag-IsTag : (cs : Chars) → all_tag cs ≡ true → IsTag cs
all_tag-IsTag [] e = tt
all_tag-IsTag (c ∷ cs) e = (ground (arith, e), all_tag-IsTag cs (ground (arith, e)))

-- A file of records begins with a bracket.
render_file-bracket :
    (r : CorpusRecord) (rs : List CorpusRecord)
    → (rest : Chars) × (render_file (r ∷ rs) ≡ "[" ∷ rest)
render_file-bracket r [] = (_, refl)
render_file-bracket r (s ∷ rs) = (_, refl)

fields-NodupKeys : (r : CorpusRecord) → NodupKeys (map read_field (fields_of r))
unfolding lookup
fields-NodupKeys r = (refl, (refl, (refl, (refl, (refl, (refl, tt))))))

abbrev IsNotNul : Char → Type 0
IsNotNul c = (code c == 0) ≡ false

OneLine-IsNotNul : (cs : Chars) → OneLine cs → All IsNotNul cs
OneLine-IsNotNul [] o = tt
OneLine-IsNotNul (c ∷ cs) o = (ground (arith, o.0), OneLine-IsNotNul cs o.1)

module _ (u : Unicode) where
  -- A value is one line without white space at its ends.
  pub record IsValue (v : Chars) : Type 0 where
    pub one_line : OneLine v
    pub stripped : strip u v ≡ v

  pub record IsRecord (r : CorpusRecord) : Type 0 where
    pub chunk_id : IsValue r.chunk_id
    pub regulatory_ref : IsValue r.regulatory_ref
    pub topic : IsValue r.topic
    pub compliance_level : IsValue r.compliance_level
    pub text : IsValue r.text
    pub citation : IsValue r.citation
    pub has_id : is_empty r.chunk_id ≡ false
    pub has_text : is_empty r.text ≡ false

  -- The chunk that a record stands for: its index is the record's number.
  abbrev pub record_chunk : String → ℕ → CorpusRecord → DocumentChunk
  record_chunk document_id index r = record {
    chunk_id = from_chars r.chunk_id;
    document_id = document_id;
    chunk_index = index;
    text = from_chars r.text;
    metadata = record {
      document_id = document_id;
      title = from_chars r.topic;
      program = from_chars (before_dash u r.chunk_id);
      section = or_none u (some (from_chars r.regulatory_ref));
      citation = or_none u (some (from_chars r.citation));
      compliance_level = or_none u (some (from_chars r.compliance_level));
    };
  }

  abbrev pub record_chunks : String → ℕ → List CorpusRecord → List DocumentChunk
  record_chunks document_id index [] = []
  record_chunks document_id index (r ∷ rs) =
      record_chunk document_id index r ∷ record_chunks document_id (suc index) rs

  module _ (spaced : IsSpaced u) where
    value-IsField :
        (tag v : Chars)
        → all_tag tag ≡ true
        → is_empty tag ≡ false
        → IsValue v
        → IsField u spaced (tag, v)
    value-IsField tag v t e i = record {
      tag = all_tag-IsTag tag t;
      named = e;
      one_line = i.one_line;
      stripped = i.stripped;
    }

    fields-IsField : (r : CorpusRecord) → IsRecord r → All (IsField u spaced) (fields_of r)
    fields-IsField r i = (
      value-IsField (chars "CHUNK_ID") r.chunk_id refl refl i.chunk_id,
      (
        value-IsField (chars "REGULATORY_REF") r.regulatory_ref refl refl i.regulatory_ref,
        (
          value-IsField (chars "TOPIC") r.topic refl refl i.topic,
          (
            value-IsField (chars "COMPLIANCE_LEVEL") r.compliance_level refl refl
                i.compliance_level,
            (
              value-IsField (chars "TEXT") r.text refl refl i.text,
              (value-IsField (chars "CITATION") r.citation refl refl i.citation, tt),
            ),
          ),
        ),
      ),
    )

    parse_block-record :
        (r : CorpusRecord)
        → IsRecord r
        → parse_block u (render_record r) ≡ map field_value (fields_of r)
    parse_block-record r i =
        parse_block-render u spaced (fields_of r) (fields-IsField r i) (fields-NodupKeys r)

    split_blocks-file :
        (r : CorpusRecord) (rs : List CorpusRecord)
        → All IsRecord (r ∷ rs)
        → split_blocks u 0 (render_file (r ∷ rs)) ≡ map render_record (r ∷ rs)
    split_blocks-file r [] a =
        split_blocks-last u spaced (render_record r)
          (render-solid u spaced (fields_of r) (fields-IsField r a.0))
    split_blocks-file r (s ∷ rs) a =
        let (rest, e) = render_file-bracket s rs in
        ap (λ t. split_blocks u 0 (render_record r ++ "\n" ∷ "\n" ∷ t)) e
        ∙ split_blocks-solid u spaced (render_record r) rest
            (render-solid u spaced (fields_of r) (fields-IsField r a.0))
        ∙ ap (λ bs. render_record r ∷ bs)
            (ap (split_blocks u 0) (sym e) ∙ split_blocks-file s rs a.1)

    with_text-bracket :
        (cs : Chars) (bs : List Chars) → with_text u (("[" ∷ cs) ∷ bs) ≡ ("[" ∷ cs) ∷ with_text u bs
    with_text-bracket cs bs = rw (spaced.bracket, spaced.bracket) refl

    with_text-records :
        (rs : List CorpusRecord) → with_text u (map render_record rs) ≡ map render_record rs
    with_text-records [] = refl
    with_text-records (r ∷ rs) =
        with_text-bracket _ (map render_record rs)
        ∙ ap (λ bs. render_record r ∷ bs) (with_text-records rs)

    add_chunk-record :
        (d : String) (index : ℕ) (r : CorpusRecord) (rest : List DocumentChunk)
        → IsRecord r
        → let fields = map field_value (fields_of r) in
          add_chunk u d index fields (lookup "CHUNK_ID" fields) (lookup "TEXT" fields) (ok rest)
          ≡ ok (record_chunk d index r ∷ rest)
    unfolding lookup
    add_chunk-record d index r rest i =
        rw
          (
            from_chars-truthy r.chunk_id i.has_id,
            from_chars-truthy r.text i.has_text,
            chars-from_chars r.chunk_id,
          )
          refl

    read_blocks-records :
        (d : String) (index : ℕ) (rs : List CorpusRecord)
        → All IsRecord rs
        → read_blocks u d index (map render_record rs) ≡ ok (record_chunks d index rs)
    read_blocks-records d index [] a = refl
    read_blocks-records d index (r ∷ rs) a =
        ap
          (λ rest.
            let fields = parse_block u (render_record r) in
            add_chunk u d index fields (lookup "CHUNK_ID" fields) (lookup "TEXT" fields) rest)
          (read_blocks-records d (suc index) rs a.1)
        ∙ ap
            (λ fields.
              add_chunk u d index fields (lookup "CHUNK_ID" fields) (lookup "TEXT" fields)
                (ok (record_chunks d (suc index) rs)))
            (parse_block-record r a.0)
        ∙ add_chunk-record d index r (record_chunks d (suc index) rs) a.0

    render-IsNotNul : (fs : List Field) → All (IsField u spaced) fs → All IsNotNul (render fs)
    render-IsNotNul [] a = tt
    render-IsNotNul (f ∷ []) a = OneLine-IsNotNul (field_line f) (field_line-OneLine u spaced f a.0)
    render-IsNotNul (f ∷ g ∷ fs) a =
        All-append IsNotNul (field_line f) ("\n" ∷ render (g ∷ fs))
          (OneLine-IsNotNul (field_line f) (field_line-OneLine u spaced f a.0))
          (refl, render-IsNotNul (g ∷ fs) a.1)

    render_file-IsNotNul :
        (rs : List CorpusRecord) → All IsRecord rs → All IsNotNul (render_file rs)
    render_file-IsNotNul [] a = tt
    render_file-IsNotNul (r ∷ []) a = render-IsNotNul (fields_of r) (fields-IsField r a.0)
    render_file-IsNotNul (r ∷ s ∷ rs) a =
        All-append IsNotNul (render_record r) ("\n" ∷ "\n" ∷ render_file (s ∷ rs))
          (render-IsNotNul (fields_of r) (fields-IsField r a.0))
          (refl, (refl, render_file-IsNotNul (s ∷ rs) a.1))

    parse-rendered :
        (d : String) (rs : List CorpusRecord)
        → All IsRecord rs
        → read_blocks u d 0 (with_text u (split_blocks u 0 (render_file rs)))
          ≡ ok (record_chunks d 0 rs)
    unfolding split_blocks
    parse-rendered d [] a = refl
    parse-rendered d (r ∷ rs) a =
        ap (λ bs. read_blocks u d 0 (with_text u bs)) (split_blocks-file r rs a)
        ∙ ap (read_blocks u d 0) (with_text-records (r ∷ rs))
        ∙ read_blocks-records d 0 (r ∷ rs) a

    -- A file of records in the documented format, with a blank line between them: the parser gives one
    -- chunk for each record, in order and with the record's values.
    pub parse_corpus_file-render :
        (stem : String) (rs : List CorpusRecord)
        → All IsRecord rs
        → parse_corpus_file u stem (from_chars (render_file rs)) ≡ ok (record_chunks stem 0 rs)
    unfolding parse_corpus_file
    parse_corpus_file-render stem rs a =
        ap (λ cs. read_blocks u stem 0 (with_text u (split_blocks u 0 (without_nul cs))))
          (chars-from_chars (render_file rs))
        ∙ ap (λ cs. read_blocks u stem 0 (with_text u (split_blocks u 0 cs)))
            (HasNul-none (render_file rs) (render_file-IsNotNul rs a))
        ∙ parse-rendered stem rs a
