-- ===== src/Rag/Samples.antt =====
-- A corpus file, an index and a store in memory, which meet the assumptions on them.
use compliance_agent_platfor.Base.{
  ℕ, zero, suc, String, ◌≡◌, refl, Bool, true, false, not, ◌&&◌, ◌||◌, List, [], ◌∷◌, ◌++◌, Option,
  none, some, All, length, length-append, ltb, ltb→lt, Bool-cases, inl, inr, subst, map, is_empty,
  ◌==◌, arith, if◌then◌else◌,
}
use Prim.Native.Char.{code}
use compliance_agent_platfor.Base.Dict.{Dict}
use compliance_agent_platfor.Base.Float.{Float, zero_float, one_float}
use compliance_agent_platfor.Base.Text.{chars, from_chars}
use compliance_agent_platfor.Error.{ok}
use compliance_agent_platfor.Guardrails.Unicode.{ascii}
use compliance_agent_platfor.Rag.Corpus.{Chars, is_line_break, strip}
use compliance_agent_platfor.Rag.Corpus.Render.{IsSpaced, OneLine}
use compliance_agent_platfor.Rag.Corpus.RoundTrip.{
  CorpusRecord, IsValue, IsRecord, render_file, record_chunk,
}
use compliance_agent_platfor.Rag.Faiss.{FaissVectorStore, Entry, Codec, new_store, put_chunk}
use compliance_agent_platfor.Rag.Faiss.Invariant.{
  IsStore, Fits, length-map, new_store-IsStore, put_chunk-IsStore,
}
use compliance_agent_platfor.Rag.Ingest.{CorpusFile, Embedder}
use compliance_agent_platfor.Rag.Ingest.Built.{Embeds}
use compliance_agent_platfor.Rag.Vectors.{Vector, Floats, Faiss, IsFlat, Within}
use compliance_agent_platfor.Schemas.Retrieval.{DocumentChunk}

abbrev pub floats : Floats
floats = record {
  mul = λ a b. a;
  div = λ a b. a;
  sum = λ v. one_float;
  sqrt = λ a. a;
  is_zero = λ a. false;
  float32 = λ a. a;
}

-- An index that ranks its vectors in their order
abbrev pub first_hits : ℕ → ℕ → ℕ → List (Float × Option ℕ)
first_hits zero i n = []
first_hits (suc k) i n = (one_float, if ltb i n then some i else none) ∷ first_hits k (suc i) n

abbrev pub flat : Faiss
flat = record {
  Index = List Vector;
  index_flat_ip = λ d. [];
  add = λ x vs. ok (x ++ vs);
  search = λ x q k. ok (first_hits k 0 (length x));
}

pub first_hits-Within :
    (k i n : ℕ) → (length (first_hits k i n) ≡ k) × All (Within n) (first_hits k i n)
first_hits-Within zero i n = (refl, tt)
first_hits-Within (suc k) i n =
    let (l, a) = first_hits-Within k (suc i) n in
    let within : Within n (one_float, if ltb i n then some i else none) =
      elim (Bool-cases (ltb i n)) [ inl e ↦ rw e (ltb→lt i n e) | inr e ↦ rw e tt ] in
    (omega (arith, l), (within, a))

pub flat-IsFlat : IsFlat flat
flat-IsFlat = record {
  Holds = λ x d n. length x ≡ n;
  empty = λ d. refl;
  adds = λ x d n vs h fit. (x ++ vs, refl, omega (arith, length-append x vs, h));
  searches = λ x d n q k h fit positive.
      let (l, a) = first_hits-Within k 0 (length x) in
      (
        first_hits k 0 (length x),
        refl,
        l,
        subst (λ m. All (Within m) (first_hits k 0 (length x))) h a,
      );
}

pub ascii-IsSpaced : IsSpaced ascii
ascii-IsSpaced = record { newline = refl; space = refl; bracket = refl }

abbrev pub one_line : Chars → Bool
one_line [] = true
one_line (c ∷ cs) = not (is_line_break (code c) || code c == 0) && one_line cs

pub one_line-OneLine : (cs : Chars) → one_line cs ≡ true → OneLine cs
one_line-OneLine [] e = tt
one_line-OneLine (c ∷ cs) e = (ground (arith, e), one_line-OneLine cs (ground (arith, e)))

abbrev pub guidance : Chars → CorpusRecord
guidance id = record {
  chunk_id = id;
  regulatory_ref = chars "31 CFR 501";
  topic = chars "True Match";
  compliance_level = chars "Mandatory";
  text = chars "Freeze the funds.";
  citation = chars "OFAC";
}

pub value : (cs : Chars) → one_line cs ≡ true → strip ascii cs ≡ cs → IsValue ascii cs
value cs o s = record { one_line = one_line-OneLine cs o; stripped = s }

pub guidance-IsRecord :
    (id : Chars)
    → one_line id ≡ true
    → strip ascii id ≡ id
    → is_empty id ≡ false
    → IsRecord ascii (guidance id)
guidance-IsRecord id o s e = record {
  chunk_id = value id o s;
  regulatory_ref = value (chars "31 CFR 501") refl refl;
  topic = value (chars "True Match") refl refl;
  compliance_level = value (chars "Mandatory") refl refl;
  text = value (chars "Freeze the funds.") refl refl;
  citation = value (chars "OFAC") refl refl;
  has_id = e;
  has_text = refl;
}

abbrev pub records : List CorpusRecord
records = guidance (chars "OFAC-014") ∷ guidance (chars "OFAC-015") ∷ []

abbrev pub corpus_text : String
corpus_text = from_chars (render_file records)

abbrev pub chunk : DocumentChunk
chunk = record_chunk ascii "ofac" 0 (guidance (chars "OFAC-014"))

abbrev pub vector : Vector
vector = one_float ∷ zero_float ∷ []

abbrev pub one_chunk : FaissVectorStore flat
one_chunk = put_chunk floats flat chunk vector (new_store floats flat 2)

pub one_chunk-IsStore : IsStore flat flat-IsFlat one_chunk
one_chunk-IsStore =
    put_chunk-IsStore flat flat-IsFlat floats (new_store floats flat 2) chunk vector refl
      (new_store-IsStore flat flat-IsFlat floats 2)

abbrev pub codec : Codec
codec = record { Text = Dict Entry; dumps = λ es. es; loads = λ es. ok es }

abbrev pub constant_embedder : Embedder
constant_embedder texts = ok (map (λ t. vector) texts)

pub fits : (texts : List String) → All (Fits 2) (map (λ t. vector) texts)
fits [] = tt
fits (t ∷ texts) = (refl, fits texts)

pub constant_embedder-Embeds : Embeds 2 constant_embedder
constant_embedder-Embeds texts =
    (map (λ t. vector) texts, refl, length-map (λ t. vector) texts, fits texts)

abbrev pub files : List CorpusFile
files = ("ofac", ok corpus_text) ∷ []
