-- ===== src/Rag/Corpus/Render.antt =====
-- The corpus format, printed: a file of records whose values are single lines, and that the parser
-- reads such a file back.
use compliance_agent_platfor.Base.{
  String, ◌≡◌, refl, sym, ap, ◌∙◌, subst, true, false, ◌||◌, List, [], ◌∷◌, ◌++◌, map, append_assoc,
  append-nil, Option, none, some, All, ◌==◌, is_empty, arith,
}
use Prim.Native.Char.{Char, code}
use compliance_agent_platfor.Base.Dict.{Dict, NodupKeys, insert-last}
use compliance_agent_platfor.Base.Text.{from_chars}
use compliance_agent_platfor.Guardrails.Unicode.{Unicode}
use compliance_agent_platfor.Rag.Corpus.{
  Chars, splitlines, is_line_break, is_tag_char, read_tag, tag_line, read_line, read_lines, strip,
  field_text, parse_block,
}

-- What Python's `\s` says of a newline, of a space and of an opening bracket
pub record IsSpaced (u : Unicode) : Type 0 where
  pub newline : u.is_space 10 ≡ true
  pub space : u.is_space 32 ≡ true
  pub bracket : u.is_space b'[' ≡ false

-- One line: without a line break or a NUL in it
abbrev pub OneLine : Chars → Type 0
OneLine [] = Unit
OneLine (c ∷ cs) = ((is_line_break (code c) || code c == 0) ≡ false) × OneLine cs

abbrev pub IsTag : Chars → Type 0
IsTag [] = Unit
IsTag (c ∷ cs) = (is_tag_char (code c) ≡ true) × IsTag cs

-- A field of a record: its tag and its value
abbrev pub Field : Type 0
Field = Chars × Chars

-- `[TAG]: value`
abbrev pub field_line : Field → Chars
field_line f = "[" ∷ (f.0 ++ "]" ∷ ":" ∷ " " ∷ f.1)

-- The record: its fields on lines of their own
abbrev pub render : List Field → Chars
render [] = []
render (f ∷ []) = field_line f
render (f ∷ g ∷ fs) = field_line f ++ "\n" ∷ render (g ∷ fs)

abbrev pub read_field : Field → String × List Chars
read_field f = (from_chars f.0, f.1 ∷ [])

abbrev pub field_value : Field → String × String
field_value f = (from_chars f.0, from_chars f.1)

splitlines-last : (c : Char) (cs : Chars) → OneLine (c ∷ cs) → splitlines (c ∷ cs) ≡ (c ∷ cs) ∷ []
unfolding splitlines
splitlines-last c [] o = ground (arith, o.0)
splitlines-last c (d ∷ cs) o = ground (arith, o.0, splitlines-last d cs o.1)

splitlines-line :
    (line rest : Chars) → OneLine line → splitlines (line ++ "\n" ∷ rest) ≡ line ∷ splitlines rest
unfolding splitlines
splitlines-line [] rest o = refl
splitlines-line (c ∷ cs) rest o = ground (arith, o.0, splitlines-line cs rest o.1)

OneLine-append : (xs ys : Chars) → OneLine xs → OneLine ys → OneLine (xs ++ ys)
OneLine-append [] ys o p = p
OneLine-append (x ∷ xs) ys o p = (o.0, OneLine-append xs ys o.1 p)

tag-OneLine : (tag : Chars) → IsTag tag → OneLine tag
tag-OneLine [] t = tt
tag-OneLine (c ∷ cs) t = (ground (arith, t.0), tag-OneLine cs t.1)

module _ (u : Unicode) (spaced : IsSpaced u) where
  pub record IsField (f : Field) : Type 0 where
    pub tag : IsTag (f.0)
    pub named : is_empty (f.0) ≡ false
    pub one_line : OneLine (f.1)
    pub stripped : strip u (f.1) ≡ f.1

  pub field_line-OneLine : (f : Field) → IsField f → OneLine (field_line f)
  field_line-OneLine f i = (
    refl,
    OneLine-append f.0 ("]" ∷ ":" ∷ " " ∷ f.1) (tag-OneLine f.0 i.tag)
        (refl, (refl, (refl, i.one_line))),
  )

  read_tag-value :
      (tag value : Chars)
      → IsTag tag
      → read_tag u (tag ++ "]" ∷ ":" ∷ " " ∷ value) ≡ some (tag, value)
  unfolding read_tag
  read_tag-value [] value t = ground (arith, spaced.space)
  read_tag-value (c ∷ cs) value t = ground (arith, t.0, read_tag-value cs value t.1)

  tag_line-field : (f : Field) → IsField f → tag_line u (field_line f) ≡ some f
  tag_line-field f i = rw (read_tag-value f.0 f.1 i.tag, i.named) refl

  -- The lines of a record's fields
  splitlines-render :
      (fs : List Field) → All IsField fs → splitlines (render fs) ≡ map field_line fs
  unfolding splitlines
  splitlines-render [] a = refl
  splitlines-render (f ∷ []) a =
      splitlines-last "[" (f.0 ++ "]" ∷ ":" ∷ " " ∷ f.1) (field_line-OneLine f a.0)
  splitlines-render (f ∷ g ∷ fs) a =
      splitlines-line (field_line f) (render (g ∷ fs)) (field_line-OneLine f a.0)
      ∙ ap (λ ls. field_line f ∷ ls) (splitlines-render (g ∷ fs) a.1)

  read_lines-fields :
      (fs : List Field) (d : Dict (List Chars)) (current : Option String)
      → All IsField fs
      → NodupKeys (d ++ map read_field fs)
      → read_lines u (map field_line fs) d current ≡ d ++ map read_field fs
  read_lines-fields [] d current a n = sym (append-nil d)
  read_lines-fields (f ∷ fs) d current a n =
      let last = append_assoc d (read_field f ∷ []) (map read_field fs) in
      ap
        (λ o.
          let (e, c) = read_line u o (field_line f) d current in
          read_lines u (map field_line fs) e c)
        (tag_line-field f a.0)
      ∙ ap (λ e. read_lines u (map field_line fs) e (some (from_chars f.0)))
          (insert-last (from_chars f.0) (f.1 ∷ []) d (map read_field fs) n)
      ∙ read_lines-fields fs (d ++ read_field f ∷ []) (some (from_chars f.0)) a.1
          (subst NodupKeys (sym last) n)
      ∙ last

  field_text-read :
      (fs : List Field)
      → All IsField fs
      → map (field_text u) (map read_field fs) ≡ map field_value fs
  field_text-read [] a = refl
  field_text-read (f ∷ fs) a = rw (a.0.stripped, field_text-read fs a.1) refl

  -- A record's fields are read back of the record.
  pub parse_block-render :
      (fs : List Field)
      → All IsField fs
      → NodupKeys (map read_field fs)
      → parse_block u (render fs) ≡ map field_value fs
  unfolding parse_block
  parse_block-render fs a n =
      ap (λ ls. map (field_text u) (read_lines u ls [] none)) (splitlines-render fs a)
      ∙ ap (map (field_text u)) (read_lines-fields fs [] none a n)
      ∙ field_text-read fs a
