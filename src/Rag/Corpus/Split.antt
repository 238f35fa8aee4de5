-- ===== src/Rag/Corpus/Split.antt =====
-- `re.split(r"\n\s*\n", text)` on blocks that are joined by blank lines.
use compliance_agent_platfor.Base.{
  ◌≡◌, refl, sym, ap, ◌∙◌, append-nil, Bool, true, false, not, ◌&&◌, ◌||◌, List, [], ◌∷◌, ◌++◌, All,
  ◌==◌, arith, inl, inr, Bool-cases,
}
use Prim.Native.Char.{Char, code}
use compliance_agent_platfor.Guardrails.Unicode.{Unicode}
use compliance_agent_platfor.Rag.Corpus.{Chars, add_to_first, split_blocks, without_nul}
use compliance_agent_platfor.Rag.Corpus.Render.{
  IsSpaced, OneLine, Field, field_line, render, IsField, field_line-OneLine,
}

pub HasNul-none : (cs : Chars) → All (λ c. (code c == 0) ≡ false) cs → without_nul cs ≡ cs
HasNul-none [] a = refl
HasNul-none (c ∷ cs) a = rw (a.0, HasNul-none cs a.1) refl

module _ (u : Unicode) where
  abbrev next_solid : Chars → Bool
  next_solid [] = false
  next_solid (c ∷ cs) = not (u.is_space (code c))

  -- After every newline stands a character that is not white.
  abbrev pub solid : Chars → Bool
  solid [] = true
  solid (c ∷ cs) = (not (code c == 10) || next_solid cs) && solid cs

  module _ (spaced : IsSpaced u) where
    -- A character that begins no separator belongs to its block.
    split_blocks-kept :
        (c : Char) (cs : Chars)
        → (not (code c == 10) || next_solid cs) ≡ true
        → split_blocks u 0 (c ∷ cs) ≡ add_to_first c (split_blocks u 0 cs)
    unfolding split_blocks
    split_blocks-kept c [] e = ground (arith, e)
    split_blocks-kept c (d ∷ cs) e = elim (Bool-cases (u.is_space (code d))) [
      | inl w ↦ let other : (code c == 10) ≡ false = ground (arith, e, w) in rw other refl
      | inr w ↦ elim (Bool-cases (code c == 10)) [ inl n ↦ rw (n, w) refl | inr n ↦ rw n refl ]
    ]

    split_blocks-blank :
        (rest : Chars)
        → split_blocks u 0 ("\n" ∷ "\n" ∷ "[" ∷ rest) ≡ [] ∷ split_blocks u 0 ("[" ∷ rest)
    unfolding split_blocks
    split_blocks-blank rest = rw (spaced.newline, spaced.bracket) refl

    next_solid-append :
        (c : Char) (cs rest : Chars)
        → solid (c ∷ cs) ≡ true
        → (not (code c == 10) || next_solid (cs ++ rest)) ≡ true
    next_solid-append c [] rest s = ground (arith, s)
    next_solid-append c (d ∷ cs) rest s = ground (arith, s)

    pub split_blocks-solid :
        (b rest : Chars)
        → solid b ≡ true
        → split_blocks u 0 (b ++ "\n" ∷ "\n" ∷ "[" ∷ rest) ≡ b ∷ split_blocks u 0 ("[" ∷ rest)
    split_blocks-solid [] rest s = split_blocks-blank rest
    split_blocks-solid (c ∷ cs) rest s =
        split_blocks-kept c (cs ++ "\n" ∷ "\n" ∷ "[" ∷ rest)
          (next_solid-append c cs ("\n" ∷ "\n" ∷ "[" ∷ rest) s)
        ∙ ap (add_to_first c) (split_blocks-solid cs rest (ground (arith, s)))

    pub split_blocks-last : (b : Chars) → solid b ≡ true → split_blocks u 0 b ≡ b ∷ []
    unfolding split_blocks
    split_blocks-last [] s = refl
    split_blocks-last (c ∷ cs) s =
        split_blocks-kept c cs (ground (arith, s))
        ∙ ap (add_to_first c) (split_blocks-last cs (ground (arith, s)))

    OneLine-solid :
        (line rest : Chars) → OneLine line → solid rest ≡ true → solid (line ++ rest) ≡ true
    OneLine-solid [] rest o s = s
    OneLine-solid (c ∷ cs) rest o s = ground (arith, o.0, OneLine-solid cs rest o.1 s)

    pub render-solid : (fs : List Field) → All (IsField u spaced) fs → solid (render fs) ≡ true
    render-solid [] a = refl
    render-solid (f ∷ []) a =
        ap solid (sym (append-nil (field_line f)))
        ∙ OneLine-solid (field_line f) [] (field_line-OneLine u spaced f a.0) refl
    render-solid (f ∷ g ∷ fs) a =
        OneLine-solid (field_line f) ("\n" ∷ render (g ∷ fs)) (field_line-OneLine u spaced f a.0)
          (ground (arith, spaced.bracket, render-solid (g ∷ fs) a.1))
