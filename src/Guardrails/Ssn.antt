-- ===== src/Guardrails/Ssn.antt =====
-- What the separated-SSN detector of guardrails/patterns.py finds.
use compliance_agent_platfor.Base.{
  ℕ, suc, ◌≡◌, refl, ap, ◌⊎◌, inl, inr, ◌↔◌, Bool, true, false, not, List, [], ◌∷◌, ◌++◌, Option,
  none, some, arith, ◌==◌, Bool-cases,
}
use compliance_agent_platfor.Base.Text.{codes, starts_with}
use compliance_agent_platfor.Guardrails.Unicode.{Unicode, is_digit}
use compliance_agent_platfor.Guardrails.Patterns.{
  ssn_separated_at, serial_part, group_part, is_ssn_separator, search_behind, has_ssn_separated,
  head_is, bad_area, digits, ◌>>=◌, ◌>>◌, guard, one_of, take_char,
}

abbrev found : Option (List ℕ) → Bool
found none = false
found (some rest) = true

module _ (u : Unicode) where
  abbrev AreDigits : List ℕ → Type 0
  AreDigits [] = Unit
  AreDigits (c ∷ cs) = (is_digit u c ≡ true) × AreDigits cs

  -- Whether the character before the place behind `text` is a digit; `start` is for no character.
  abbrev pub digit_before : Bool → List ℕ → Bool
  digit_before start [] = start
  digit_before start (c ∷ text) = digit_before (is_digit u c) text

  -- A text that begins with a well-formed SSN: ddd-dd-dddd or ddd dd dddd, the area none of 000,
  -- 666 and 9dd, the group not 00, the serial not 0000, and no further digit behind.
  pub record IsSsn (text : List ℕ) : Type 0 where
    pub a : ℕ
    pub b : ℕ
    pub c : ℕ
    pub separator : ℕ
    pub d : ℕ
    pub e : ℕ
    pub f : ℕ
    pub g : ℕ
    pub h : ℕ
    pub i : ℕ
    pub rest : List ℕ
    pub shape : text ≡ a ∷ b ∷ c ∷ separator ∷ d ∷ e ∷ separator ∷ f ∷ g ∷ h ∷ i ∷ rest
    pub are_digits : AreDigits (a ∷ b ∷ c ∷ d ∷ e ∷ f ∷ g ∷ h ∷ i ∷ [])
    pub separated : (separator ≡ b'-') ⊎ (separator ≡ 32)
    pub area : bad_area u (a ∷ b ∷ c ∷ []) ≡ false
    pub group : ¬ ((d ≡ b'0') × (e ≡ b'0'))
    pub serial : ¬ ((f ≡ b'0') × (g ≡ b'0') × (h ≡ b'0') × (i ≡ b'0'))
    pub no_digit_behind : head_is (is_digit u) rest ≡ false

  at_complete : (text : List ℕ) → IsSsn text → found (ssn_separated_at u text) ≡ true
  unfolding ssn_separated_at
  at_complete text s = ground arith

  -- Inversion of the matchers that `_SSN_SEPARATED` is made of.
  bind-found :
      {A : Type 0} (m : Option A) (f : A → Option (List ℕ))
      → found (m >>= f) ≡ true
      → (x : A) × (m ≡ some x) × (found (f x) ≡ true)
  bind-found none f p = absurd (ground arith)
  bind-found (some x) f p = (x, refl, p)

  guard-found :
      (b : Bool) (m : Option (List ℕ)) → found (guard b >> m) ≡ true → (b ≡ true) × (found m ≡ true)
  guard-found true m p = (refl, p)
  guard-found false m p = absurd (ground arith)

  digits-zero : (text rest : List ℕ) → digits u 0 text ≡ some rest → text ≡ rest
  unfolding digits
  digits-zero text rest p = cc

  digits-suc :
      (n : ℕ) (text rest : List ℕ)
      → digits u (suc n) text ≡ some rest
      → (c : ℕ) × (t : List ℕ) × (text ≡ c ∷ t) × (is_digit u c ≡ true) × (digits u n t ≡ some rest)
  unfolding digits
  digits-suc n [] rest p = cc
  digits-suc n (c ∷ t) rest p = (c, t, refl, ground arith, ground arith)

  digits-two :
      (text rest : List ℕ)
      → digits u 2 text ≡ some rest
      → (a : ℕ) × (b : ℕ) × (text ≡ a ∷ b ∷ rest) × AreDigits (a ∷ b ∷ [])
  digits-two text rest p =
      let (a, t, e, da, p) = digits-suc 1 text rest p in
      let (b, t', e', db, p) = digits-suc 0 t rest p in
      let z = digits-zero t' rest p in (a, b, cc (e, e', z), (da, (db, tt)))

  char-inv : (s : ℕ) (text rest : List ℕ) → one_of (λ c. c == s) text ≡ some rest → text ≡ s ∷ rest
  char-inv s [] rest p = cc
  char-inv s (c ∷ text) rest p = ground arith

  take_char-inv : (text rest : List ℕ) (c : ℕ) → take_char text ≡ some (c, rest) → text ≡ c ∷ rest
  take_char-inv [] rest c p = cc
  take_char-inv (d ∷ text) rest c p = ground arith

  digits-three :
      (text rest : List ℕ)
      → digits u 3 text ≡ some rest
      → (a : ℕ) × (b : ℕ) × (c : ℕ) × (text ≡ a ∷ b ∷ c ∷ rest) × AreDigits (a ∷ b ∷ c ∷ [])
  digits-three text rest p =
      let (a, t, e, da, q) = digits-suc 2 text rest p in
      let (b, c, e', ds) = digits-two t rest q in (a, b, c, cc (e, e'), (da, ds))

  digits-four :
      (text rest : List ℕ)
      → digits u 4 text ≡ some rest
      → (a : ℕ) × (b : ℕ) × (c : ℕ) × (d : ℕ) × (text ≡ a ∷ b ∷ c ∷ d ∷ rest)
        × AreDigits (a ∷ b ∷ c ∷ d ∷ [])
  digits-four text rest p =
      let (a, t, e, da, q) = digits-suc 3 text rest p in
      let (b, c, d, e', ds) = digits-three t rest q in (a, b, c, d, cc (e, e'), (da, ds))

  serial_part_sound :
      (text : List ℕ)
      → found (serial_part u text) ≡ true
      → (f : ℕ) × (g : ℕ) × (h : ℕ) × (i : ℕ) × (rest : List ℕ) × (text ≡ f ∷ g ∷ h ∷ i ∷ rest)
        × AreDigits (f ∷ g ∷ h ∷ i ∷ [])
        × ¬ ((f ≡ b'0') × (g ≡ b'0') × (h ≡ b'0') × (i ≡ b'0'))
        × (head_is (is_digit u) rest ≡ false)
  unfolding serial_part
  serial_part_sound text p =
      let (not_zero, p1) = guard-found (not (starts_with (codes "0000") text)) _ p in
      let tail = λ (rest : List ℕ). guard (not (head_is (is_digit u) rest)) >> some rest in
      let (rest, four, p2) = bind-found (digits u 4 text) tail p1 in
      let (end, _) = guard-found (not (head_is (is_digit u) rest)) (some rest) p2 in
      let (f, g, h, i, e, ds) = digits-four text rest four in
      (f, g, h, i, rest, e, ds, ground arith, ground arith)

  group_part_sound :
      (s : ℕ) (text : List ℕ)
      → found (group_part u s text) ≡ true
      → (d : ℕ) × (e : ℕ) × (tail : List ℕ) × (text ≡ d ∷ e ∷ s ∷ tail)
        × AreDigits (d ∷ e ∷ [])
        × ¬ ((d ≡ b'0') × (e ≡ b'0'))
        × (found (serial_part u tail) ≡ true)
  unfolding group_part
  group_part_sound s text p =
      let (not_zero, p1) = guard-found (not (starts_with (codes "00") text)) _ p in
      let serial = λ (t : List ℕ). one_of (λ c. c == s) t >>= serial_part u in
      let (after_group, two, p2) = bind-found (digits u 2 text) serial p1 in
      let (tail, one, p3) = bind-found (one_of (λ c. c == s) after_group) (serial_part u) p2 in
      let (d, e, q, ds) = digits-two text after_group two in
      (d, e, tail, cc (q, char-inv s after_group tail one), ds, ground arith, p3)

  at_sound : (text : List ℕ) → found (ssn_separated_at u text) ≡ true → IsSsn text
  unfolding ssn_separated_at
  at_sound text p =
      let (area_ok, p1) = guard-found (not (bad_area u text)) _ p in
      let part = λ (x : ℕ × List ℕ). guard (is_ssn_separator x.0) >> group_part u x.0 x.1 in
      let (after_area, three, p2) = bind-found (digits u 3 text) (λ t. take_char t >>= part) p1 in
      let (x, sep, p3) = bind-found (take_char after_area) part p2 in
      let (sep_ok, p4) = guard-found (is_ssn_separator x.0) (group_part u x.0 x.1) p3 in
      let (a, b, c, q, abc) = digits-three text after_area three in
      let (d, e, tail, q', de, not_zero, p5) = group_part_sound x.0 x.1 p4 in
      let (f, g, h, i, rest, q'', fghi, serial, end) = serial_part_sound tail p5 in
      let after : after_area ≡ x.0 ∷ x.1 = take_char-inv after_area x.1 x.0 sep in
      record {
        a = a;
        b = b;
        c = c;
        separator = x.0;
        d = d;
        e = e;
        f = f;
        g = g;
        h = h;
        i = i;
        rest = rest;
        shape = cc (q, after, q', q'');
        are_digits = (abc.0, (abc.1.0, (abc.1.1.0, (de.0, (de.1.0, fghi)))));
        separated = ground arith;
        area = ground (arith, q);
        group = not_zero;
        serial = serial;
        no_digit_behind = end;
      }

  -- An SSN that begins behind `before`, which does not end in a digit.
  pub record HasSsn (text : List ℕ) : Type 0 where
    pub before : List ℕ
    pub from : List ℕ
    pub split : text ≡ before ++ from
    pub ssn : IsSsn from
    pub no_digit_before : digit_before false before ≡ false

  search_complete :
      (start : Bool) (before from : List ℕ)
      → IsSsn from
      → digit_before start before ≡ false
      → search_behind u (ssn_separated_at u) start (before ++ from) ≡ true
  unfolding search_behind
  search_complete start [] [] s e = absurd (ground (arith, s.shape))
  search_complete start [] (c ∷ from) s e = ground (arith, at_complete (c ∷ from) s)
  search_complete start (b ∷ before) from s e =
      ground (arith, search_complete (is_digit u b) before from s e)

  search_sound :
      (start : Bool) (text : List ℕ)
      → search_behind u (ssn_separated_at u) start text ≡ true
      → (before : List ℕ) × (from : List ℕ) × (text ≡ before ++ from)
        × IsSsn from
        × (digit_before start before ≡ false)
  unfolding search_behind
  search_sound start [] p = cc
  search_sound start (c ∷ text) p =
      let rest = search_sound (is_digit u c) text in
      elim (Bool-cases (search_behind u (ssn_separated_at u) (is_digit u c) text)) [
        | inl later ↦
            let (before, from, e, s, d) = rest later in (c ∷ before, from, ap (λ t. c ∷ t) e, s, d)
        | inr never ↦
            ([], c ∷ text, refl, at_sound (c ∷ text) (ground (arith, never)), ground (arith, never))
      ]

  -- The detector fires exactly on the texts that hold a well-formed separated SSN.
  pub has_ssn_separated_iff : (text : List ℕ) → (has_ssn_separated u text ≡ true) ↔ HasSsn text
  unfolding has_ssn_separated
  has_ssn_separated_iff text = (
    λ p.
        let (before, from, e, s, d) = search_sound false text p in
        record { before = before; from = from; split = e; ssn = s; no_digit_before = d },
    λ h. rw (h.split) (search_complete false h.before h.from h.ssn h.no_digit_before),
  )
