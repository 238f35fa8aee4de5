-- ===== src/Audit/Export/Keys.antt =====
-- The keys of the objects: which of them are manifests.
use compliance_agent_platfor.Base.{
  ℕ, String, ◌≡◌, refl, ap, sym, ◌∙◌, Bool, true, false, ◌&&◌, ◌||◌, List, [], ◌∷◌, ◌++◌, str_eq,
  arith, if◌then◌else◌, append_assoc, is_empty, append-nil, ==_iff,
}
use compliance_agent_platfor.Base.Text.{codes, starts_with, ◌+ₛ◌}
use Prim.Native.Char.{code}
use text.Mathlib.TextLemmas.{nil-append, cons-append}
use compliance_agent_platfor.Config.{Settings}

-- `strftime("%Y%m%dT%H%M%S%fZ")` and `"%Y/%m/%d"` of an instant, and `str` of a number
pub record Formats : Type 0 where
  pub stamp : ℕ → String
  pub day : ℕ → String
  pub decimal : ℕ → String

-- `s.rstrip("/")`
unfoldable pub strip_slashes : String → String
strip_slashes String.[] = String.[]
strip_slashes (String.◌∷◌ c s) =
    let rest = strip_slashes s in
    if str_eq rest "" && str_eq (String.◌∷◌ c String.[]) "/" then String.[] else String.◌∷◌ c rest

abbrev pub manifest_suffix : String
manifest_suffix = ".manifest.json"

-- `_manifest_prefix`
abbrev pub manifest_prefix : Settings → String
manifest_prefix settings = strip_slashes settings.audit_export_prefix +ₛ "/manifests/"

abbrev batch_name : Formats → ℕ → ℕ → ℕ → String
batch_name f now first last =
    "export-" +ₛ f.stamp now +ₛ "-" +ₛ f.decimal first +ₛ "-" +ₛ f.decimal last

abbrev pub data_key_of : Formats → Settings → ℕ → ℕ → ℕ → String
data_key_of f settings now first last =
    strip_slashes settings.audit_export_prefix
    +ₛ "/data/"
    +ₛ f.day now
    +ₛ "/"
    +ₛ batch_name f now first last
    +ₛ ".jsonl"

abbrev pub manifest_key_of : Formats → Settings → ℕ → ℕ → ℕ → String
manifest_key_of f settings now first last =
    strip_slashes settings.audit_export_prefix
    +ₛ "/manifests/"
    +ₛ batch_name f now first last
    +ₛ manifest_suffix

unfoldable pub ends_with : List ℕ → List ℕ → Bool
ends_with suffix [] = is_empty suffix
ends_with suffix (c ∷ text) =
    let rest = ends_with suffix text in
    starts_with suffix (c ∷ text) && starts_with (c ∷ text) suffix || rest

-- `key.endswith(_MANIFEST_SUFFIX)`
unfoldable pub ends_with_suffix : String → Bool
unfolding ends_with
ends_with_suffix key = ends_with (codes manifest_suffix) (codes key)

-- A key lies under a prefix.
abbrev pub HasPrefix : String → String → Type 0
HasPrefix prefix key = starts_with (codes prefix) (codes key) ≡ true

pub codes-append : (s t : String) → codes (s +ₛ t) ≡ codes s ++ codes t
codes-append String.[] t = ap codes (nil-append t)
codes-append (String.◌∷◌ c s) t =
    ap codes (cons-append c s t) ∙ ap (λ r. code c ∷ r) (codes-append s t)

pub starts_with-cancel : (p xs ys : List ℕ) → starts_with (p ++ xs) (p ++ ys) ≡ starts_with xs ys
starts_with-cancel [] xs ys = refl
starts_with-cancel (c ∷ p) xs ys = ground (arith, starts_with-cancel p xs ys, (==_iff c c).1 refl)

starts_with-append : (p xs : List ℕ) → starts_with p (p ++ xs) ≡ true
starts_with-append [] xs = refl
starts_with-append (c ∷ p) xs = ground (arith, starts_with-append p xs, (==_iff c c).1 refl)

ends_with-append :
    (p suffix : List ℕ) → is_empty suffix ≡ false → ends_with suffix (p ++ suffix) ≡ true
unfolding ends_with
ends_with-append [] [] e = absurd (ground arith)
ends_with-append [] (c ∷ suffix) e =
    ground (arith, starts_with-append suffix [], append-nil suffix, (==_iff c c).1 refl)
ends_with-append (c ∷ p) suffix e = ground (arith, ends_with-append p suffix e)

abbrev root : Settings → String
root settings = strip_slashes settings.audit_export_prefix

under_prefix :
    (root m d x : String)
    → starts_with (codes (root +ₛ m)) (codes (root +ₛ d +ₛ x))
      ≡ starts_with (codes m) (codes d ++ codes x)
under_prefix root m d x =
    rw (codes-append root m, codes-append root (d +ₛ x), codes-append d x)
      (starts_with-cancel (codes root) (codes m) (codes d ++ codes x))

codes-parts :
    (a b c d : String) → codes (a +ₛ b +ₛ c +ₛ d) ≡ (codes a ++ (codes b ++ codes c)) ++ codes d
codes-parts a b c d =
    rw (codes-append a (b +ₛ c +ₛ d), codes-append b (c +ₛ d), codes-append c d)
      (ap (λ r. codes a ++ r) (sym (append_assoc (codes b) (codes c) (codes d)))
        ∙ sym (append_assoc (codes a) (codes b ++ codes c) (codes d)))

module _ (f : Formats) (settings : Settings) (now first last : ℕ) where
  pub manifest_key-HasPrefix :
      HasPrefix (manifest_prefix settings) (manifest_key_of f settings now first last)
  manifest_key-HasPrefix =
      under_prefix (root settings) "/manifests/" "/manifests/"
        (batch_name f now first last +ₛ manifest_suffix)
      ∙ starts_with-append (codes "/manifests/")
          (codes (batch_name f now first last +ₛ manifest_suffix))

  pub data_key-prefix :
      ¬ HasPrefix (manifest_prefix settings) (data_key_of f settings now first last)
  data_key-prefix e =
      let d : String = f.day now +ₛ "/" +ₛ batch_name f now first last +ₛ ".jsonl" in
      let p = under_prefix (root settings) "/manifests/" "/data/" d in absurd (ground (arith, p, e))

  pub manifest_key-suffix : ends_with_suffix (manifest_key_of f settings now first last) ≡ true
  unfolding ends_with_suffix
  manifest_key-suffix =
      ap (ends_with (codes manifest_suffix))
        (codes-parts (root settings) "/manifests/" (batch_name f now first last) manifest_suffix)
      ∙ ends_with-append
          (codes (root settings) ++ (codes "/manifests/" ++ codes (batch_name f now first last)))
          (codes manifest_suffix) refl
