-- ===== src/Strings.antt =====
-- The functions of Go's strings package that the program uses, over bytes.
use postgres_controller_back.Base.{
  ℕ, ◌≡◌, ◌≢◌, refl, false, Option, none, some, List, [], ◌∷◌, ◌++◌, if◌then◌else◌, ◌==◌, All,
  arith, length, length-append, ap, Bool-cases, inl, inr,
}
use postgres_controller_back.Base.Text.{Text, text_eq, text_eq_iff}

abbrev pub before : ℕ → Option (Text × Text) → Option (Text × Text)
before c none = none
before c (some (a, b)) = some (c ∷ a, b)

-- SplitN into two, at a byte: `none` where the byte does not occur.
unfoldable pub cut : ℕ → Text → Option (Text × Text)
cut sep [] = none
cut sep (c ∷ s) = if c == sep then some ([], s) else before c (cut sep s)

abbrev pub onto_first : ℕ → List Text → List Text
onto_first c [] = (c ∷ []) ∷ []
onto_first c (p ∷ ps) = (c ∷ p) ∷ ps

-- Split at a byte; there is always a part.
unfoldable pub split : ℕ → Text → List Text
split sep [] = [] ∷ []
split sep (c ∷ s) = let parts = split sep s in if c == sep then [] ∷ parts else onto_first c parts

-- TrimSuffix, of a suffix that is not empty.
unfoldable pub trim_suffix : Text → Text → Text
trim_suffix suffix [] = []
trim_suffix suffix (c ∷ s) = if text_eq (c ∷ s) suffix then [] else c ∷ trim_suffix suffix s

pub cut-append :
    (sep : ℕ) (s t : Text) → All (λ c. c ≢ sep) s → cut sep (s ++ sep ∷ t) ≡ some (s, t)
unfolding cut
cut-append sep [] t h = ground arith
cut-append sep (c ∷ s) t (n, h) = ground (arith, cut-append sep s t h)

longer : (k suffix : Text) (c : ℕ) → text_eq (c ∷ k ++ suffix) suffix ≡ false
longer k suffix c = elim (Bool-cases (text_eq (c ∷ k ++ suffix) suffix)) [
  | inl b ↦ absurd (
      omega
        (arith, ap length ((text_eq_iff (c ∷ k ++ suffix) suffix).0 b), length-append {0} k suffix))
  | inr b ↦ b
]

trim_self : (suffix : Text) → suffix ≢ [] → trim_suffix suffix suffix ≡ []
unfolding trim_suffix
trim_self [] n = refl
trim_self (c ∷ s) n = rw ((text_eq_iff (c ∷ s) (c ∷ s)).1 refl)

pub trim_suffix-append : (suffix k : Text) → suffix ≢ [] → trim_suffix suffix (k ++ suffix) ≡ k
unfolding trim_suffix
trim_suffix-append suffix [] n = trim_self suffix n
trim_suffix-append suffix (c ∷ k) n =
    rw (longer k suffix c) (ap (λ s. c ∷ s) (trim_suffix-append suffix k n))
