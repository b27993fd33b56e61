-- ===== src/Base/Slices.antt =====
-- Lemmas on what `take`, `drop` and `keep` leave of a list.
use Prim.Native.Nat.{ℕ, zero, suc, ◌+◌, ◌-◌, ◌≤◌, ◌<◌}
use mathlib.Core.Path.{◌≡◌, refl, sym, ap, ◌∙◌}
use mathlib.Core.Bool.{Bool, true, false}
use mathlib.Core.List.{List, [], ◌∷◌, ◌++◌}
use native.Mathlib.Omega.{arith}
use postgres_controller_back.Base.Lists.{length, take, drop, keep}
use postgres_controller_back.Base.Tests.{◌==◌}

module _ {ℓ} {A : Type ℓ} where
  pub take-drop : (n : ℕ) (rs : List A) → take n rs ++ drop n rs ≡ rs
  take-drop zero rs = refl
  take-drop (suc n) [] = refl
  take-drop (suc n) (r ∷ rs) = ap (λ qs. r ∷ qs) (take-drop n rs)

  pub drop-nil : (n : ℕ) → drop {A = A} n [] ≡ []
  drop-nil zero = refl
  drop-nil (suc n) = refl

  pub drop-drop : (k n : ℕ) (rs : List A) → drop n (drop k rs) ≡ drop (k + n) rs
  drop-drop zero n rs = let e : 0 + n ≡ n = omega arith in rw e refl
  drop-drop (suc k) n [] = drop-nil n ∙ sym (drop-nil (suc k + n))
  drop-drop (suc k) n (r ∷ rs) =
      let e : suc k + n ≡ suc (k + n) = omega arith in rw e (drop-drop k n rs)

  pub take_all : (n : ℕ) (rs : List A) → length rs < n → take n rs ≡ rs
  take_all zero rs h = absurd (omega arith)
  take_all (suc n) [] h = refl
  take_all (suc n) (r ∷ rs) h = ap (λ qs. r ∷ qs) (take_all n rs (omega arith))

  pub take_full : (n : ℕ) (rs : List A) → length (take n rs) ≡ n → n ≤ length rs
  take_full zero rs h = omega arith
  take_full (suc n) [] h = absurd (omega arith)
  take_full (suc n) (r ∷ rs) h = omega (arith, take_full n rs (omega arith))

  pub take_short : (n : ℕ) (rs : List A) → (length (take n rs) == n) ≡ false → length rs < n
  take_short zero rs h = absurd (ground arith)
  take_short (suc n) [] h = omega arith
  take_short (suc n) (r ∷ rs) h = omega (arith, take_short n rs (ground arith))

  pub length-drop : (k : ℕ) (rs : List A) → length (drop k rs) ≡ length rs - k
  length-drop zero rs = omega arith
  length-drop (suc k) [] = omega arith
  length-drop (suc k) (r ∷ rs) = omega (arith, length-drop k rs)

  pub length-keep : (p : A → Bool) (t : List A) → length (keep p t) ≤ length t
  length-keep p [] = omega arith
  length-keep p (r ∷ t) = ground (arith, length-keep p t)

  pub keep_all : (t : List A) → keep (λ r. true) t ≡ t
  keep_all [] = refl
  keep_all (r ∷ t) = ap (λ s. r ∷ s) (keep_all t)
