-- ===== src/Verifier/Latencies.antt =====
-- The ring of latencies of internal/verifier/verifier.go (`canaryTimes`, `canaryIdx`, `canaryFull`), of
-- any size; the code's is 1000.
use postgres_controller_back.Base.Slices.{drop-nil, length-drop}
use postgres_controller_back.Base.{
  ℕ, zero, suc, ◌+◌, ◌-◌, ◌≡◌, ◌<◌, ◌≤◌, refl, Bool, true, false, List, [], ◌∷◌, ◌++◌, length, take,
  drop, leb, ltb, if◌then◌else◌, arith, ap, sym, ◌∙◌, subst, append_assoc, append-nil,
  length-append, Bool-cases, inl, inr,
}

pub record Ring : Type 0 where
  pub times : List ℕ
  pub index : ℕ
  pub full : Bool

unfoldable pub zeros : ℕ → List ℕ
zeros zero = []
zeros (suc n) = 0 ∷ zeros n

abbrev pub empty_ring : ℕ → Ring
empty_ring size = record { times = zeros size; index = 0; full = false }

unfoldable pub set_at : ℕ → ℕ → List ℕ → List ℕ
set_at i x [] = []
set_at zero x (y ∷ ys) = x ∷ ys
set_at (suc i) x (y ∷ ys) = y ∷ set_at i x ys

unfoldable pub record_time : ℕ → ℕ → Ring → Ring
unfolding set_at
record_time size d r =
    let times' = set_at r.index d r.times in
    if leb size (suc r.index)
    then record { times = times'; index = 0; full = true }
    else record { times = times'; index = suc r.index; full = r.full }

-- The part of the array that `Result` sorts.
unfoldable pub sampled : Ring → List ℕ
sampled r = if r.full then r.times else take r.index r.times

-- The latencies in the order in which they came.
abbrev pub window : Ring → List ℕ
window r = if r.full then drop r.index r.times ++ take r.index r.times else take r.index r.times

unfoldable pub record_all : ℕ → List ℕ → Ring → Ring
record_all size [] r = r
record_all size (d ∷ ds) r = record_all size ds (record_time size d r)

abbrev pub latest : ℕ → List ℕ → List ℕ
latest size ds = drop (length ds - size) ds

-- A queue that forgets its oldest entry when it is full.
abbrev push : ℕ → ℕ → List ℕ → List ℕ
push size d w = if ltb (length w) size then w ++ d ∷ [] else drop 1 w ++ d ∷ []

data Rep (size : ℕ) (r : Ring) (w : List ℕ) : Type 0 where
  filling :
      (zs : List ℕ)
      → r.full ≡ false
      → r.times ≡ w ++ zs
      → r.index ≡ length w
      → length w + length zs ≡ size
      → length w < size
      → Rep size r w
  turning :
      (new old : List ℕ)
      → r.full ≡ true
      → r.times ≡ new ++ old
      → w ≡ old ++ new
      → r.index ≡ length new
      → length new + length old ≡ size
      → length new < size
      → Rep size r w

set_at-append :
    (xs : List ℕ) (d y : ℕ) (ys : List ℕ) → set_at (length xs) d (xs ++ y ∷ ys) ≡ xs ++ d ∷ ys
unfolding set_at
set_at-append [] d y ys = refl
set_at-append (x ∷ xs) d y ys = ap (λ zs. x ∷ zs) (set_at-append xs d y ys)

take-append : (xs ys : List ℕ) → take (length xs) (xs ++ ys) ≡ xs
take-append [] ys = refl
take-append (x ∷ xs) ys = ap (λ zs. x ∷ zs) (take-append xs ys)

drop-append : (xs ys : List ℕ) → drop (length xs) (xs ++ ys) ≡ ys
drop-append [] ys = refl
drop-append (x ∷ xs) ys = drop-append xs ys

-- What the write does to the array of either kind, at an index within it.
written :
    (size d : ℕ) (r : Ring) (xs : List ℕ) (y : ℕ) (ys : List ℕ)
    → r.times ≡ xs ++ y ∷ ys
    → r.index ≡ length xs
    → set_at r.index d r.times ≡ xs ++ d ∷ ys
written size d r xs y ys e i = rw (i, e) (set_at-append xs d y ys)

none_left : (zs : List ℕ) → length zs ≡ 0 → zs ≡ []
none_left [] h = refl
none_left (x ∷ xs) h = absurd (omega arith)

Rep-record_time :
    (size d : ℕ) (r : Ring) (w : List ℕ)
    → Rep size r w
    → Rep size (record_time size d r) (push size d w)
unfolding record_time
Rep-record_time size d r w (filling [] f e i n l) = absurd (omega arith)
Rep-record_time size d r w (filling (z ∷ zs) f e i n l) =
    let p : push size d w ≡ w ++ d ∷ [] = ground arith in
    let q : length (w ++ d ∷ []) ≡ suc (length w) = omega (arith, length-append {0} w (d ∷ [])) in
    let t : set_at r.index d r.times ≡ w ++ d ∷ zs = written size d r w z zs e i in
    elim (Bool-cases (leb size (suc r.index))) [
      | inl b ↦
          rw (b, p)
            (turning [] (w ++ d ∷ []) refl (t ∙ ap (λ s. w ++ d ∷ s) (none_left zs (ground arith)))
              (sym (append-nil (w ++ d ∷ []))) refl (ground (arith, q)) (ground arith))
      | inr b ↦
          rw (b, p)
            (filling zs f (t ∙ sym (append_assoc w (d ∷ []) zs)) (ground (arith, q))
              (ground (arith, q)) (ground (arith, q)))
    ]
Rep-record_time size d r w (turning new [] f e g i n l) = absurd (omega arith)
Rep-record_time size d r w (turning new (x ∷ old) f e g i n l) =
    let k : length w ≡ size = omega (arith, ap length g, length-append {0} (x ∷ old) new) in
    let p : push size d w ≡ (old ++ new) ++ d ∷ [] = pushed k in
    let q : length (new ++ d ∷ []) ≡ suc (length new) =
      omega (arith, length-append {0} new (d ∷ [])) in
    let t : set_at r.index d r.times ≡ new ++ d ∷ old = written size d r new x old e i in
    let a : (old ++ new) ++ d ∷ [] ≡ old ++ (new ++ d ∷ []) = append_assoc old new (d ∷ []) in
    elim (Bool-cases (leb size (suc r.index))) [
      | inl b ↦
          rw (b, p)
            (turning [] (new ++ d ∷ []) refl
              (t ∙ ap (λ s. new ++ d ∷ s) (none_left old (ground arith)))
              (a
                ∙ ap (λ s. s ++ (new ++ d ∷ [])) (none_left old (ground arith))
                ∙ sym (append-nil (new ++ d ∷ [])))
              refl (ground (arith, q)) (ground arith))
      | inr b ↦
          rw (b, p)
            (turning (new ++ d ∷ []) old f (t ∙ sym (append_assoc new (d ∷ []) old)) a
              (ground (arith, q)) (ground (arith, q)) (ground (arith, q)))
    ]
  where
    overfull : (v : List ℕ) → size ≤ suc (length v) → push size d (x ∷ v) ≡ v ++ d ∷ []
    overfull v o = ground arith

    pushed : length w ≡ size → push size d w ≡ (old ++ new) ++ d ∷ []
    pushed k =
        subst (λ v. push size d v ≡ (old ++ new) ++ d ∷ []) (sym g)
          (overfull (old ++ new) (omega (arith, ap length g, k)))

Rep-window : (size : ℕ) (r : Ring) (w : List ℕ) → Rep size r w → window r ≡ w
Rep-window size r w (filling zs f e i n l) = rw (f, e, i) (take-append w zs)
Rep-window size r w (turning new old f e g i n l) =
    rw (f, e, i, g)
      (ap (λ s. s ++ take (length new) (new ++ old)) (drop-append new old)
        ∙ ap (λ s. old ++ s) (take-append new old))

drop-append_one :
    (n : ℕ) (xs : List ℕ) (d : ℕ) → n ≤ length xs → drop n (xs ++ d ∷ []) ≡ drop n xs ++ d ∷ []
drop-append_one zero xs d l = refl
drop-append_one (suc n) [] d l = absurd (omega arith)
drop-append_one (suc n) (x ∷ xs) d l = drop-append_one n xs d (omega arith)

drop-suc : (n : ℕ) (xs : List ℕ) → drop 1 (drop n xs) ≡ drop (suc n) xs
drop-suc zero xs = refl
drop-suc (suc n) [] = refl
drop-suc (suc n) (x ∷ xs) = drop-suc n xs

push-latest :
    (size : ℕ) (hs : List ℕ) (d : ℕ)
    → 0 < size
    → push size d (latest size hs) ≡ latest size (hs ++ d ∷ [])
push-latest size hs d h = elim (Bool-cases (ltb (length hs) size)) [
  | inl b ↦
      let z : length hs - size ≡ 0 = ground arith in
      let z' : length (hs ++ d ∷ []) - size ≡ 0 = ground (arith, length-append {0} hs (d ∷ [])) in
      rw (z, z', b) refl
  | inr b ↦
      let n : length (hs ++ d ∷ []) - size ≡ suc (length hs - size) =
        ground (arith, length-append {0} hs (d ∷ [])) in
      let f : ltb (length (latest size hs)) size ≡ false =
        ground (arith, length-drop (length hs - size) hs) in
      rw (n, f)
        (ap (λ s. s ++ d ∷ []) (drop-suc (length hs - size) hs)
          ∙ sym (drop-append_one (suc (length hs - size)) hs d (ground arith)))
]

Rep-record_all :
    (size : ℕ) (hs ds : List ℕ) (r : Ring)
    → 0 < size
    → Rep size r (latest size hs)
    → Rep size (record_all size ds r) (latest size (hs ++ ds))
unfolding record_all
Rep-record_all size hs [] r h p = subst (λ s. Rep size r (latest size s)) (sym (append-nil hs)) p
Rep-record_all size hs (d ∷ ds) r h p =
    subst (λ s. Rep size (record_all size ds (record_time size d r)) (latest size s))
      (append_assoc hs (d ∷ []) ds)
      (Rep-record_all size (hs ++ d ∷ []) ds (record_time size d r) h (
        subst (Rep size (record_time size d r)) (push-latest size hs d h)
          (Rep-record_time size d r (latest size hs) p)))

pub length-zeros : (n : ℕ) → length (zeros n) ≡ n
unfolding zeros
length-zeros zero = refl
length-zeros (suc n) = omega (arith, length-zeros n)

-- The ring refines a queue: it holds the latest latencies that were recorded, as many as its size, in
-- their order.
pub ring_keeps_latest :
    (size : ℕ) (ds : List ℕ)
    → 0 < size
    → window (record_all size ds (empty_ring size)) ≡ latest size ds
ring_keeps_latest size ds h =
    Rep-window size (record_all size ds (empty_ring size)) (latest size ds) (
      Rep-record_all size [] ds (empty_ring size) h (
        subst (Rep size (empty_ring size)) (sym (drop-nil (0 - size)))
          (filling (zeros size) refl refl refl (omega (arith, length-zeros size)) h)))
