-- ===== src/LoadTest/Seeder/Padding.antt =====
-- `padToSize` ends with a document of the size asked for, in which nothing but the padding is new.
use postgres_controller_back.Base.{
  ℕ, zero, suc, ◌+◌, ◌≡◌, ◌≢◌, ◌≤◌, ◌<◌, refl, sym, false, List, [], ◌∷◌, ◌++◌, length, ltb, arith,
  Bool-cases, inl, inr,
}
use postgres_controller_back.Base.Int.{ℤ}
use postgres_controller_back.Base.Text.{Text, codes, text_eq, text_eq_iff}
use postgres_controller_back.Json.{
  Json, null, bool, num, str, arr, obj, Members, end, member, find_member, field,
}
use postgres_controller_back.LoadTest.Seeder.{
  count_of, key_before, set_member, set_field, with_padding, next_padding, pad_on, pad_to_size,
}

-- A document with one entry more of padding has a longer text, as encoding/json prints it.
abbrev pub Grows : (Json → Text) → Json → Type 0
Grows marshal d =
    (ns : List ℕ) (n : ℕ)
    → length (marshal (with_padding ns d)) < length (marshal (with_padding (ns ++ n ∷ []) d))

module _ (marshal : Json → Text) where
  pad_on-reaches :
      (fuel target : ℕ) (d : Json) (ns : List ℕ)
      → Grows marshal d
      → target ≤ length (marshal (with_padding ns d)) + fuel
      → target ≤ length (marshal (pad_on marshal fuel target d ns))
  unfolding pad_on
  pad_on-reaches zero target d ns g h = omega (arith, h)
  pad_on-reaches (suc fuel) target d ns g h =
      elim (Bool-cases (ltb (length (marshal (with_padding ns d))) target)) [
        | inl b ↦ rw b (
            pad_on-reaches fuel target d
              (ns
                ++ next_padding marshal target (length (marshal (with_padding ns d))) (length ns)
                  ∷ [])
              g
              (omega (
                arith,
                h,
                g ns (
                    next_padding marshal target (length (marshal (with_padding ns d))) (length ns)),
              )))
        | inr b ↦ rw b (ground arith)
      ]

ne-text_eq : (k j : Text) → k ≢ j → text_eq j k ≡ false
ne-text_eq k j n = elim (Bool-cases (text_eq j k)) [
  | inl b ↦ absurd (n (sym ((text_eq_iff j k).0 b)))
  | inr b ↦ b
]

find-set_member :
    (k j : Text) (v : Json) (ms : Members)
    → k ≢ j
    → find_member k (set_member j v ms) ≡ find_member k ms
unfolding find_member set_member
find-set_member k j v end n = rw (ne-text_eq k j n) refl
find-set_member k j v (member i u ms) n = elim (Bool-cases (text_eq i j)) [
  | inl b ↦ let e : i ≡ j = (text_eq_iff i j).0 b in rw (b, e, ne-text_eq k j n) refl
  | inr b ↦ elim (Bool-cases (key_before j i)) [
    | inl c ↦ rw (b, c, ne-text_eq k j n) refl
    | inr c ↦ rw (b, c, find-set_member k j v ms n) refl
  ]
]

field-with_padding :
    (k : Text) (ns : List ℕ) (d : Json)
    → k ≢ codes "_padding"
    → field k (with_padding ns d) ≡ field k d
unfolding field with_padding set_field
field-with_padding k [] d n = refl
field-with_padding k (m ∷ ns) (obj ms) n = find-set_member k (codes "_padding") _ ms n
field-with_padding k (m ∷ ns) null n = refl
field-with_padding k (m ∷ ns) (bool b) n = refl
field-with_padding k (m ∷ ns) (num t) n = refl
field-with_padding k (m ∷ ns) (str t) n = refl
field-with_padding k (m ∷ ns) (arr xs) n = refl

module _ (marshal : Json → Text) where
  field-pad_on :
      (k : Text) (fuel target : ℕ) (d : Json) (ns : List ℕ)
      → k ≢ codes "_padding"
      → field k (pad_on marshal fuel target d ns) ≡ field k d
  unfolding pad_on
  field-pad_on k zero target d ns n = field-with_padding k ns d n
  field-pad_on k (suc fuel) target d ns n =
      elim (Bool-cases (ltb (length (marshal (with_padding ns d))) target)) [
        | inl b ↦ rw b (
            field-pad_on k fuel target d
              (ns
                ++ next_padding marshal target (length (marshal (with_padding ns d))) (length ns)
                  ∷ [])
              n)
        | inr b ↦ rw b (field-with_padding k ns d n)
      ]

  -- If each entry makes the text longer, the loop ends within as many rounds as the target has bytes: the
  -- padded document has at least the target's size, and a field other than the padding is as it was.
  pub pad_to_size_reaches :
      (d : Json) (target : ℤ) (k : Text)
      → Grows marshal d
      → k ≢ codes "_padding"
      → (count_of target ≤ length (marshal (pad_to_size marshal d target)))
        × (field k (pad_to_size marshal d target) ≡ field k d)
  unfolding pad_to_size with_padding
  pad_to_size_reaches d target k g n = (
    pad_on-reaches marshal (count_of target) (count_of target) d [] g (omega arith),
    field-pad_on k (count_of target) (count_of target) d [] n,
  )
