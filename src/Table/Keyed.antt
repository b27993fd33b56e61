-- ===== src/Table/Keyed.antt =====
-- What a key finds after rows were filtered, and in two lists of the same rows.
use postgres_controller_back.Base.{
  ◌≡◌, refl, Bool, Option, none, some, [], ◌∷◌, if◌then◌else◌, In, Bool-cases, inl, inr, keep, sym,
  ◌∙◌,
}
use postgres_controller_back.Model.{Key, Resource, key_eq, key_eq_iff}
use postgres_controller_back.Table.{Table, find, find-In, In-find, key-find, Absent, IsKeyed}

-- A row, if it passes a test.
abbrev pub passing : (Resource → Bool) → Option Resource → Option Resource
passing p none = none
passing p (some r) = if p r then some r else none

pub find-Absent : (k : Key) (t : Table) → Absent k t → find k t ≡ none
unfolding find
find-Absent k [] a = refl
find-Absent k (x ∷ t) (n, a) = elim (Bool-cases (key_eq x.key k)) [
  | inl b ↦ absurd (n ((key_eq_iff x.key k).0 b))
  | inr b ↦ rw b (find-Absent k t a)
]

module _ (p : Resource → Bool) where
  Absent-keep : (k : Key) (t : Table) → Absent k t → Absent k (keep p t)
  Absent-keep k [] a = tt
  Absent-keep k (x ∷ t) (n, a) = elim (Bool-cases (p x)) [
    | inl b ↦ rw b (n, Absent-keep k t a)
    | inr b ↦ rw b (Absent-keep k t a)
  ]

  pub IsKeyed-keep : (t : Table) → IsKeyed t → IsKeyed (keep p t)
  IsKeyed-keep [] h = tt
  IsKeyed-keep (x ∷ t) (a, h) = elim (Bool-cases (p x)) [
    | inl b ↦ rw b (Absent-keep x.key t a, IsKeyed-keep t h)
    | inr b ↦ rw b (IsKeyed-keep t h)
  ]

  -- A filter keeps what a key finds, if it passes.
  pub find-keep : (k : Key) (t : Table) → IsKeyed t → find k (keep p t) ≡ passing p (find k t)
  unfolding find
  find-keep k [] h = refl
  find-keep k (x ∷ t) (a, h) = elim (Bool-cases (key_eq x.key k)) [
    | inl e ↦ elim (Bool-cases (p x)) [
      | inl b ↦ rw (e, b) (rw e)
      | inr b ↦ rw (e, b) (find-Absent k (keep p t) (moved ((key_eq_iff x.key k).0 e)))
    ]
    | inr e ↦ elim (Bool-cases (p x)) [
      | inl b ↦ rw (e, b) (rw e (find-keep k t h))
      | inr b ↦ rw (e, b) (find-keep k t h)
    ]
  ]
    where
      moved : x.key ≡ k → Absent k (keep p t)
      moved e = rw (← e) (Absent-keep x.key t a)

-- Two keyed lists of the same rows answer alike.
pub find_same :
    (k : Key) (s t : Table)
    → IsKeyed s
    → IsKeyed t
    → ((r : Resource) → In r s → In r t)
    → ((r : Resource) → In r t → In r s)
    → find k s ≡ find k t
find_same k s t hs ht into from = go (find k s) (find k t) refl refl
  where
    hit :
        (u v : Table)
        → IsKeyed v
        → ((r : Resource) → In r u → In r v)
        → (r : Resource) → find k u ≡ some r
        → find k v ≡ some r
    hit u v hv f r e = rw (← (key-find k u e)) (In-find r v hv (f r (find-In k u e)))

    go : (o o' : Option Resource) → find k s ≡ o → find k t ≡ o' → find k s ≡ find k t
    go none none e e' = e ∙ sym e'
    go (some r) o' e e' = e ∙ sym (hit s t ht into r e)
    go none (some r) e e' = hit t s hs from r e' ∙ sym e'
