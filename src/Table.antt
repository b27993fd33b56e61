-- ===== src/Table.antt =====
-- The table `kubernetes_resources` as the list of its rows. The primary key makes a row's key its
-- address: `put` replaces the row of that key, or adds it.
pub mod Keyed
use postgres_controller_back.Base.{
  ◌≡◌, ◌≢◌, refl, Option, none, some, List, [], ◌∷◌, arith, if◌then◌else◌, In, here, there, All,
  Bool-cases, inl, inr, ap, subst, All-In, sym, ◌⊎◌,
}
use postgres_controller_back.Model.{Key, Resource, key_eq, key_eq_iff}

abbrev pub Table : Type 0
Table = List Resource

unfoldable pub find : Key → Table → Option Resource
find k [] = none
find k (r ∷ t) = if key_eq r.key k then some r else find k t

unfoldable pub put : Resource → Table → Table
put r [] = r ∷ []
put r (x ∷ t) = if key_eq x.key r.key then r ∷ t else x ∷ put r t

pub find-put :
    (k : Key) (r : Resource) (t : Table)
    → find k (put r t) ≡ (if key_eq r.key k then some r else find k t)
unfolding find put
find-put k r [] = refl
find-put k r (x ∷ t) =
    ground (arith, find-put k r t, key_eq_iff x.key r.key, key_eq_iff x.key k, key_eq_iff r.key k)

pub find-put_self : (r : Resource) (t : Table) → find r.key (put r t) ≡ some r
find-put_self r t = ground (arith, find-put r.key r t, key_eq_iff r.key r.key)

-- What `find` returns stands under its key and in the table.
pub key-find : (k : Key) (t : Table) {r : Resource} → find k t ≡ some r → r.key ≡ k
unfolding find
key-find k [] h = cc
key-find k (x ∷ t) {r} h = ground (arith, key-find k t {r = r}, key_eq_iff x.key k)

-- No key stands twice.
abbrev pub Absent : Key → Table → Type 0
Absent k = All (λ x. x.key ≢ k)

abbrev pub IsKeyed : Table → Type 0
IsKeyed [] = Unit
IsKeyed (r ∷ t) = Absent r.key t × IsKeyed t

Absent-put : (k : Key) (r : Resource) (t : Table) → r.key ≢ k → Absent k t → Absent k (put r t)
unfolding put
Absent-put k r [] n a = (n, tt)
Absent-put k r (x ∷ t) n a = elim (Bool-cases (key_eq x.key r.key)) [
  | inl e ↦ rw e (n, a.1)
  | inr e ↦ rw e (a.0, Absent-put k r t n a.1)
]

pub IsKeyed-put : (r : Resource) (t : Table) → IsKeyed t → IsKeyed (put r t)
unfolding put
IsKeyed-put r [] h = (tt, tt)
IsKeyed-put r (x ∷ t) (a, h) = elim (Bool-cases (key_eq x.key r.key)) [
  | inl e ↦ rw e (subst (λ k. Absent k t) ((key_eq_iff x.key r.key).0 e) a, h)
  | inr e ↦ rw e (
    Absent-put x.key r t (λ p. ground (arith, key_eq_iff x.key r.key, ap (λ (k : Key). k) p)) a,
    IsKeyed-put r t h,
  )
]

pub All-put {ℓ} :
    (P : Resource → Type ℓ) (r : Resource) (t : Table) → P r → All P t → All P (put r t)
unfolding put
All-put P r [] p h = (p, tt)
All-put P r (x ∷ t) p (px, h) = elim (Bool-cases (key_eq x.key r.key)) [
  | inl e ↦ rw e (p, h)
  | inr e ↦ rw e (px, All-put P r t p h)
]

pub All-find {ℓ} :
    (P : Resource → Type ℓ) (k : Key) (t : Table) {r : Resource} → All P t → find k t ≡ some r → P r
unfolding find
All-find P k [] h e = cc
All-find P k (x ∷ t) {r} (px, h) e = elim (Bool-cases (key_eq x.key k)) [
  | inl b ↦ subst P (ground arith) px
  | inr b ↦ All-find P k t h (ground arith)
]

-- A row of the table is what its key finds, where no key stands twice.
pub In-find : (r : Resource) (t : Table) → IsKeyed t → In r t → find r.key t ≡ some r
unfolding find
In-find r [] h i = elim i [ ]
In-find r (x ∷ t) (a, h) (here e) =
    ground (arith, e, key_eq_iff x.key r.key, ap (λ (y : Resource). y.key) e)
In-find r (x ∷ t) (a, h) (there i) = elim (Bool-cases (key_eq x.key r.key)) [
  | inl b ↦ absurd (All-In (λ y. y.key ≢ x.key) t a i (sym ((key_eq_iff x.key r.key).0 b)))
  | inr b ↦ rw b (In-find r t h i)
]

pub find-In : (k : Key) (t : Table) {r : Resource} → find k t ≡ some r → In r t
unfolding find
find-In k [] e = cc
find-In k (x ∷ t) {r} e = elim (Bool-cases (key_eq x.key k)) [
  | inl b ↦ here (ground arith)
  | inr b ↦ there (find-In k t (ground arith))
]

-- What stands in the table after `put` was put, or stood there under another key.
pub In-put : (r x : Resource) (t : Table) → In x (put r t) → (x ≡ r) ⊎ In x t
unfolding put
In-put r x [] (here e) = inl (sym e)
In-put r x [] (there i) = elim i [ ]
In-put r x (y ∷ t) i = elim (Bool-cases (key_eq y.key r.key)) [
  | inl b ↦ go (rw b at i)
  | inr b ↦ stay (In-put r x t) (rw b at i)
]
  where
    go : In x (r ∷ t) → (x ≡ r) ⊎ In x (y ∷ t)
    go (here e) = inl (sym e)
    go (there j) = inr (there j)

    later : (x ≡ r) ⊎ In x t → (x ≡ r) ⊎ In x (y ∷ t)
    later (inl e) = inl e
    later (inr j) = inr (there j)

    stay : (In x (put r t) → (x ≡ r) ⊎ In x t) → In x (y ∷ put r t) → (x ≡ r) ⊎ In x (y ∷ t)
    stay f (here e) = inr (here e)
    stay f (there j) = later (f j)
