-- ===== src/Reader/Rows.antt =====
-- `ORDER BY txid_stamp` and WHERE, as the reader's queries use them. Rows of one stamp keep the order
-- of the table; the server may give them in any.
pub mod Keyed
use postgres_controller_back.Base.{
  length, suc, ℕ, ◌≡◌, refl, Bool, true, [], ◌∷◌, leb, if◌then◌else◌, In, here, there, keep,
  Bool-cases, inl, inr, ◌⊎◌, arith, All, ◌≤◌, sym, subst, ap, ◌∙◌, leb→le,
}
use postgres_controller_back.Model.{Resource}
use postgres_controller_back.Table.{Table}

unfoldable pub insert_by_stamp : Resource → Table → Table
insert_by_stamp r [] = r ∷ []
insert_by_stamp r (x ∷ t) =
    if leb r.txid_stamp x.txid_stamp then r ∷ x ∷ t else x ∷ insert_by_stamp r t

unfoldable pub order_by_stamp : Table → Table
unfolding insert_by_stamp
order_by_stamp [] = []
order_by_stamp (r ∷ t) = insert_by_stamp r (order_by_stamp t)

In-insert_self : (r : Resource) (t : Table) → In r (insert_by_stamp r t)
unfolding insert_by_stamp
In-insert_self r [] = here refl
In-insert_self r (x ∷ t) = elim (Bool-cases (leb r.txid_stamp x.txid_stamp)) [
  | inl b ↦ rw b (here refl)
  | inr b ↦ rw b (there (In-insert_self r t))
]

In-insert : (r x : Resource) (t : Table) → In x t → In x (insert_by_stamp r t)
unfolding insert_by_stamp
In-insert r x [] i = elim i [ ]
In-insert r x (y ∷ t) i = elim (Bool-cases (leb r.txid_stamp y.txid_stamp)) [
  | inl b ↦ rw b (there i)
  | inr b ↦ rw b (later i (In-insert r x t))
]
  where
    later : In x (y ∷ t) → (In x t → In x (insert_by_stamp r t)) → In x (y ∷ insert_by_stamp r t)
    later (here e) f = here e
    later (there j) f = there (f j)

pub In-order : (x : Resource) (t : Table) → In x t → In x (order_by_stamp t)
unfolding order_by_stamp
In-order x [] i = elim i [ ]
In-order x (y ∷ t) (here e) =
    subst (λ z. In x (insert_by_stamp z (order_by_stamp t))) (sym e)
      (In-insert_self x (order_by_stamp t))
In-order x (y ∷ t) (there i) = In-insert y x (order_by_stamp t) (In-order x t i)

insert-In : (r x : Resource) (t : Table) → In x (insert_by_stamp r t) → (x ≡ r) ⊎ In x t
unfolding insert_by_stamp
insert-In r x [] (here e) = inl (sym e)
insert-In r x [] (there i) = elim i [ ]
insert-In r x (y ∷ t) i = elim (Bool-cases (leb r.txid_stamp y.txid_stamp)) [
  | inl b ↦ first (rw b at i)
  | inr b ↦ second (insert-In r x t) (rw b at i)
]
  where
    first : In x (r ∷ y ∷ t) → (x ≡ r) ⊎ In x (y ∷ t)
    first (here e) = inl (sym e)
    first (there j) = inr j

    later : (x ≡ r) ⊎ In x t → (x ≡ r) ⊎ In x (y ∷ t)
    later (inl e) = inl e
    later (inr j) = inr (there j)

    second :
        (In x (insert_by_stamp r t) → (x ≡ r) ⊎ In x t)
        → In x (y ∷ insert_by_stamp r t)
        → (x ≡ r) ⊎ In x (y ∷ t)
    second f (here e) = inr (here e)
    second f (there j) = later (f j)

pub order-In : (x : Resource) (t : Table) → In x (order_by_stamp t) → In x t
unfolding order_by_stamp
order-In x [] i = i
order-In x (y ∷ t) i = pick (order-In x t) (insert-In y x (order_by_stamp t) i)
  where
    pick : (In x (order_by_stamp t) → In x t) → (x ≡ y) ⊎ In x (order_by_stamp t) → In x (y ∷ t)
    pick f (inl e) = here (sym e)
    pick f (inr j) = there (f j)

-- No row stands before one with a lower stamp.
abbrev pub IsOrdered : Table → Type 0
IsOrdered [] = Unit
IsOrdered (r ∷ t) = All (λ x. r.txid_stamp ≤ x.txid_stamp) t × IsOrdered t

All-insert :
    (n : ℕ) (r : Resource) (t : Table)
    → n ≤ r.txid_stamp
    → All (λ x. n ≤ x.txid_stamp) t
    → All (λ x. n ≤ x.txid_stamp) (insert_by_stamp r t)
unfolding insert_by_stamp
All-insert n r [] h a = (h, tt)
All-insert n r (x ∷ t) h (hx, a) = elim (Bool-cases (leb r.txid_stamp x.txid_stamp)) [
  | inl b ↦ rw b (h, (hx, a))
  | inr b ↦ rw b (hx, All-insert n r t h a)
]

All-raise :
    (m n : ℕ) (t : Table) → m ≤ n → All (λ x. n ≤ x.txid_stamp) t → All (λ x. m ≤ x.txid_stamp) t
All-raise m n [] h a = tt
All-raise m n (x ∷ t) h (hx, a) = (omega arith, All-raise m n t h a)

insert-IsOrdered : (r : Resource) (t : Table) → IsOrdered t → IsOrdered (insert_by_stamp r t)
unfolding insert_by_stamp
insert-IsOrdered r [] h = (tt, tt)
insert-IsOrdered r (x ∷ t) (a, h) = elim (Bool-cases (leb r.txid_stamp x.txid_stamp)) [
  | inl b ↦ rw b ((leb→le _ _ b, All-raise r.txid_stamp x.txid_stamp t (leb→le _ _ b) a), (a, h))
  | inr b ↦ rw b (All-insert x.txid_stamp r t (ground arith) a, insert-IsOrdered r t h)
]

pub order-IsOrdered : (t : Table) → IsOrdered (order_by_stamp t)
unfolding order_by_stamp
order-IsOrdered [] = tt
order-IsOrdered (r ∷ t) = insert-IsOrdered r (order_by_stamp t) (order-IsOrdered t)

module _ (p : Resource → Bool) where
  pub In-keep : (x : Resource) (t : Table) → In x t → p x ≡ true → In x (keep p t)
  In-keep x [] i b = elim i [ ]
  In-keep x (y ∷ t) (here e) b = rw (ap p e ∙ b) (here e)
  In-keep x (y ∷ t) (there i) b = elim (Bool-cases (p y)) [
    | inl c ↦ rw c (there (In-keep x t i b))
    | inr c ↦ rw c (In-keep x t i b)
  ]

  pub keep-In : (x : Resource) (t : Table) → In x (keep p t) → In x t × (p x ≡ true)
  keep-In x [] i = elim i [ ]
  keep-In x (y ∷ t) i = elim (Bool-cases (p y)) [
    | inl c ↦ first c (keep-In x t) (rw c at i)
    | inr c ↦ let (j, b) = keep-In x t (rw c at i) in (there j, b)
  ]
    where
      first :
          p y ≡ true
          → (In x (keep p t) → In x t × (p x ≡ true))
          → In x (y ∷ keep p t)
          → In x (y ∷ t) × (p x ≡ true)
      first c f (here e) = (here e, ap p (sym e) ∙ c)
      first c f (there j) = let (k, b) = f j in (there k, b)

length-insert : (r : Resource) (t : Table) → length (insert_by_stamp r t) ≡ suc (length t)
unfolding insert_by_stamp
length-insert r [] = refl
length-insert r (x ∷ t) = ground (arith, length-insert r t)

pub length-order : (t : Table) → length (order_by_stamp t) ≡ length t
unfolding order_by_stamp
length-order [] = refl
length-order (r ∷ t) = length-insert r (order_by_stamp t) ∙ ap suc (length-order t)
