-- ===== src/Reader/Rows/Keyed.antt =====
-- What a key finds in ordered rows.
use postgres_controller_back.Base.{◌≡◌, ◌≢◌, [], ◌∷◌, leb, Bool-cases, inl, inr, sym}
use postgres_controller_back.Model.{Key, Resource}
use postgres_controller_back.Table.{Table, find, Absent, IsKeyed}
use postgres_controller_back.Table.Keyed.{find_same}
use postgres_controller_back.Reader.Rows.{insert_by_stamp, order_by_stamp, In-order, order-In}

Absent-insert :
    (k : Key) (r : Resource) (t : Table) → r.key ≢ k → Absent k t → Absent k (insert_by_stamp r t)
unfolding insert_by_stamp
Absent-insert k r [] n a = (n, tt)
Absent-insert k r (x ∷ t) n (m, a) = elim (Bool-cases (leb r.txid_stamp x.txid_stamp)) [
  | inl b ↦ rw b (n, (m, a))
  | inr b ↦ rw b (m, Absent-insert k r t n a)
]

IsKeyed-insert :
    (r : Resource) (t : Table) → Absent r.key t → IsKeyed t → IsKeyed (insert_by_stamp r t)
unfolding insert_by_stamp
IsKeyed-insert r [] a h = (tt, tt)
IsKeyed-insert r (x ∷ t) (n, a) (b, h) = elim (Bool-cases (leb r.txid_stamp x.txid_stamp)) [
  | inl e ↦ rw e ((n, a), (b, h))
  | inr e ↦ rw e (Absent-insert x.key r t (λ p. n (sym p)) b, IsKeyed-insert r t a h)
]

Absent-order : (k : Key) (t : Table) → Absent k t → Absent k (order_by_stamp t)
unfolding order_by_stamp
Absent-order k [] a = tt
Absent-order k (x ∷ t) (n, a) = Absent-insert k x (order_by_stamp t) n (Absent-order k t a)

pub IsKeyed-order : (t : Table) → IsKeyed t → IsKeyed (order_by_stamp t)
unfolding order_by_stamp
IsKeyed-order [] h = tt
IsKeyed-order (x ∷ t) (a, h) =
    IsKeyed-insert x (order_by_stamp t) (Absent-order x.key t a) (IsKeyed-order t h)

pub find-order : (k : Key) (t : Table) → IsKeyed t → find k (order_by_stamp t) ≡ find k t
find-order k t h =
    find_same k (order_by_stamp t) t (IsKeyed-order t h) h (λ r i. order-In r t i)
      (λ r i. In-order r t i)
