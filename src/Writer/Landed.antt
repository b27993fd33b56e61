-- ===== src/Writer/Landed.antt =====
-- What stands under the key once `pgctl_write` has answered, suppressed or not.
use postgres_controller_back.Base.{
  ◌≡◌, refl, inl, inr, true, false, Option, none, some, arith, ok, ap, sym, ◌∙◌, Bool-cases, subst,
}
use postgres_controller_back.Base.Int.{pos, int_eq, int_eq_iff}
use postgres_controller_back.Json.{Json, json_eq_iff, sql_eq}
use postgres_controller_back.Model.{Resource, time_eq_iff}
use postgres_controller_back.Table.{Table, find}
use postgres_controller_back.Writer.Params.{WriteParams, Draw, Reply}
use postgres_controller_back.Writer.Proc.{
  suppresses, suppressed_by, suppression, upsert, require, pgctl_write,
}
use postgres_controller_back.Writer.Upserts.{pgctl_write-ok}
use postgres_controller_back.Writer.Occ.{found_after}
use postgres_controller_back.Writer.Retry.{Holds, create-Holds, update-Holds}

-- A row with the content of the call, and with the version and the uid of the reply.
pub record Landed (p : WriteParams) (t : Table) (reply : Reply) : Type 0 where
  pub row : Resource
  pub found : find p.key t ≡ some row
  pub holds : Holds p row
  pub version : reply.version ≡ row.object_version
  pub uid : reply.uid ≡ row.uid

require-sql_eq : (a : Json) (o : Option Json) → sql_eq a o ≡ true → require o ≡ ok a
unfolding sql_eq
require-sql_eq a none h = absurd (cc)
require-sql_eq a (some b) h = ap ok (sym ((json_eq_iff a b).0 h))

suppresses-Holds :
    (p : WriteParams) (r : Resource) → p.status_only ≡ false → suppresses p r ≡ true → Holds p r
unfolding suppresses
suppresses-Holds p r b h = record {
  spec = require-sql_eq r.spec p.spec (ground arith);
  metadata = require-sql_eq r.metadata p.metadata (ground arith);
  status = ground arith;
  deletion = (time_eq_iff r.deletion_timestamp p.deletion_timestamp).0 (ground arith);
}

suppression_found :
    (p : WriteParams) (t : Table) {r : Resource}
    → suppression p t ≡ some r
    → (find p.key t ≡ some r) × (suppresses p r ≡ true)
unfolding suppression suppressed_by
suppression_found p t {r} h = go (find p.key t) refl
  where
    go :
        (o : Option Resource) → find p.key t ≡ o → (find p.key t ≡ some r) × (suppresses p r ≡ true)
    go none f = ground arith
    go (some x) f =
        let e : x ≡ r = ground (arith, f) in
        let q : suppresses p x ≡ true = ground (arith, f) in
        (f ∙ ap some e, subst (λ y. suppresses p y ≡ true) e q)

upsert-Holds :
    (d : Draw) (p : WriteParams) (old : Option Resource) {r : Resource}
    → p.status_only ≡ false
    → (p.expected_version ≡ pos 0 → p.deletion_timestamp ≡ none)
    → upsert d p old ≡ ok r
    → Holds p r
upsert-Holds d p old b n h = elim (Bool-cases (int_eq p.expected_version (pos 0))) [
  | inl z ↦ create-Holds d p old (n ((int_eq_iff _ _).0 z)) (unfold upsert in ground arith)
  | inr z ↦ update-Holds d p old (unfold upsert in ground arith)
]

-- After a full write or an object write that succeeded, a row with the content of the call stands under
-- its key, with the version and the uid of the reply; a create must carry no deletion timestamp.
pub pgctl_write-Landed :
    (d : Draw) (p : WriteParams) (t : Table) (reply : Reply) (t' : Table)
    → p.status_only ≡ false
    → (p.expected_version ≡ pos 0 → p.deletion_timestamp ≡ none)
    → pgctl_write d p t ≡ ok (reply, t')
    → Landed p t' reply
pgctl_write-Landed d p t reply t' b n h = elim (pgctl_write-ok d p t reply t' h) [
  | inl s ↦
      let (f, q) = suppression_found p t s.by in
      record {
        row = s.row;
        found = rw s.kept f;
        holds = suppresses-Holds p s.row b q;
        version = ap (λ (x : Reply). x.version) s.replied;
        uid = ap (λ (x : Reply). x.uid) s.replied;
      }
  | inr u ↦ record {
    row = u.row;
    found = found_after d p t u;
    holds = upsert-Holds d p (find p.key t) b n u.by;
    version = ap (λ (x : Reply). x.version) u.replied;
    uid = ap (λ (x : Reply). x.uid) u.replied;
  }
]
