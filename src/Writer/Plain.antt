-- ===== src/Writer/Plain.antt =====
-- A writer without hooks and doorbell, as `writer.New(conn, nil)` of internal/writer/writer.go makes it.
use postgres_controller_back.Base.{
  ◌≡◌, refl, sym, ap, ◌∙◌, true, false, none, if◌then◌else◌, Outcome, ok, err, Bool-cases, inl, inr,
}
use postgres_controller_back.Base.Text.{Text}
use postgres_controller_back.Model.{WriteRequest, WriteResult}
use postgres_controller_back.Table.{Table}
use postgres_controller_back.Writer.Params.{WriteParams, Draw, PgError, Reply}
use postgres_controller_back.Writer.Proc.{pgctl_write}
use postgres_controller_back.Writer.Client.{
  WriteError, World, Link, up, refused, lost, landed, call_stored_proc, report, ring,
  map_stored_proc_error,
}
use postgres_controller_back.Writer.Multi.{no_fault, write_params}
use postgres_controller_back.Writer.Entry.{Writer, write, run}

abbrev pub plain_writer : Link → Writer
plain_writer link = record { doorbell = false; hooks = none; link = link; fault = no_fault }

-- What the writer makes of the procedure's answer, without a doorbell.
abbrev pub answered :
    Outcome PgError (Reply × Table) → World → Outcome WriteError WriteResult × World
answered (ok (reply, t)) w = (
  ok (
      if reply.changed
      then record {
        txid = reply.txid;
        object_version = reply.version;
        uid = reply.uid;
        changed = true;
      }
      else record { txid = 0; object_version = reply.version; uid = reply.uid; changed = false }),
  record w { table = t },
)
answered (err e) w = (err (map_stored_proc_error e), w)

report-answered :
    (p : WriteParams) (reply : Reply) (t : Table) (w : World)
    → report false p (reply, t) w ≡ answered (ok (reply, t)) w
unfolding report ring
report-answered p reply t w = elim (Bool-cases reply.changed) [
  | inl b ↦ rw b refl
  | inr b ↦ rw b refl
]

-- One write without hooks and doorbell is one call of the procedure.
pub write-pgctl_write :
    (round : Text → Text) (d : Draw) (q : WriteRequest) (w : World)
    → write round (plain_writer up) d q w ≡ answered (pgctl_write d (write_params q) w.table) w
unfolding write run call_stored_proc
write-pgctl_write round d q w = go (pgctl_write d (write_params q) w.table)
  where
    go :
        (x : Outcome PgError (Reply × Table))
        → (elim x [
          | ok answer ↦ report false (write_params q) answer w
          | err e ↦ (err (map_stored_proc_error e), w)
        ])
          ≡ answered x w
    go (ok (reply, t)) = report-answered (write_params q) reply t w
    go (err x) = refl

lost_fails :
    {A : Type 0} (round : Text → Text) (d : Draw) (q : WriteRequest) (w : World) {r : WriteResult}
    {w' : World}
    → write round (plain_writer lost) d q w ≡ (ok r, w')
    → A
unfolding write run call_stored_proc
lost_fails round d q w h = cc

landed_fails :
    {A : Type 0} (round : Text → Text) (d : Draw) (q : WriteRequest) (w : World) {r : WriteResult}
    {w' : World}
    → write round (plain_writer landed) d q w ≡ (ok r, w')
    → A
unfolding write run call_stored_proc
landed_fails round d q w h = cc

refused_fails :
    {A : Type 0} (round : Text → Text) (d : Draw) (q : WriteRequest) (w : World) {r : WriteResult}
    {w' : World}
    → write round (plain_writer refused) d q w ≡ (ok r, w')
    → A
unfolding write run call_stored_proc
refused_fails round d q w h = cc

-- A plain write that succeeds is a call of the procedure that succeeds.
pub plain_write-ok :
    (round : Text → Text) (l : Link) (d : Draw) (q : WriteRequest) (w w' : World) {r : WriteResult}
    → write round (plain_writer l) d q w ≡ (ok r, w')
    → (reply : Reply) × (pgctl_write d (write_params q) w.table ≡ ok (reply, w'.table))
plain_write-ok round up d q w w' {r} h =
    go (pgctl_write d (write_params q) w.table) refl (sym (write-pgctl_write round d q w) ∙ h)
  where
    go :
        (x : Outcome PgError (Reply × Table))
        → pgctl_write d (write_params q) w.table ≡ x
        → answered x w ≡ (ok r, w')
        → (reply : Reply) × (pgctl_write d (write_params q) w.table ≡ ok (reply, w'.table))
    go (ok (reply, t)) e a = (
      reply,
      e
          ∙ ap (λ u. ok (reply, u))
              (ap (λ (z : Outcome WriteError WriteResult × World). z.1.table) a),
    )
    go (err x) e a = cc
plain_write-ok round refused d q w w' h = refused_fails round d q w h
plain_write-ok round lost d q w w' h = lost_fails round d q w h
plain_write-ok round landed d q w w' h = landed_fails round d q w h
