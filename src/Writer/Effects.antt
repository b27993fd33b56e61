-- ===== src/Writer/Effects.antt =====
-- What a write leaves behind on each outcome: the table and the doorbells.
use postgres_controller_back.Base.{
  ◌≡◌, ◌≢◌, refl, Bool, true, false, Option, none, some, [], ◌∷◌, ◌++◌, arith, Outcome, ok, err,
  if◌then◌else◌,
}
use postgres_controller_back.Base.Text.{Text}
use postgres_controller_back.Model.{Resource, WriteRequest, WriteResult}
use postgres_controller_back.Table.{find}
use postgres_controller_back.Writer.Params.{WriteParams, PgError, Draw}
use postgres_controller_back.Writer.Proc.{suppression, upsert, pgctl_write}
use postgres_controller_back.Writer.Client.{
  Statement, Stage, WriteError, err_ambiguous, err_stage, World, Link, up, refused, lost, landed,
  call_stored_proc, AmbiguousCommit,
}
use postgres_controller_back.Writer.Multi.{
  TxHooks, Fault, at_begin, at_txid, commit_lost, commit_landed, Upsert, exec_write, write_row,
  finish_row, upsert_row, failed_at, branch_row, commit, check_row, commit_noop, commits, reads,
  content_equal, write_params, write_upsert,
}
use postgres_controller_back.Writer.Entry.{Writer, write, run}

-- The errors after which nothing is in doubt.
abbrev pub IsDefinite : WriteError → Type 0
IsDefinite e = (a : AmbiguousCommit) → e ≢ err_ambiguous a

-- What the caller may conclude from an answer.
pub record Accounted (doorbell : Bool) (gvk : Text) (w : World)
    (answer : Outcome WriteError WriteResult × World) : Type 0 where
  pub on_error : (e : WriteError) → answer.0 ≡ err e → IsDefinite e → answer.1 ≡ w
  pub on_noop : (r : WriteResult) → answer.0 ≡ ok r → r.changed ≡ false → answer.1 ≡ w
  pub on_change :
      (r : WriteResult)
      → answer.0 ≡ ok r
      → r.changed ≡ true
      → answer.1.rung ≡ (if doorbell then w.rung ++ gvk ∷ [] else w.rung)

module _ (doorbell : Bool) (d : Draw) (p : WriteParams) (w : World) where
  proc_up :
      (s : Option Resource)
      → suppression p w.table ≡ s
      → (o : Outcome PgError Resource) → upsert d p (find p.key w.table) ≡ o
      → Accounted doorbell p.key.gvk w (call_stored_proc doorbell up d p w)
  unfolding call_stored_proc pgctl_write
  proc_up (some r) e o f = record {
    on_error = λ x g n. ground arith;
    on_noop = λ x g n. ground arith;
    on_change = λ x g n. ground arith;
  }
  proc_up none e o f = record {
    on_error = λ x g n. ground arith;
    on_noop = λ x g n. ground arith;
    on_change = λ x g n. ground arith;
  }

  proc-Accounted : (l : Link) → Accounted doorbell p.key.gvk w (call_stored_proc doorbell l d p w)
  unfolding call_stored_proc
  proc-Accounted up = proc_up (suppression p w.table) refl (upsert d p (find p.key w.table)) refl
  proc-Accounted refused = record {
    on_error = λ x g n. refl;
    on_noop = λ x g n. refl;
    on_change = λ x g n. cc;
  }
  proc-Accounted lost = record {
    on_error = λ x g n. absurd (n (record { key = p.key; txid = 0 }) (ground arith));
    on_noop = λ x g n. ground arith;
    on_change = λ x g n. ground arith;
  }
  proc-Accounted landed = record {
    on_error = λ x g n. absurd (n (record { key = p.key; txid = 0 }) (ground arith));
    on_noop = λ x g n. ground arith;
    on_change = λ x g n. ground arith;
  }

module _ (doorbell : Bool) (h : TxHooks) (d : Draw) (u : Upsert) (w : World) where
  commit-Accounted :
      (f : Fault) (r : Resource) → Accounted doorbell u.key.gvk w (commit doorbell f d u.key r w)
  unfolding commit
  commit-Accounted commit_lost r = record {
    on_error = λ x g n. absurd (n (record { key = u.key; txid = d.txid }) (ground arith));
    on_noop = λ x g n. ground arith;
    on_change = λ x g n. ground arith;
  }
  commit-Accounted commit_landed r = record {
    on_error = λ x g n. absurd (n (record { key = u.key; txid = d.txid }) (ground arith));
    on_noop = λ x g n. ground arith;
    on_change = λ x g n. ground arith;
  }
  commit-Accounted _ r = record {
    on_error = λ x g n. ground arith;
    on_noop = λ x g n. ground arith;
    on_change = λ x g n. ground arith;
  }

  error-Accounted : (e : WriteError) → Accounted doorbell u.key.gvk w (err e, w)
  error-Accounted e = record {
    on_error = λ x g n. refl;
    on_noop = λ x g n. refl;
    on_change = λ x g n. cc;
  }

  if_Accounted :
      (b : Bool) {x y : Outcome WriteError WriteResult × World}
      → Accounted doorbell u.key.gvk w x
      → Accounted doorbell u.key.gvk w y
      → Accounted doorbell u.key.gvk w (if b then x else y)
  if_Accounted true p q = p
  if_Accounted false p q = q

  finish-Accounted :
      (f : Fault) (o : Outcome PgError Resource)
      → Accounted doorbell u.key.gvk w (finish_row doorbell h f d u w o)
  unfolding finish_row
  finish-Accounted f (err e) = error-Accounted _
  finish-Accounted f (ok r) =
      if_Accounted h.before_commit (error-Accounted _) (commit-Accounted f r)

  upsert_row-Accounted :
      (f : Fault) (s : Option Statement)
      → Accounted doorbell u.key.gvk w (upsert_row doorbell h f d u w s)
  unfolding upsert_row
  upsert_row-Accounted f (some s) = error-Accounted _
  upsert_row-Accounted f none = finish-Accounted f (u.stored d (find u.key w.table))

  row-Accounted : (f : Fault) → Accounted doorbell u.key.gvk w (write_row doorbell h f d u w)
  unfolding write_row
  row-Accounted at_txid = error-Accounted _
  row-Accounted f =
      if_Accounted (h.after_txid_acquire d.txid) (error-Accounted _)
        (upsert_row-Accounted f (failed_at f (u.statements (find u.key w.table))))

  noop_answer :
      (r : Resource)
      → Accounted doorbell u.key.gvk w (
        ok (record { txid = 0; object_version = r.object_version; uid = r.uid; changed = false }),
        w,
      )
  noop_answer r = record {
    on_error = λ x g n. refl;
    on_noop = λ x g n. refl;
    on_change = λ x g n. ground arith;
  }

  noop-Accounted : (f : Fault) (r : Resource) → Accounted doorbell u.key.gvk w (commit_noop f r w)
  unfolding commit_noop
  noop-Accounted f r =
      if_Accounted (commits f) (noop_answer r) (error-Accounted (err_stage Stage.commit_suppressed))

  branch-Accounted :
      (f : Fault) (o : Option Resource)
      → Accounted doorbell u.key.gvk w (branch_row doorbell h f d u w o)
  unfolding branch_row
  branch-Accounted f (some r) = if_Accounted _ (error-Accounted _) (noop-Accounted f r)
  branch-Accounted f none = if_Accounted _ (error-Accounted _) (row-Accounted f)

  exec-Accounted : (f : Fault) → Accounted doorbell u.key.gvk w (exec_write doorbell h f d u w)
  unfolding exec_write check_row
  exec-Accounted at_begin = error-Accounted _
  exec-Accounted f = if_Accounted u.force_write (branch-Accounted f none) (
      if_Accounted (reads f) (branch-Accounted f (content_equal u (find u.key w.table)))
        (error-Accounted (err_stage Stage.read_existing)))

-- After `Write`, on either path and whatever fails: an error that leaves nothing in doubt has changed
-- neither the table nor the doorbells, nor has a suppressed write; a write that is answered as changed
-- has rung the doorbell of its GVK once, if the writer has one.
pub write-Accounted :
    (round : Text → Text) (c : Writer) (d : Draw) (q : WriteRequest) (w : World)
    → Accounted c.doorbell q.key.gvk w (write round c d q w)
unfolding write run
write-Accounted round c d q w = go c.hooks
  where
    go :
        (h : Option TxHooks)
        → Accounted c.doorbell q.key.gvk w (elim h [
          | none ↦ call_stored_proc c.doorbell c.link d (write_params q) w
          | some x ↦ exec_write c.doorbell x c.fault d (write_upsert round q) w
        ])
    go none = proc-Accounted c.doorbell d (write_params q) w c.link
    go (some x) =
        unfold write_upsert in exec-Accounted c.doorbell x d (write_upsert round q) w c.fault
