-- ===== src/Writer/Entry.antt =====
-- `Write`, `WriteStatus` and `WriteObject` of internal/writer/writer.go: the guards, and the choice of
-- the path.
use postgres_controller_back.Base.{Bool, Option, none, some, if◌then◌else◌, Outcome, err}
use postgres_controller_back.Base.Int.{pos, int_eq}
use postgres_controller_back.Base.Text.{Text}
use postgres_controller_back.Model.{
  WriteRequest, StatusWriteRequest, ObjectWriteRequest, WriteResult,
}
use postgres_controller_back.Writer.Params.{WriteParams, Draw}
use postgres_controller_back.Writer.Client.{
  WriteError, err_version_required, World, Link, call_stored_proc,
}
use postgres_controller_back.Writer.Multi.{
  TxHooks, Fault, Upsert, exec_write, write_params, status_params, object_params, write_upsert,
  status_upsert, object_upsert,
}

-- A writer, and how the connection behaves during one of its calls.
pub record Writer : Type 0 where
  pub doorbell : Bool
  pub hooks : Option TxHooks
  pub link : Link
  pub fault : Fault

-- Production has no hooks.
unfoldable pub run :
    Writer → Draw → WriteParams → Upsert → World → Outcome WriteError WriteResult × World
run c d p u w = elim c.hooks [
  | none ↦ call_stored_proc c.doorbell c.link d p w
  | some h ↦ exec_write c.doorbell h c.fault d u w
]

module _ (round : Text → Text) where
  unfoldable pub write :
      Writer → Draw → WriteRequest → World → Outcome WriteError WriteResult × World
  write c d q w = run c d (write_params q) (write_upsert round q) w

  unfoldable pub write_status :
      Writer → Draw → StatusWriteRequest → World → Outcome WriteError WriteResult × World
  write_status c d q w =
      if int_eq q.expected_version (pos 0)
      then (err err_version_required, w)
      else run c d (status_params q) (status_upsert round q) w

  unfoldable pub write_object :
      Writer → Draw → ObjectWriteRequest → World → Outcome WriteError WriteResult × World
  write_object c d q w =
      if int_eq q.expected_version (pos 0)
      then (err err_version_required, w)
      else run c d (object_params q) (object_upsert round q) w
