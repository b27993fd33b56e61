-- ===== src/Verifier.antt =====
-- internal/verifier/verifier.go: the events of an ordinary watcher are counted, and the time from a
-- canary's write to its event is measured. Durations and times are in nanoseconds, a clock does not go
-- back, and the counters stay below 2^63.
pub mod Latencies
pub mod Percentile
pub mod Counted
pub mod Sound
use postgres_controller_back.Base.{
  ℕ, zero, suc, ◌+◌, ◌-◌, ◌*◌, ◌%◌, ◌≡◌, refl, Bool, true, false, not, ◌&&◌, Option, none, some,
  List, [], ◌∷◌, ◌++◌, length, leb, ltb, if◌then◌else◌, Outcome, ok, err,
}
use postgres_controller_back.Base.Int.{ℤ, pos, int_eq}
use postgres_controller_back.Base.Text.{Text, codes, text_eq}
use postgres_controller_back.Json.{bool, obj, member, end}
use postgres_controller_back.Strconv.{format_uint}
use postgres_controller_back.Model.{Resource, WriteRequest, WriteResult}
use postgres_controller_back.Writer.Params.{Draw}
use postgres_controller_back.Writer.Client.{WriteError, World, Link}
use postgres_controller_back.Writer.Multi.{no_fault}
use postgres_controller_back.Writer.Entry.{Writer, write}
use postgres_controller_back.Reader.Poll.{Event}
use postgres_controller_back.Verifier.Latencies.{Ring, empty_ring, record_time, sampled}
use postgres_controller_back.Verifier.Percentile.{p99}

pub record Violation : Type 0 where
  pub invariant : Text
  pub gvk : Text
  pub detail : Text
  pub time : ℕ

pub record Config : Type 0 where
  pub gvk : Text
  pub canary_interval : ℤ
  pub poll_interval : ℤ

pub record Report : Type 0 where
  pub violations : List Violation
  pub events_checked : ℕ
  pub redeliveries : ℕ
  pub canary_writes : ℕ
  pub canary_p99 : ℕ

abbrev pub canary_ring_size : ℕ
canary_ring_size = 1000

-- A map from names to times, as its entries.
abbrev pub Pending : Type 0
Pending = List (Text × ℕ)

pub record Verifier : Type 0 where
  pub config : Config
  pub has_canary : Bool
  pub violations : List Violation
  pub hwm : ℕ
  pub redeliveries : ℕ
  pub events_count : ℕ
  pub canary_count : ℕ
  pub ring : Ring
  pub pending : Pending

abbrev pub interval_or : ℕ → ℤ → ℤ
interval_or d i = if int_eq i (pos 0) then pos d else i

unfoldable pub new : Bool → Config → Verifier
new has_canary c = record {
  config = record c {
    poll_interval = interval_or 500000000 c.poll_interval;
    canary_interval = interval_or 5000000000 c.canary_interval;
  };
  has_canary = has_canary;
  violations = [];
  hwm = 0;
  redeliveries = 0;
  events_count = 0;
  canary_count = 0;
  ring = empty_ring canary_ring_size;
  pending = [];
}

unfoldable pub written_at : Text → Pending → Option ℕ
written_at name [] = none
written_at name ((n, t) ∷ ps) = if text_eq n name then some t else written_at name ps

unfoldable pub forget : Text → Pending → Pending
forget name [] = []
forget name ((n, t) ∷ ps) =
    let rest = forget name ps in if text_eq n name then rest else (n, t) ∷ rest

-- Go's iteration gives some entry of the map first: which one is drawn.
unfoldable pub drop_one : ℕ → Pending → Pending
drop_one i [] = []
drop_one zero (p ∷ ps) = ps
drop_one (suc i) (p ∷ []) = []
drop_one (suc i) (p ∷ q ∷ ps) = p ∷ drop_one i (q ∷ ps)

-- The event of a canary whose write has returned.
unfoldable pub measure_from : ℕ → Text → Option ℕ → Verifier → Verifier
unfolding record_time forget
measure_from now name none v = v
measure_from now name (some t) v = record v {
  ring = record_time canary_ring_size (now - t) v.ring;
  pending = forget name v.pending;
}

abbrev pub verifier_namespace : Text
verifier_namespace = codes "_verifier"

unfoldable pub measure : ℕ → Resource → Verifier → Verifier
unfolding measure_from written_at
measure now r v =
    if text_eq r.namespace verifier_namespace
    then measure_from now r.name (written_at r.name v.pending) v
    else v

unfoldable pub count_event : ℕ → Verifier → Verifier
count_event txid v = record v {
  events_count = suc v.events_count;
  redeliveries = if leb txid v.hwm && ltb 0 v.hwm then suc v.redeliveries else v.redeliveries;
}

unfoldable pub raise_hwm : ℕ → Verifier → Verifier
raise_hwm txid v = record v { hwm = if ltb v.hwm txid then txid else v.hwm }

unfoldable pub check_event : ℕ → Event → Verifier → Verifier
unfolding measure count_event raise_hwm
check_event now e v =
    raise_hwm e.resource.txid_stamp (measure now e.resource (count_event e.resource.txid_stamp v))

unfoldable pub canary_request : Text → ℕ → WriteRequest
canary_request gvk count = record {
  key = record {
    gvk = gvk;
    namespace = verifier_namespace;
    name = codes "_verifier-canary-" ++ format_uint count;
  };
  spec = some (obj (member (codes "canary") (bool true) end));
  status = some (obj end);
  metadata = some (obj end);
  deletion_timestamp = none;
  deletion_nanos = 0;
  expected_version = pos 0;
  force_write = false;
}

-- After a write that succeeded, also one that changed nothing.
unfoldable pub note_canary : ℕ → ℕ → Text → Verifier → Verifier
unfolding drop_one forget
note_canary pick now name v =
    let kept =
      (if leb canary_ring_size (length v.pending)
        then drop_one (pick % canary_ring_size) v.pending
        else v.pending) in
    record v { canary_count = suc v.canary_count; pending = (name, now) ∷ forget name kept }

abbrev pub noted :
    ℕ → ℕ → Text → Verifier → Outcome WriteError WriteResult × World → Verifier × World
noted pick now name v (err e, w) = (v, w)
noted pick now name v (ok r, w) = (note_canary pick now name v, w)

-- `writer.New(v.canaryConn, nil)`
abbrev pub canary_writer : Link → Writer
canary_writer link = record { doorbell = false; hooks = none; link = link; fault = no_fault }

-- `addViolation`, which nothing calls.
unfoldable pub add_violation : Violation → Verifier → Verifier
add_violation x v = record v { violations = v.violations ++ x ∷ [] }

unfoldable pub result : Verifier → Report
unfolding sampled p99
result v = record {
  violations = v.violations;
  events_checked = v.events_count;
  redeliveries = v.redeliveries;
  canary_writes = v.canary_count;
  canary_p99 = p99 (sampled v.ring);
}

module _ (round : Text → Text) where
  unfoldable pub write_canary : Link → Draw → ℕ → ℕ → Verifier → World → Verifier × World
  unfolding note_canary
  write_canary link d pick now v w =
      if v.has_canary
      then (let q = canary_request v.config.gvk v.canary_count in
          noted pick now q.key.name v (write round (canary_writer link) d q w))
      else (v, w)

  -- What `Run` selects next: an event of the watcher, or the ticker, of which the world is the one that
  -- the write finds.
  pub data Wake : Type 0 where
    event : ℕ → Event → Wake
    tick : Link → Draw → ℕ → ℕ → World → Wake

  unfoldable pub turn : Wake → Verifier → Verifier
  unfolding check_event write_canary
  turn (event now e) v = check_event now e v
  turn (tick link d pick now w) v = (write_canary link d pick now v w).0

  unfoldable pub run : List Wake → Verifier → Verifier
  unfolding turn
  run [] v = v
  run (a ∷ ws) v = run ws (turn a v)
