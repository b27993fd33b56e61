-- ===== src/Reader/Run.antt =====
-- `Run` of internal/reader/watcher.go: the loop that polls when a doorbell rings, though not more often
-- than the debounce floor allows, and when its timer fires. A run is the sequence of what wakes it.
-- Times are on Go's monotonic clock; the end of a poll and the reset of the timer after it count as
-- one instant.
pub mod Spacing
use postgres_controller_back.Base.{
  ℕ, ◌+◌, ◌-◌, Bool, true, false, ◌&&◌, Option, none, some, List, [], ◌∷◌, ◌++◌, length, leb, ltb,
  ◌==◌, if◌then◌else◌, Outcome, ok, err,
}
use postgres_controller_back.Base.Int.{ℤ}
use postgres_controller_back.Base.Text.{Text}
use postgres_controller_back.Table.{Table}
use postgres_controller_back.Reader.Poll.{Event, PollError, PollFault, WatcherConfig}
use postgres_controller_back.Reader.Send.{Sending, Sent, poll}

-- What a poll meets: the database, the statement at which it fails, if it does, and what becomes of its
-- sends.
pub record Snapshot : Type 0 where
  pub xmin : ℕ
  pub compacted : Option ℕ
  pub table : Table
  pub fault : PollFault
  pub sending : Sending

-- WatcherConfig's intervals, and whether it has a connection for doorbells or a way to make one.
pub record Timing : Type 0 where
  pub baseline : ℕ
  pub debounce_floor : ℕ
  pub listens : Bool

-- The defaults of `NewWatcher`, in milliseconds.
unfoldable pub with_defaults : Timing → Timing
with_defaults t = record t {
  baseline = if t.baseline == 0 then 5000 else t.baseline;
  debounce_floor = if t.debounce_floor == 0 then 100 else t.debounce_floor;
}

-- The counters of `WatchStats` that the loop keeps.
pub record WatchStats : Type 0 where
  pub doorbell_polls : ℕ
  pub baseline_polls : ℕ
  pub baseline_catches : ℕ

-- The watcher and the loop's variables; `deadline` is when the timer fires.
pub record Loop : Type 0 where
  pub hwm : ℕ
  pub events : List Event
  pub stats : WatchStats
  pub last_poll : ℕ
  pub doorbell_pending : Bool
  pub deadline : ℕ

-- Each case of the select, with the time it is taken at and, where it polls, when the poll ends.
pub data Wake : Type 0 where
  cancelled stopped : Wake
  doorbell timer : ℕ → ℕ → Snapshot → Wake

pub data RunError : Type 0 where
  context_cancelled : RunError
  poll_failed : PollError → RunError

-- The loop goes on, or returns, with an error or without one.
pub data Turn : Type 0 where
  go_on : Loop → Turn
  returns : Option RunError → Loop → Turn

unfoldable pub count_doorbell : WatchStats → WatchStats
count_doorbell s = record s { doorbell_polls = s.doorbell_polls + 1 }

-- What the timer's case counts after a poll with `n` events.
unfoldable pub count_timer : Bool → Bool → ℕ → WatchStats → WatchStats
unfolding count_doorbell
count_timer pending listens n s = if pending then count_doorbell s else record s {
  baseline_polls = s.baseline_polls + 1;
  baseline_catches = if ltb 0 n && listens then s.baseline_catches + 1 else s.baseline_catches;
}

module _ (hashtext : Text → ℤ) (c : WatcherConfig) (t : Timing) where
  -- After a poll: an error ends the loop; else the timer is set to the baseline.
  unfoldable pub after_poll :
      (ℕ → WatchStats → WatchStats) → ℕ → Outcome PollError ℕ → ℕ → Loop → Turn
  after_poll count end (err e) hwm' l = returns (some (poll_failed e)) (record l { hwm = hwm' })
  after_poll count end (ok n) hwm' l = go_on (record {
    hwm = hwm';
    events = l.events;
    stats = count n l.stats;
    last_poll = end;
    doorbell_pending = false;
    deadline = end + t.baseline;
  })

  unfoldable pub poll_now : (ℕ → WatchStats → WatchStats) → ℕ → Snapshot → Loop → Turn
  unfolding after_poll
  poll_now count end s l =
      let (x, hwm') = poll hashtext s.fault s.sending c s.xmin s.compacted l.hwm s.table in
      after_poll count end x.returned hwm' (record l { events = l.events ++ x.delivered })

  -- A doorbell before the floor has passed sets the timer to what remains of it.
  unfoldable pub defer_poll : ℕ → Loop → Loop
  defer_poll now l = record l {
    doorbell_pending = true;
    deadline = now + (t.debounce_floor - (now - l.last_poll));
  }

  -- One turn of the loop.
  unfoldable pub turn : Wake → Loop → Turn
  unfolding poll_now defer_poll count_doorbell count_timer
  turn cancelled l = returns (some context_cancelled) l
  turn stopped l = returns none l
  turn (doorbell now end s) l =
      if leb t.debounce_floor (now - l.last_poll)
      then poll_now (λ n x. x) end s (record l { stats = count_doorbell l.stats })
      else go_on (defer_poll now l)
  turn (timer now end s) l = poll_now (count_timer l.doorbell_pending t.listens) end s l

  unfoldable pub continue_with : (Loop → Turn) → Turn → Turn
  continue_with f (go_on l) = f l
  continue_with f (returns e l) = returns e l

  unfoldable pub turns : List Wake → Loop → Turn
  unfolding continue_with
  turns [] l = go_on l
  turns (w ∷ ws) l = continue_with (turns ws) (turn w l)

  -- `Run`: a first poll, which is not counted, and the loop.
  unfoldable pub run_watcher : ℕ → ℕ → Snapshot → List Wake → Turn
  run_watcher start_hwm end s ws = continue_with (turns ws) (
      poll_now (λ n x. x) end s
        (record {
          hwm = start_hwm;
          events = [];
          stats = record { doorbell_polls = 0; baseline_polls = 0; baseline_catches = 0 };
          last_poll = 0;
          doorbell_pending = false;
          deadline = 0;
        }))
