-- ===== src/Witnesses/Watching.antt =====
-- The theorems on the watcher's loops and the debouncer at concrete inputs.
use postgres_controller_back.Base.{
  List, ◌≡◌, ◌≤◌, refl, true, false, none, some, [], ◌∷◌, arith, ◌||◌,
}
use postgres_controller_back.Base.Int.{ℤ, negsuc}
use postgres_controller_back.Base.Text.{Text, codes}
use postgres_controller_back.Reader.Poll.{PollFault, poll_tx, WatcherConfig}
use postgres_controller_back.Reader.Send.{Sending, poll, IsPolled, poll-IsPolled}
use postgres_controller_back.Doorbell.{
  rings, ticks, debounce, debounce_and_close, IsRetried, ring_heard,
}
use postgres_controller_back.Reader.Run.{Snapshot, Timing, Loop, Wake, doorbell, timer}
use postgres_controller_back.Reader.Listen.{Listener, start_listening, listen_on}
use postgres_controller_back.Reader.Listen.Backoff.{
  failures, capped, doubled, backoff_doubles, Runs, IsPatient, listen_on-IsPatient,
}
use postgres_controller_back.Runtime.Watching.{
  Move, stop, cancel, run_fails, run_stops, clean_up, see_done, see_cancelled, see_end,
  fail_to_convert, hand_over_error, drop_error, watching, can, moves,
}
use postgres_controller_back.Runtime.Watching.Released.{is_due, own_moves, IsQuiet, watch_released}
use postgres_controller_back.Samples

abbrev hash : Text → ℤ
hash _ = negsuc 4

abbrev pods : WatcherConfig
pods = record { gvk = codes "v1/Pod"; shard = none }

abbrev snapshot : Snapshot
snapshot = record {
  xmin = 105;
  compacted = none;
  table = Samples.rows;
  fault = PollFault.no_fault;
  sending = Sending.undisturbed;
}

abbrev timing : Timing
timing = record { baseline = 5000; debounce_floor = 100; listens = true }

-- The consumer stops after the first of two events.
abbrev cut : Sending
cut = Sending.stopped_after 1

poll-IsPolled_example :
    IsPolled
      (poll_tx hash PollFault.no_fault pods 105 none 50 Samples.rows).0
      (poll hash PollFault.no_fault cut pods 105 none 50 Samples.rows).0
    × ((poll hash PollFault.no_fault cut pods 105 none 50 Samples.rows).1
        ≡ (poll_tx hash PollFault.no_fault pods 105 none 50 Samples.rows).1)
poll-IsPolled_example = poll-IsPolled hash PollFault.no_fault cut pods 105 none 50 Samples.rows

-- A loop that has polled at 1000.
abbrev idle : Loop
idle = record {
  hwm = 50;
  events = [];
  stats = record { doorbell_polls = 0; baseline_polls = 0; baseline_catches = 0 };
  last_poll = 1000;
  doorbell_pending = false;
  deadline = 6000;
}

-- A doorbell that comes too early, and the timer that answers it.
abbrev wakes : List Wake
wakes = doorbell 1010 1010 snapshot ∷ timer 1100 1105 snapshot ∷ []

-- A listener without a connection.
abbrev deaf : Listener
deaf = record {
  connected = false;
  backoff = 100;
  notify = false;
  listen_errors = 0;
  reconnects = 0;
}

backoff_doubles_example :
    (k : Listener) × (listen_on true (failures 7) (some deaf) ≡ some k)
    × (k.backoff ≡ capped (doubled 7 100))
    × (k.listen_errors ≡ 7)
    × (k.connected ≡ false)
backoff_doubles_example = backoff_doubles 7 100 7 deaf (omega arith) refl refl refl

listen_on-IsPatient_example :
    Runs IsPatient (listen_on true (failures 2) (some (start_listening true false)))
listen_on-IsPatient_example = listen_on-IsPatient true false true (failures 2)

-- The second notification fails.
ring_heard_example :
    IsRetried
      (λ g. g)
      (λ g. false)
      (codes "v1/Pod")
      (debounce (λ g. g) (ticks (λ g. true) ∷ []) (record { dirty = []; tried = [] })).tried
      (debounce_and_close
        (λ g. g)
        (ticks (λ g. true) ∷ rings (codes "v1/Pod") ∷ ticks (λ g. false) ∷ [])
        (λ g. false)
        (record { dirty = []; tried = [] })).tried
ring_heard_example =
    ring_heard (λ g. g) (λ g. false) (codes "v1/Pod") (ticks (λ g. true) ∷ [])
      (ticks (λ g. false) ∷ []) (record { dirty = []; tried = [] })

-- A watch that is stopped, of which both goroutines have come to their end.
abbrev stopped_watch : List Move
stopped_watch = stop ∷ see_done ∷ run_stops ∷ clean_up ∷ []

stopped_watch-IsQuiet : IsQuiet (moves stopped_watch watching)
unfolding moves can is_due
stopped_watch-IsQuiet stop o = cc
stopped_watch-IsQuiet cancel o = cc
stopped_watch-IsQuiet run_fails o = cc
stopped_watch-IsQuiet run_stops o = refl
stopped_watch-IsQuiet clean_up o = refl
stopped_watch-IsQuiet see_done o = refl
stopped_watch-IsQuiet see_cancelled o = refl
stopped_watch-IsQuiet see_end o = refl
stopped_watch-IsQuiet fail_to_convert o = cc
stopped_watch-IsQuiet hand_over_error o = cc
stopped_watch-IsQuiet drop_error o = refl

stopped_watch-stopped :
    ((moves stopped_watch watching).done || (moves stopped_watch watching).ctx_done) ≡ true
unfolding moves
stopped_watch-stopped = refl

watch_released_example :
    ((moves stopped_watch watching).closed ≡ 2)
    × ((moves stopped_watch watching).result_closed ≡ true)
    × (own_moves stopped_watch watching ≤ 4)
watch_released_example = watch_released stopped_watch stopped_watch-stopped stopped_watch-IsQuiet
