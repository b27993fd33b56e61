-- ===== src/Runtime/Watching.antt =====
-- `newPgWatcher`, `relay` and `Stop` of pkg/pgruntime/pgwatch.go and `WatchFuncWithContext` of
-- pkg/pgruntime/pgcache.go: who takes, uses and closes a watch's two connections. Two goroutines, Run
-- and the relay, and the consumer move in any order; what the relay sends is in Runtime/Relay.
pub mod Released
use postgres_controller_back.Base.{
  ℕ, ◌+◌, ◌<◌, ◌≤◌, ◌≡◌, refl, Bool, true, false, not, ◌&&◌, ◌||◌, ◌⊎◌, inl, inr, Option, none,
  some, List, [], ◌∷◌, ◌==◌, if◌then◌else◌, Bool-cases, arith,
}

-- What the relay goroutine does.
pub data Relaying : Type 0 where
  forwarding sending_error returned : Relaying

-- `closed` counts the connections, of two, that are closed.
pub record Watching : Type 0 where
  pub done : Bool
  pub ctx_done : Bool
  pub stop_ch : Bool
  pub run_returned : Bool
  pub closed : ℕ
  pub relaying : Relaying
  pub result_closed : Bool

-- `newPgWatcher`, once its two goroutines are started.
abbrev pub watching : Watching
watching = record {
  done = false;
  ctx_done = false;
  stop_ch = false;
  run_returned = false;
  closed = 0;
  relaying = Relaying.forwarding;
  result_closed = false;
}

-- The pool's answers to the two calls of `Acquire`: on the second's failure the first connection is
-- closed. The count is of connections that are taken and open.
unfoldable pub open_watch : Bool → Bool → Option Watching × ℕ
open_watch false second = (none, 0)
open_watch true false = (none, 0)
open_watch true true = (some watching, 2)

-- `hand_over_error`: the consumer takes the error, or there is none to hand over.
-- Each move of the consumer, of the caller's context, of the Run goroutine and of the relay.
pub data Move : Type 0 where
  stop cancel : Move
  run_fails run_stops clean_up : Move
  see_done see_cancelled see_end : Move
  fail_to_convert : Move
  hand_over_error drop_error : Move

abbrev pub is_forwarding : Relaying → Bool
is_forwarding Relaying.forwarding = true
is_forwarding Relaying.sending_error = false
is_forwarding Relaying.returned = false

abbrev pub is_sending_error : Relaying → Bool
is_sending_error Relaying.forwarding = false
is_sending_error Relaying.sending_error = true
is_sending_error Relaying.returned = false

abbrev pub is_returned : Relaying → Bool
is_returned Relaying.forwarding = false
is_returned Relaying.sending_error = false
is_returned Relaying.returned = true

-- When a goroutine can make a move. Run may return at any time, with an error of its own; told to stop, or
-- once the context is done, it can return.
unfoldable pub can : Move → Watching → Bool
can stop w = true
can cancel w = true
can run_fails w = not w.run_returned
can run_stops w = not w.run_returned && (w.stop_ch || w.ctx_done)
can clean_up w = w.run_returned && (w.closed == 0)
can see_done w = is_forwarding w.relaying && w.done
can see_cancelled w = is_forwarding w.relaying && w.ctx_done
can see_end w = is_forwarding w.relaying && w.run_returned
can fail_to_convert w = is_forwarding w.relaying
can hand_over_error w = is_sending_error w.relaying
can drop_error w = is_sending_error w.relaying && (w.done || w.ctx_done)

-- `defer close(pw.result)`
abbrev pub return_relay : Watching → Watching
return_relay w = record w { relaying = Relaying.returned; result_closed = true }

-- What a move does. `cleanup` closes both connections and cancels the watch's context.
unfoldable pub effect : Move → Watching → Watching
effect stop w = record w { done = true }
effect cancel w = record w { ctx_done = true }
effect run_fails w = record w { run_returned = true }
effect run_stops w = record w { run_returned = true }
effect clean_up w = record w { closed = w.closed + 2; ctx_done = true }
effect see_done w = return_relay (record w { stop_ch = true })
effect see_cancelled w = return_relay (record w { stop_ch = true })
effect see_end w = record w { relaying = Relaying.sending_error }
effect fail_to_convert w = record w { stop_ch = true; relaying = Relaying.sending_error }
effect hand_over_error w = return_relay w
effect drop_error w = return_relay w

-- A move that cannot be made is skipped.
unfoldable pub move : Move → Watching → Watching
unfolding can effect
move m w = if can m w then effect m w else w

unfoldable pub moves : List Move → Watching → Watching
unfolding move
moves [] w = w
moves (m ∷ ms) w = moves ms (move m w)
