-- ===== src/Reader/Listen.antt =====
-- `listenLoop` of internal/reader/watcher.go: the doorbell's connection, its reconnection with backoff,
-- and the channel of capacity one by which it wakes the loop. Times are in milliseconds.
pub mod Backoff
use postgres_controller_back.Base.{
  ℕ, ◌+◌, ◌*◌, Bool, true, false, Option, none, some, List, [], ◌∷◌, ltb, if◌then◌else◌,
}

abbrev pub first_backoff : ℕ
first_backoff = 100

abbrev pub max_backoff : ℕ
max_backoff = 5000

pub record Listener : Type 0 where
  pub connected : Bool
  pub backoff : ℕ
  pub notify : Bool
  pub listen_errors : ℕ
  pub reconnects : ℕ

-- What the loop meets: without a connection, a new one that listens or that fails at the factory or at
-- LISTEN; with one, a notification or an error. `cancelled` is the end of the context or of the watcher.
pub data Meets : Type 0 where
  redialed factory_failed listen_failed notified wait_failed cancelled : Meets

-- `if backoff < maxBackoff { backoff *= 2; if backoff > maxBackoff { … } }`
unfoldable pub next_backoff : ℕ → ℕ
next_backoff b =
    if ltb b max_backoff then (if ltb max_backoff (b * 2) then max_backoff else b * 2) else b

unfoldable pub count_error : Listener → Listener
count_error l = record l { listen_errors = l.listen_errors + 1 }

-- A failed attempt to connect.
unfoldable pub back_off : Listener → Listener
unfolding next_backoff count_error
back_off l = record (count_error l) { backoff = next_backoff l.backoff }

-- The state before the loop: a given connection that cannot listen is dropped.
unfoldable pub start_listening : Bool → Bool → Listener
start_listening given listens = record {
  connected = if given then listens else false;
  backoff = first_backoff;
  notify = false;
  listen_errors = if given then (if listens then 0 else 1) else 0;
  reconnects = 0;
}

-- One turn without a connection. Any other event leaves the loop waiting.
unfoldable pub redial : Meets → Listener → Option Listener
unfolding back_off
redial redialed l = some (record l {
  connected = true;
  backoff = first_backoff;
  notify = true;
  reconnects = l.reconnects + 1;
})
redial factory_failed l = some (back_off l)
redial listen_failed l = some (back_off l)
redial cancelled l = none
redial notified l = some l
redial wait_failed l = some l

-- One turn with a connection.
unfoldable pub wait : Meets → Listener → Option Listener
unfolding count_error
wait notified l = some (record l { backoff = first_backoff; notify = true })
wait wait_failed l = some (record (count_error l) { connected = false })
wait cancelled l = none
wait redialed l = some l
wait factory_failed l = some l
wait listen_failed l = some l

-- One turn; `none` where the loop returns. Without a factory a lost connection ends it.
unfoldable pub listen_turn : Bool → Meets → Listener → Option Listener
unfolding redial wait
listen_turn factory m l = if l.connected then wait m l else if factory then redial m l else none

unfoldable pub listen_on : Bool → List Meets → Option Listener → Option Listener
listen_on factory ms none = none
listen_on factory [] (some l) = some l
listen_on factory (m ∷ ms) (some l) = listen_on factory ms (listen_turn factory m l)
