-- ===== src/Reader/Listen/Backoff.antt =====
-- The backoff of the listen loop.
use postgres_controller_back.Base.{
  ℕ, zero, suc, ◌+◌, ◌*◌, ◌≡◌, ◌≤◌, ◌<◌, refl, Bool, true, false, Option, none, some, List, [], ◌∷◌,
  ltb, if◌then◌else◌, arith, ◌∙◌, ap,
}
use postgres_controller_back.Reader.Listen.{
  Listener, Meets, redialed, factory_failed, listen_failed, notified, wait_failed, cancelled,
  max_backoff, next_backoff, start_listening, listen_turn, listen_on, redial, wait, back_off,
  count_error,
}

-- The backoff lies between its first value and its bound.
abbrev pub IsPatient : Listener → Type 0
IsPatient l = (100 ≤ l.backoff) × (l.backoff ≤ 5000)

-- A property of the listener, while the loop runs.
abbrev pub Runs : (Listener → Type 0) → Option Listener → Type 0
Runs p none = 0 ≤ 0
Runs p (some l) = p l

next_backoff_bounds :
    (b : ℕ) → 100 ≤ b → b ≤ 5000 → (100 ≤ next_backoff b) × (next_backoff b ≤ 5000)
unfolding next_backoff
next_backoff_bounds b h k = ground arith

redial-IsPatient : (m : Meets) (l : Listener) → IsPatient l → Runs IsPatient (redial m l)
unfolding redial back_off count_error
redial-IsPatient redialed l h = (omega arith, omega arith)
redial-IsPatient factory_failed l h = next_backoff_bounds l.backoff h.0 h.1
redial-IsPatient listen_failed l h = next_backoff_bounds l.backoff h.0 h.1
redial-IsPatient notified l h = h
redial-IsPatient wait_failed l h = h
redial-IsPatient cancelled l h = omega arith

wait-IsPatient : (m : Meets) (l : Listener) → IsPatient l → Runs IsPatient (wait m l)
unfolding wait count_error
wait-IsPatient redialed l h = h
wait-IsPatient factory_failed l h = h
wait-IsPatient listen_failed l h = h
wait-IsPatient notified l h = (omega arith, omega arith)
wait-IsPatient wait_failed l h = h
wait-IsPatient cancelled l h = omega arith

turn-IsPatient :
    (factory : Bool) (m : Meets) (l : Listener)
    → IsPatient l
    → Runs IsPatient (listen_turn factory m l)
unfolding listen_turn
turn-IsPatient factory m l h = go l.connected factory
  where
    go : (a b : Bool) → Runs IsPatient (if a then wait m l else if b then redial m l else none)
    go true b = wait-IsPatient m l h
    go false true = redial-IsPatient m l h
    go false false = omega arith

listen_on_keeps :
    (factory : Bool) (ms : List Meets) (o : Option Listener)
    → Runs IsPatient o
    → Runs IsPatient (listen_on factory ms o)
unfolding listen_on
listen_on_keeps factory ms none h = omega arith
listen_on_keeps factory [] (some l) h = h
listen_on_keeps factory (m ∷ ms) (some l) h =
    listen_on_keeps factory ms (listen_turn factory m l) (turn-IsPatient factory m l h)

start_listening-IsPatient : (given listens : Bool) → IsPatient (start_listening given listens)
unfolding start_listening
start_listening-IsPatient given listens = (omega arith, omega arith)

-- From its start, whatever the listen loop meets while it runs, its pause before the next attempt stays
-- between a tenth of a second and five seconds.
pub listen_on-IsPatient :
    (given listens factory : Bool) (ms : List Meets)
    → Runs IsPatient (listen_on factory ms (some (start_listening given listens)))
listen_on-IsPatient given listens factory ms =
    listen_on_keeps factory ms (some (start_listening given listens))
      (start_listening-IsPatient given listens)

-- `n` failures of the factory in a row.
abbrev pub failures : ℕ → List Meets
failures zero = []
failures (suc n) = factory_failed ∷ failures n

-- The smaller of a number and the bound.
abbrev pub capped : ℕ → ℕ
capped b = if ltb max_backoff b then max_backoff else b

next_backoff-capped : (b : ℕ) → 0 < b → next_backoff (capped b) ≡ capped (b * 2)
unfolding next_backoff
next_backoff-capped b h = ground arith

failed_turn :
    (l : Listener) → l.connected ≡ false → listen_turn true factory_failed l ≡ some (back_off l)
unfolding listen_turn redial
failed_turn l c = rw c

-- A number doubled `n` times.
abbrev pub doubled : ℕ → ℕ → ℕ
doubled zero b = b
doubled (suc n) b = doubled n (b * 2)

-- Without a connection, while the factory fails, each failure doubles the pause up to the bound of five
-- seconds, and is counted; the loop does not give up.
pub backoff_doubles :
    (n b errors : ℕ) (l : Listener)
    → 0 < b
    → l.connected ≡ false
    → l.backoff ≡ capped b
    → l.listen_errors + n ≡ errors
    → (k : Listener) × (listen_on true (failures n) (some l) ≡ some k)
      × (k.backoff ≡ capped (doubled n b))
      × (k.listen_errors ≡ errors)
      × (k.connected ≡ false)
unfolding listen_on
backoff_doubles zero b errors l p c e h = (l, refl, e, omega (arith, h), c)
backoff_doubles (suc n) b errors l p c e h =
    let (k, f, x, y, z) =
      backoff_doubles n (b * 2) errors (back_off l) (omega arith) (unfold back_off count_error in c)
        (unfold back_off count_error in ap next_backoff e ∙ next_backoff-capped b p)
        (unfold back_off count_error in omega (arith, h)) in
    (k, ap (listen_on true (failures n)) (failed_turn l c) ∙ f, x, y, z)
