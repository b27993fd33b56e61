-- ===== src/Reader/Run/Spacing.antt =====
-- When the loop polls: the debounce floor keeps polls apart, and no doorbell waits longer than it.
use postgres_controller_back.Base.{
  ℕ, ◌+◌, ◌-◌, ◌≡◌, ◌≤◌, true, false, Option, none, some, List, [], ◌∷◌, leb, if◌then◌else◌,
}
use postgres_controller_back.Base.Int.{ℤ}
use postgres_controller_back.Base.Text.{Text}
use postgres_controller_back.Reader.Poll.{WatcherConfig}
use postgres_controller_back.Reader.Run.{
  Timing, Loop, Wake, cancelled, stopped, doorbell, timer, Turn, go_on, returns, turn,
}

-- The timer stands at the end of the floor while a doorbell is pending, and else at the baseline.
pub record IsScheduled (t : Timing) (l : Loop) : Type 0 where
  pub pending : l.doorbell_pending ≡ true → l.deadline ≡ l.last_poll + t.debounce_floor
  pub idle : l.doorbell_pending ≡ false → l.deadline ≡ l.last_poll + t.baseline

-- The clock does not go back, and a timer does not fire early.
abbrev pub IsTimely : Loop → Wake → Type 0
IsTimely l cancelled = 0 ≤ 0
IsTimely l stopped = 0 ≤ 0
IsTimely l (doorbell now end s) = (l.last_poll ≤ now) × (now ≤ end)
IsTimely l (timer now end s) = (l.deadline ≤ now) × (now ≤ end)

-- A property of the loop, where it goes on.
abbrev pub Goes : (Loop → Type 0) → Turn → Type 0
Goes p (go_on l) = p l
Goes p (returns e l) = 0 ≤ 0

module _ (hashtext : Text → ℤ) (c : WatcherConfig) (t : Timing) where
  -- The wakes of a run are timely, each in the state that it finds.
  unfoldable pub AreTimely : List Wake → Loop → Type 0
  AreTimely [] l = 0 ≤ 0
  AreTimely (w ∷ ws) l = IsTimely l w × Goes (AreTimely ws) (turn hashtext c t w l)

  -- The pause before the poll of a turn, if it polls.
  abbrev pub pause : Wake → Loop → Option ℕ
  pause cancelled l = none
  pause stopped l = none
  pause (doorbell now end s) l =
      if leb t.debounce_floor (now - l.last_poll) then some (now - l.last_poll) else none
  pause (timer now end s) l = some (now - l.last_poll)

  abbrev pub AtLeastFloor : Option ℕ → Type 0
  AtLeastFloor none = 0 ≤ 0
  AtLeastFloor (some x) = t.debounce_floor ≤ x

  -- Every poll of the turns starts a floor or more after the one before it has ended.
  unfoldable pub AreSpaced : List Wake → Loop → Type 0
  AreSpaced [] l = 0 ≤ 0
  AreSpaced (w ∷ ws) l = AtLeastFloor (pause w l) × Goes (AreSpaced ws) (turn hashtext c t w l)

  -- Since a doorbell, a poll has ended at `due` or later; or none has, and the timer stands at `due`.
  pub data IsServed (due : ℕ) (l : Loop) : Type 0 where
    polled : due ≤ l.last_poll → due ≤ l.deadline → IsServed due l
    waits :
        l.doorbell_pending ≡ true
        → l.deadline ≡ due
        → l.last_poll + t.debounce_floor ≡ due
        → IsServed due l
