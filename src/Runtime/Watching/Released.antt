-- ===== src/Runtime/Watching/Released.antt =====
-- What a watch has released once it has ended: the connections and the result channel.
use postgres_controller_back.Base.{
  ℕ, ◌+◌, ◌<◌, ◌≤◌, ◌≡◌, refl, Bool, true, false, ◌&&◌, ◌||◌, ◌⊎◌, inl, inr, List, [], ◌∷◌, ◌==◌,
  if◌then◌else◌, Bool-cases, arith,
}
use postgres_controller_back.Runtime.Watching.{
  Watching, watching, Move, stop, cancel, run_fails, run_stops, clean_up, see_done, see_cancelled,
  see_end, fail_to_convert, hand_over_error, drop_error, is_forwarding, is_sending_error,
  is_returned, can, effect, move, moves,
}

-- The connections are open until Run has returned, then closed, once each, with the context; the result
-- channel is closed exactly when the relay is gone, and before that Run has been told to stop or has
-- returned.
pub record IsOrderly (w : Watching) : Type 0 where
  pub whole : (w.closed ≡ 0) ⊎ ((w.closed ≡ 2) × (w.run_returned ≡ true) × (w.ctx_done ≡ true))
  pub relay_gone : w.result_closed ≡ is_returned w.relaying
  pub told : (is_forwarding w.relaying || w.stop_ch || w.run_returned) ≡ true

effect-IsOrderly : (m : Move) (w : Watching) → can m w ≡ true → IsOrderly w → IsOrderly (effect m w)
unfolding can effect
effect-IsOrderly stop w h i = ground arith
effect-IsOrderly cancel w h i = ground arith
effect-IsOrderly run_fails w h i = ground arith
effect-IsOrderly run_stops w h i = ground arith
effect-IsOrderly clean_up w h i = ground arith
effect-IsOrderly see_done w h i = ground arith
effect-IsOrderly see_cancelled w h i = ground arith
effect-IsOrderly see_end w h i = ground arith
effect-IsOrderly fail_to_convert w h i = ground arith
effect-IsOrderly hand_over_error w h i = ground arith
effect-IsOrderly drop_error w h i = ground arith

move-IsOrderly : (m : Move) (w : Watching) → IsOrderly w → IsOrderly (move m w)
unfolding move
move-IsOrderly m w i = elim (Bool-cases (can m w)) [
  | inl h ↦ rw h (effect-IsOrderly m w h i)
  | inr h ↦ rw h i
]

pub moves-IsOrderly : (ms : List Move) (w : Watching) → IsOrderly w → IsOrderly (moves ms w)
unfolding moves
moves-IsOrderly [] w i = i
moves-IsOrderly (m ∷ ms) w i = moves-IsOrderly ms (move m w) (move-IsOrderly m w i)

pub watching-IsOrderly : IsOrderly watching
watching-IsOrderly = record { whole = inl refl; relay_gone = refl; told = refl }

-- A move of one of the two goroutines.
unfoldable pub is_own : Move → Bool
is_own stop = false
is_own cancel = false
is_own _ = true

-- How many moves the two goroutines have left at most.
unfoldable pub left : Watching → ℕ
left w =
    (if w.run_returned then 0 else 1)
    + (if w.closed == 0 then 1 else 0)
    + (if is_forwarding w.relaying then 2 else if is_sending_error w.relaying then 1 else 0)

-- Each move of a goroutine is one less to make.
effect-left :
    (m : Move) (w : Watching)
    → is_own m ≡ true
    → can m w ≡ true
    → IsOrderly w
    → left (effect m w) < left w
unfolding left effect can is_own
effect-left stop w o h i = cc
effect-left cancel w o h i = cc
effect-left run_fails w o h i = ground arith
effect-left run_stops w o h i = ground arith
effect-left clean_up w o h i = ground arith
effect-left see_done w o h i = ground arith
effect-left see_cancelled w o h i = ground arith
effect-left see_end w o h i = ground arith
effect-left fail_to_convert w o h i = ground arith
effect-left hand_over_error w o h i = ground arith
effect-left drop_error w o h i = ground arith

-- The moves that a goroutine makes sooner or later if it can. That Run fails by itself, that an event does
-- not convert, and that the consumer takes an error need not happen.
unfoldable pub is_due : Move → Bool
is_due run_stops = true
is_due clean_up = true
is_due see_done = true
is_due see_cancelled = true
is_due see_end = true
is_due drop_error = true
is_due _ = false

-- No move is due.
abbrev pub IsQuiet : Watching → Type 0
IsQuiet w = (m : Move) → is_due m ≡ true → can m w ≡ false

-- The moves of the goroutines in a run, the consumer's and the caller's not counted.
unfoldable pub own_moves : List Move → Watching → ℕ
own_moves [] w = 0
own_moves (m ∷ ms) w = (if is_own m && can m w then 1 else 0) + own_moves ms (move m w)

effect-left_other : (m : Move) (w : Watching) → is_own m ≡ false → left (effect m w) ≤ left w
unfolding effect left is_own
effect-left_other stop w o = ground arith
effect-left_other cancel w o = ground arith
effect-left_other run_fails w o = cc
effect-left_other run_stops w o = cc
effect-left_other clean_up w o = cc
effect-left_other see_done w o = cc
effect-left_other see_cancelled w o = cc
effect-left_other see_end w o = cc
effect-left_other fail_to_convert w o = cc
effect-left_other hand_over_error w o = cc
effect-left_other drop_error w o = cc

move-left :
    (m : Move) (w : Watching)
    → IsOrderly w
    → (if is_own m && can m w then 1 else 0) + left (move m w) ≤ left w
unfolding move
move-left m w i = elim (Bool-cases (can m w)) [
  | inr h ↦ rw h (ground arith)
  | inl h ↦ elim (Bool-cases (is_own m)) [
    | inl o ↦ rw h (rw o (omega (arith, effect-left m w o h i)))
    | inr o ↦ rw h (rw o (omega (arith, effect-left_other m w o)))
  ]
]

own_moves-left :
    (ms : List Move) (w : Watching) → IsOrderly w → own_moves ms w + left (moves ms w) ≤ left w
unfolding own_moves moves
own_moves-left [] w i = omega arith
own_moves-left (m ∷ ms) w i =
    omega (arith, move-left m w i, own_moves-left ms (move m w) (move-IsOrderly m w i))

quiet-released :
    (w : Watching)
    → IsOrderly w
    → (w.done || w.ctx_done) ≡ true
    → IsQuiet w
    → (w.closed ≡ 2) × (w.result_closed ≡ true)
unfolding can is_due
quiet-released w i d q = ground (
  arith,
  i.told,
  q run_stops refl,
  q clean_up refl,
  q see_done refl,
  q see_cancelled refl,
  q drop_error refl,
)

left-watching : left watching ≡ 4
unfolding left
left-watching = refl

-- However the consumer, the caller's context and the two goroutines interleave: once the watch was stopped
-- or cancelled and no move of a goroutine is due any more, both connections are closed, once each, and so is
-- the result channel; the goroutines have made four moves at most.
pub watch_released :
    (ms : List Move)
    → ((moves ms watching).done || (moves ms watching).ctx_done) ≡ true
    → IsQuiet (moves ms watching)
    → ((moves ms watching).closed ≡ 2)
      × ((moves ms watching).result_closed ≡ true)
      × (own_moves ms watching ≤ 4)
watch_released ms d q =
    let (a, b) =
      quiet-released (moves ms watching) (moves-IsOrderly ms watching watching-IsOrderly) d q in
    (a, b, omega (arith, own_moves-left ms watching watching-IsOrderly, left-watching))
