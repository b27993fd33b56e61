-- ===== src/Doorbell.antt =====
-- internal/doorbell/doorbell.go: the debouncer. A run is a sequence of rings and ticks, which the mutex
-- puts in an order; `tried` is what the connection was asked to notify, each with whether it did: a
-- failure, or the end of the five seconds, is only logged. The order in which a flush goes through the set is the one of the first rings.
use postgres_controller_back.Base.{
  ◌≡◌, refl, Bool, true, false, ◌||◌, List, [], ◌∷◌, ◌++◌, map, if◌then◌else◌, arith, Bool-cases,
  inl, inr, In, here, there, In-append_left, In-append_right, ap, append_assoc, ◌∙◌,
}
use postgres_controller_back.Base.Text.{Text, text_eq, text_eq_iff}
use postgres_controller_back.Model.{doorbell_channel}

pub record Debouncer : Type 0 where
  pub dirty : List Text
  pub tried : List (Text × Bool)

-- A tick comes with the answers to the notifications that its flush sends.
pub data Happens : Type 0 where
  rings : Text → Happens
  ticks : (Text → Bool) → Happens

unfoldable pub is_dirty : Text → List Text → Bool
is_dirty gvk [] = false
is_dirty gvk (g ∷ gs) = text_eq g gvk || is_dirty gvk gs

-- `Ring`
unfoldable pub mark : Text → Debouncer → Debouncer
mark gvk d = record d { dirty = if is_dirty gvk d.dirty then d.dirty else d.dirty ++ gvk ∷ [] }

module _ (digest : Text → Text) where
  abbrev pub notify : (Text → Bool) → Text → Text × Bool
  notify answers gvk = (doorbell_channel digest gvk, answers gvk)

  -- `flush`, one notification for each dirty GVK; the set is cleared before them, whatever they answer.
  unfoldable pub flush : (Text → Bool) → Debouncer → Debouncer
  flush answers d = record { dirty = []; tried = d.tried ++ map (notify answers) d.dirty }

  -- The loop until it is stopped.
  unfoldable pub debounce : List Happens → Debouncer → Debouncer
  debounce [] d = d
  debounce (rings gvk ∷ hs) d = debounce hs (mark gvk d)
  debounce (ticks answers ∷ hs) d = debounce hs (flush answers d)

  -- The loop and `Close`, after which it flushes once more.
  unfoldable pub debounce_and_close : List Happens → (Text → Bool) → Debouncer → Debouncer
  debounce_and_close hs answers d = flush answers (debounce hs d)

is_dirty-In : (gvk : Text) (gs : List Text) → is_dirty gvk gs ≡ true → In gvk gs
unfolding is_dirty
is_dirty-In gvk [] b = cc
is_dirty-In gvk (g ∷ gs) b = elim (Bool-cases (text_eq g gvk)) [
  | inl e ↦ here ((text_eq_iff g gvk).0 e)
  | inr n ↦ there (is_dirty-In gvk gs (ground arith))
]

mark-In : (gvk : Text) (d : Debouncer) → In gvk (mark gvk d).dirty
unfolding mark
mark-In gvk d = elim (Bool-cases (is_dirty gvk d.dirty)) [
  | inl b ↦ rw b (is_dirty-In gvk d.dirty b)
  | inr b ↦ rw b (In-append_right d.dirty (here refl))
]

mark-keeps : (g gvk : Text) (d : Debouncer) → In g d.dirty → In g (mark gvk d).dirty
unfolding mark
mark-keeps g gvk d i = elim (Bool-cases (is_dirty gvk d.dirty)) [
  | inl b ↦ rw b i
  | inr b ↦ rw b (In-append_left (gvk ∷ []) i)
]

module _ (digest : Text → Text) (last : Text → Bool) (gvk : Text) where
  -- The list of tries begins with `old` and goes on with a try of the GVK's channel.
  pub record IsRetried (old tried : List (Text × Bool)) : Type 0 where
    pub later : List (Text × Bool)
    pub after : tried ≡ old ++ later
    pub answer : Bool
    pub tries : In (doorbell_channel digest gvk, answer) later

  In-map_notify :
      (answers : Text → Bool) (gs : List Text)
      → In gvk gs
      → In (doorbell_channel digest gvk, answers gvk) (map (notify digest answers) gs)
  In-map_notify answers [] i = elim i [ ]
  In-map_notify answers (x ∷ xs) (here e) = here (ap (notify digest answers) e)
  In-map_notify answers (x ∷ xs) (there i) = there (In-map_notify answers xs i)

  tried_more :
      (hs : List Happens) (d : Debouncer)
      → (more : List (Text × Bool)) × ((debounce_and_close digest hs last d).tried
          ≡ d.tried ++ more)
  unfolding debounce_and_close debounce flush mark
  tried_more [] d = (map (notify digest last) d.dirty, refl)
  tried_more (rings g ∷ hs) d = let (more, e) = tried_more hs (mark g d) in (more, e)
  tried_more (ticks answers ∷ hs) d =
      let (more, e) = tried_more hs (flush digest answers d) in
      (
        map (notify digest answers) d.dirty ++ more,
        e ∙ append_assoc d.tried (map (notify digest answers) d.dirty) more,
      )

  dirty_tried :
      (hs : List Happens) (d : Debouncer)
      → In gvk d.dirty
      → IsRetried d.tried (debounce_and_close digest hs last d).tried
  unfolding debounce_and_close debounce flush mark
  dirty_tried [] d i = record {
    later = map (notify digest last) d.dirty;
    after = refl;
    answer = last gvk;
    tries = In-map_notify last d.dirty i;
  }
  dirty_tried (rings g ∷ hs) d i = dirty_tried hs (mark g d) (mark-keeps gvk g d i)
  dirty_tried (ticks answers ∷ hs) d i =
      let (more, e) = tried_more hs (flush digest answers d) in
      record {
        later = map (notify digest answers) d.dirty ++ more;
        after = e ∙ append_assoc d.tried (map (notify digest answers) d.dirty) more;
        answer = answers gvk;
        tries = In-append_left more (In-map_notify answers d.dirty i);
      }

  -- A ring is followed by a notification: after a GVK was rung and until the debouncer is closed, the
  -- server is asked to notify its channel, whatever rings and ticks come before and after. The request
  -- may fail, and is not repeated then.
  pub ring_heard :
      (before after : List Happens) (d : Debouncer)
      → IsRetried
          (debounce digest before d).tried
          (debounce_and_close digest (before ++ rings gvk ∷ after) last d).tried
  unfolding debounce debounce_and_close
  ring_heard [] after d = unfold mark in dirty_tried after (mark gvk d) (mark-In gvk d)
  ring_heard (rings g ∷ hs) after d = ring_heard hs after (mark g d)
  ring_heard (ticks answers ∷ hs) after d = ring_heard hs after (flush digest answers d)
