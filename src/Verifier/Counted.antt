-- ===== src/Verifier/Counted.antt =====
-- How often a verifier measures a canary, in a run of any length.
use postgres_controller_back.Base.{
  Bool, true, false, ℕ, zero, suc, ◌+◌, ◌≡◌, ◌<◌, ◌≤◌, refl, false, Option, none, some, List, [],
  ◌∷◌, length, arith, leb, if◌then◌else◌, ok, err, Outcome, Bool-cases, inl, inr, ◌%◌,
}
use postgres_controller_back.Base.Text.{Text, text_eq}
use postgres_controller_back.Model.{WriteResult}
use postgres_controller_back.Writer.Client.{WriteError, World}
use postgres_controller_back.Writer.Entry.{write}
use postgres_controller_back.Reader.Poll.{Event}
use postgres_controller_back.Verifier.{
  Verifier, Pending, canary_ring_size, forget, drop_one, measure_from, measure, written_at,
  count_event, raise_hwm, check_event, note_canary, noted, write_canary, Wake, event, tick, turn,
  run, canary_request, canary_writer, verifier_namespace,
}

pub length-forget : (name : Text) (ps : Pending) → length (forget name ps) ≤ length ps
unfolding forget
length-forget name [] = omega arith
length-forget name ((n, t) ∷ ps) = ground (arith, length-forget name ps)

pub length-drop_one :
    (i : ℕ) (ps : Pending) → 0 < length ps → suc (length (drop_one i ps)) ≡ length ps
unfolding drop_one
length-drop_one i [] h = absurd (omega arith)
length-drop_one zero (p ∷ ps) h = refl
length-drop_one (suc i) (p ∷ []) h = refl
length-drop_one (suc i) (p ∷ q ∷ ps) h = omega (arith, length-drop_one i (q ∷ ps) (omega arith))

pub forget_found :
    (name : Text) (ps : Pending) {t : ℕ}
    → written_at name ps ≡ some t
    → suc (length (forget name ps)) ≤ length ps
unfolding forget written_at
forget_found name [] h = absurd (cc)
forget_found name ((n, u) ∷ ps) {t} h = elim (Bool-cases (text_eq n name)) [
  | inl b ↦ rw b (omega (arith, length-forget name ps))
  | inr b ↦ rw b (omega (arith, forget_found name ps (later b)))
]
  where
    later : text_eq n name ≡ false → written_at name ps ≡ some t
    later b = rw b at h

abbrev one_if : Option ℕ → ℕ
one_if none = 0
one_if (some t) = 1

module _ (round : Text → Text) where
  -- The latencies that a turn records.
  unfoldable pub records : Wake round → Verifier → ℕ
  records (event now e) v =
      if text_eq e.resource.namespace verifier_namespace
      then one_if (written_at e.resource.name v.pending)
      else 0
  records (tick link d pick now w) v = 0

  -- The latencies that a run records, those included that the ring has overwritten.
  unfoldable pub recorded : List (Wake round) → Verifier → ℕ
  unfolding records
  recorded [] v = 0
  recorded (a ∷ ws) v = records a v + recorded ws (turn round a v)

  -- What a turn records and leaves pending was pending, or is a canary that it wrote.
  abbrev Balances : ℕ → Verifier → Verifier → Type 0
  Balances n v v' = n + length v'.pending + v.canary_count ≤ length v.pending + v'.canary_count

  event-Balances :
      (now : ℕ) (e : Event) (v : Verifier) (o : Option ℕ)
      → written_at e.resource.name v.pending ≡ o
      → Balances
          (if text_eq e.resource.namespace verifier_namespace then one_if o else 0)
          v
          (check_event now e v)
  unfolding check_event measure measure_from count_event raise_hwm
  event-Balances now e v none f =
      elim (Bool-cases (text_eq e.resource.namespace verifier_namespace)) [
        | inl b ↦ rw b (rw f (omega arith))
        | inr b ↦ rw b (omega arith)
      ]
  event-Balances now e v (some t) f =
      elim (Bool-cases (text_eq e.resource.namespace verifier_namespace)) [
        | inl b ↦ rw b (rw f (omega (arith, forget_found e.resource.name v.pending f)))
        | inr b ↦ rw b (omega arith)
      ]

  note_canary-Balances :
      (pick now : ℕ) (name : Text) (v : Verifier) → Balances 0 v (note_canary pick now name v)
  unfolding note_canary
  note_canary-Balances pick now name v =
      elim (Bool-cases (leb canary_ring_size (length v.pending))) [
        | inl b ↦ rw b (
            let dropped = drop_one (pick % canary_ring_size) v.pending in
            omega (
              arith,
              length-drop_one (pick % canary_ring_size) v.pending (ground arith),
              length-forget name dropped,
            ))
        | inr b ↦ rw b (omega (arith, length-forget name v.pending))
      ]

  noted-Balances :
      (pick now : ℕ) (name : Text) (v : Verifier) (o : Outcome WriteError WriteResult × World)
      → Balances 0 v (noted pick now name v o).0
  noted-Balances pick now name v (err e, w) = omega arith
  noted-Balances pick now name v (ok r, w) = note_canary-Balances pick now name v

  either-Balances :
      (b : Bool) (v : Verifier) (x y : Verifier × World)
      → Balances 0 v x.0
      → Balances 0 v y.0
      → Balances 0 v (if b then x else y).0
  either-Balances true v x y h k = h
  either-Balances false v x y h k = k

  turn-Balances : (a : Wake round) (v : Verifier) → Balances (records a v) v (turn round a v)
  unfolding turn records write_canary
  turn-Balances (event now e) v = event-Balances now e v (written_at e.resource.name v.pending) refl
  turn-Balances (tick link d pick now w) v =
      let q = canary_request v.config.gvk v.canary_count in
      either-Balances v.has_canary v
        (noted pick now q.key.name v (write round (canary_writer link) d q w)) (v, w)
        (noted-Balances pick now q.key.name v (write round (canary_writer link) d q w))
        (omega arith)

  pub run-Balances :
      (ws : List (Wake round)) (v : Verifier)
      → recorded ws v + length (run round ws v).pending + v.canary_count
        ≤ length v.pending + (run round ws v).canary_count
  unfolding recorded run
  run-Balances [] v = omega arith
  run-Balances (a ∷ ws) v = omega (arith, turn-Balances a v, run-Balances ws (turn round a v))
