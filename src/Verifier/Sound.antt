-- ===== src/Verifier/Sound.antt =====
-- What holds of a verifier however long it runs.
use postgres_controller_back.Base.{
  ℕ, zero, suc, ◌+◌, ◌≡◌, ◌<◌, ◌≤◌, refl, Bool, true, false, Option, none, some, List, [], ◌∷◌,
  length, arith, leb, if◌then◌else◌, ok, err, Outcome, Bool-cases, inl, inr, ◌%◌, ◌-◌,
}
use postgres_controller_back.Base.Text.{Text, text_eq}
use postgres_controller_back.Model.{Resource, WriteResult}
use postgres_controller_back.Writer.Client.{WriteError, World}
use postgres_controller_back.Writer.Entry.{write}
use postgres_controller_back.Reader.Poll.{Event}
use postgres_controller_back.Verifier.Latencies.{Ring, set_at, record_time, length-zeros}
use postgres_controller_back.Verifier.{
  Verifier, Config, new, canary_ring_size, drop_one, measure_from, measure, written_at, count_event,
  raise_hwm, check_event, note_canary, noted, write_canary, Wake, event, tick, turn, run,
  canary_request, canary_writer, verifier_namespace,
}
use postgres_controller_back.Verifier.Counted.{
  length-forget, length-drop_one, forget_found, recorded, run-Balances,
}

pub record IsFit (r : Ring) : Type 0 where
  pub size : length r.times ≡ canary_ring_size
  pub inside : r.index < canary_ring_size

abbrev samples : Ring → ℕ
samples r = if r.full then canary_ring_size else r.index

-- The array keeps its length and the index stays inside; no more canaries are pending than it has
-- room for; the latencies in it and the pending canaries are together no more than the canaries written.
pub record IsSound (v : Verifier) : Type 0 where
  pub ring : IsFit v.ring
  pub room : length v.pending ≤ canary_ring_size
  pub once : samples v.ring + length v.pending ≤ v.canary_count
  pub redelivered : v.redeliveries ≤ v.events_count

length-set_at : (i x : ℕ) (ys : List ℕ) → length (set_at i x ys) ≡ length ys
unfolding set_at
length-set_at i x [] = refl
length-set_at zero x (y ∷ ys) = refl
length-set_at (suc i) x (y ∷ ys) = omega (arith, length-set_at i x ys)

record_time-IsFit : (d : ℕ) (r : Ring) → IsFit r → IsFit (record_time canary_ring_size d r)
unfolding record_time
record_time-IsFit d r h = elim (Bool-cases (leb canary_ring_size (suc r.index))) [
  | inl b ↦ rw b (record {
    size = omega (arith, length-set_at r.index d r.times, h.size);
    inside = omega arith;
  })
  | inr b ↦ rw b (record {
    size = omega (arith, length-set_at r.index d r.times, h.size);
    inside = ground arith;
  })
]

samples-record_time :
    (d : ℕ) (r : Ring) → IsFit r → samples (record_time canary_ring_size d r) ≤ suc (samples r)
unfolding record_time
samples-record_time d r h = ground (arith, h.inside)

measure_from-IsSound :
    (now : ℕ) (name : Text) (o : Option ℕ) (v : Verifier)
    → written_at name v.pending ≡ o
    → IsSound v
    → IsSound (measure_from now name o v)
unfolding measure_from
measure_from-IsSound now name none v e h = h
measure_from-IsSound now name (some t) v e h = record {
  ring = record_time-IsFit (now - t) v.ring h.ring;
  room = omega (arith, forget_found name v.pending e, h.room);
  once =
      omega
        (arith, forget_found name v.pending e, samples-record_time (now - t) v.ring h.ring, h.once);
  redelivered = h.redelivered;
}

count_event-IsSound : (txid : ℕ) (v : Verifier) → IsSound v → IsSound (count_event txid v)
unfolding count_event
count_event-IsSound txid v h = record {
  ring = h.ring;
  room = h.room;
  once = h.once;
  redelivered = ground (arith, h.redelivered);
}

measure-IsSound : (now : ℕ) (r : Resource) (v : Verifier) → IsSound v → IsSound (measure now r v)
unfolding measure
measure-IsSound now r v h = elim (Bool-cases (text_eq r.namespace verifier_namespace)) [
  | inl b ↦ rw b (measure_from-IsSound now r.name (written_at r.name v.pending) v refl h)
  | inr b ↦ rw b h
]

raise_hwm-IsSound : (txid : ℕ) (v : Verifier) → IsSound v → IsSound (raise_hwm txid v)
unfolding raise_hwm
raise_hwm-IsSound txid v h = record {
  ring = h.ring;
  room = h.room;
  once = h.once;
  redelivered = h.redelivered;
}

check_event-IsSound :
    (now : ℕ) (e : Event) (v : Verifier) → IsSound v → IsSound (check_event now e v)
unfolding check_event
check_event-IsSound now e v h =
    raise_hwm-IsSound e.resource.txid_stamp
      (measure now e.resource (count_event e.resource.txid_stamp v))
      (measure-IsSound now e.resource (count_event e.resource.txid_stamp v)
        (count_event-IsSound e.resource.txid_stamp v h))

note_canary-IsSound :
    (pick now : ℕ) (name : Text) (v : Verifier) → IsSound v → IsSound (note_canary pick now name v)
unfolding note_canary
note_canary-IsSound pick now name v h = record {
  ring = h.ring;
  room = elim (Bool-cases (leb canary_ring_size (length v.pending))) [
    | inl b ↦ rw b (
        let dropped = drop_one (pick % canary_ring_size) v.pending in
        omega (
          arith,
          h.room,
          length-drop_one (pick % canary_ring_size) v.pending (ground arith),
          length-forget name dropped,
        ))
    | inr b ↦ rw b (ground (arith, length-forget name v.pending))
  ];
  once = elim (Bool-cases (leb canary_ring_size (length v.pending))) [
    | inl b ↦ rw b (
        let dropped = drop_one (pick % canary_ring_size) v.pending in
        omega (
          arith,
          h.once,
          length-drop_one (pick % canary_ring_size) v.pending (ground arith),
          length-forget name dropped,
        ))
    | inr b ↦ rw b (omega (arith, h.once, length-forget name v.pending))
  ];
  redelivered = h.redelivered;
}

noted-IsSound :
    (pick now : ℕ) (name : Text) (v : Verifier) (o : Outcome WriteError WriteResult × World)
    → IsSound v
    → IsSound (noted pick now name v o).0
noted-IsSound pick now name v (err e, w) h = h
noted-IsSound pick now name v (ok r, w) h = note_canary-IsSound pick now name v h

either-IsSound :
    (b : Bool) (x y : Verifier × World) → IsSound x.0 → IsSound y.0 → IsSound (if b then x else y).0
either-IsSound true x y h k = h
either-IsSound false x y h k = k

module _ (round : Text → Text) where
  turn-IsSound : (a : Wake round) (v : Verifier) → IsSound v → IsSound (turn round a v)
  unfolding turn write_canary
  turn-IsSound (event now e) v h = check_event-IsSound now e v h
  turn-IsSound (tick link d pick now w) v h =
      let q = canary_request v.config.gvk v.canary_count in
      either-IsSound v.has_canary
        (noted pick now q.key.name v (write round (canary_writer link) d q w)) (v, w)
        (noted-IsSound pick now q.key.name v (write round (canary_writer link) d q w) h) h

  run-keeps : (ws : List (Wake round)) (v : Verifier) → IsSound v → IsSound (run round ws v)
  unfolding run
  run-keeps [] v h = h
  run-keeps (a ∷ ws) v h = run-keeps ws (turn round a v) (turn-IsSound a v h)

  -- Whatever it is woken by, a new verifier stays within the bounds of its ring, has no more than a
  -- thousand canaries pending, and counts no more redeliveries than events. Over the whole run, the
  -- latencies that it has recorded, overwritten ones included, and the canaries that are pending are
  -- together no more than the canaries that it has written.
  pub run-IsSound :
      (has_canary : Bool) (c : Config) (ws : List (Wake round))
      → IsSound (run round ws (new has_canary c))
        × (recorded round ws (new has_canary c) + length (run round ws (new has_canary c)).pending
            ≤ (run round ws (new has_canary c)).canary_count)
  unfolding new
  run-IsSound has_canary c ws = (
    run-keeps ws (new has_canary c) (record {
      ring = record { size = length-zeros canary_ring_size; inside = omega arith };
      room = omega arith;
      once = omega arith;
      redelivered = omega arith;
    }),
    omega (arith, run-Balances round ws (new has_canary c)),
  )
