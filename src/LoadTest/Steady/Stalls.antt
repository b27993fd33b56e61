-- ===== src/LoadTest/Steady/Stalls.antt =====
-- The steady phase without writers.
use postgres_controller_back.Base.{
  ℕ, ◌≡◌, ◌≤◌, List, [], ◌∷◌, length, length-append, ltb, arith, Bool-cases, inl, inr,
}
use postgres_controller_back.LoadTest.Floats.{Floats}
use postgres_controller_back.LoadTest.Steady.{
  Pacer, Tick, Paced, goes_on, ended, blocked, job_capacity, decide_burst, send_job, send_at_rate,
  pace, pace_on, pace_all,
}
use postgres_controller_back.LoadTest.Steady.Bursts.{pacer}

-- No tick has seen a writer take a job.
abbrev pub Unmanned : List Tick → Type 0
Unmanned [] = Unit
Unmanned (t ∷ ts) = (t.taken ≡ 0) × Unmanned ts

module _ {F : Type 0} (fl : Floats F) (target burst : F) where
  decide_burst-jobs : (now : ℕ) (p : Pacer F) → (decide_burst fl target burst now p).jobs ≡ p.jobs
  unfolding decide_burst
  decide_burst-jobs now p = ground arith

  send_job-full :
      (t : Tick) (p : Pacer F)
      → t.taken ≡ 0
      → length p.jobs ≤ job_capacity
      → length (pacer (send_job fl t p)).jobs ≤ job_capacity
  unfolding send_job
  send_job-full t p e h = ground (arith, length-append p.jobs (p.write_counter ∷ []))

  pace-full :
      (until : ℕ) (t : Tick) (p : Pacer F)
      → t.taken ≡ 0
      → length p.jobs ≤ job_capacity
      → length (pacer (pace fl target burst until t p)).jobs ≤ job_capacity
  unfolding pace send_at_rate
  pace-full until t p e h = elim (Bool-cases (ltb t.loop_now until)) [
    | inr b ↦ rw b h
    | inl b ↦
        let q = decide_burst fl target burst t.now p in
        let k : length q.jobs ≤ job_capacity = rw (decide_burst-jobs t.now p) h in
        elim (Bool-cases (fl.below fl.nought q.current_rps)) [
          | inl c ↦ rw b (rw c (send_job-full t q e k))
          | inr c ↦ rw b (rw c k)
        ]
  ]

  -- If no writer takes a job, then at most 40 jobs are sent, however long the phase is: the next send
  -- waits until the context ends.
  pub jobs-Unmanned :
      (until : ℕ) (ts : List Tick) (p : Pacer F)
      → Unmanned ts
      → length p.jobs ≤ job_capacity
      → length (pacer (pace_all fl target burst until ts p)).jobs ≤ job_capacity
  unfolding pace_all
  jobs-Unmanned until [] p u h = h
  jobs-Unmanned until (t ∷ ts) p u h =
      go (λ q. jobs-Unmanned until ts q u.1) (pace fl target burst until t p)
        (pace-full until t p u.0 h)
    where
      go :
          ((q : Pacer F)
            → length q.jobs ≤ job_capacity
            → length (pacer (pace_all fl target burst until ts q)).jobs ≤ job_capacity)
          → (r : Paced F) → length (pacer r).jobs ≤ job_capacity
          → length (pacer (pace_on (pace_all fl target burst until ts) r)).jobs ≤ job_capacity
      go f (goes_on q) j = unfold pace_on in f q j
      go f (ended q) j = unfold pace_on in j
      go f (blocked q) j = unfold pace_on in j
