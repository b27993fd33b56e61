-- ===== src/LoadTest/Steady/Bursts.antt =====
-- The rate of the steady phase, and its jobs.
use postgres_controller_back.Base.{
  ℕ, zero, suc, ◌+◌, ◌-◌, ◌≡◌, ◌≤◌, refl, Bool, true, false, ◌&&◌, not, List, [], ◌∷◌, ◌++◌, length,
  ltb, if◌then◌else◌, arith, Bool-cases, inl, inr,
}
use postgres_controller_back.LoadTest.Floats.{Floats}
use postgres_controller_back.LoadTest.Steady.{
  Pacer, Tick, Paced, goes_on, ended, blocked, burst_interval, job_capacity, decide_burst, send_job,
  send_at_rate, pace, pace_on, pace_all, new_pacer,
}

-- The numbers below `n`, in their order.
abbrev pub below_list : ℕ → List ℕ
below_list zero = []
below_list (suc n) = below_list n ++ n ∷ []

-- Where the loop is, whether it has ended or not.
abbrev pub pacer : {F : Type 0} → Paced F → Pacer F
pacer (goes_on p) = p
pacer (ended p) = p
pacer (blocked p) = p

module _ {F : Type 0} (fl : Floats F) (target burst : F) where
  -- The rate is the one of the mode, and the jobs are numbered from 0.
  pub record IsPaced (p : Pacer F) : Type 0 where
    pub rate : p.current_rps ≡ (if p.in_burst then burst else target)
    pub numbered : p.jobs ≡ below_list p.write_counter

  decide_burst-IsPaced :
      (now : ℕ) (p : Pacer F) → IsPaced p → IsPaced (decide_burst fl target burst now p)
  unfolding decide_burst
  decide_burst-IsPaced now p i = ground arith

  counted : {xs : List ℕ} (n : ℕ) → xs ≡ below_list n → xs ++ n ∷ [] ≡ below_list (n + 1)
  counted n e = let k : n + 1 ≡ suc n = omega arith in rw (k, e) refl

  send_job-IsPaced : (t : Tick) (p : Pacer F) → IsPaced p → IsPaced (pacer (send_job fl t p))
  unfolding send_job
  send_job-IsPaced t p i = elim (Bool-cases (ltb (length p.jobs - t.taken) job_capacity)) [
    | inl b ↦ rw b (sent t.ctx_done)
    | inr b ↦ rw b (kept t.ctx_done)
  ]
    where
      sent :
          (c : Bool)
          → IsPaced (
              pacer (
                if c
                then ended p
                else goes_on (record p {
                  write_counter = p.write_counter + 1;
                  jobs = p.jobs ++ p.write_counter ∷ [];
                })))
      sent true = i
      sent false = record { rate = i.rate; numbered = counted p.write_counter i.numbered }

      kept : (c : Bool) → IsPaced (pacer (if c then ended p else blocked p))
      kept true = i
      kept false = i

  send_at_rate-IsPaced :
      (t : Tick) (p : Pacer F) → IsPaced p → IsPaced (pacer (send_at_rate fl t p))
  unfolding send_at_rate
  send_at_rate-IsPaced t p i = elim (Bool-cases (fl.below fl.nought p.current_rps)) [
    | inl b ↦ rw b (send_job-IsPaced t p i)
    | inr b ↦ rw b i
  ]

  pace-IsPaced :
      (until : ℕ) (t : Tick) (p : Pacer F)
      → IsPaced p
      → IsPaced (pacer (pace fl target burst until t p))
  unfolding pace
  pace-IsPaced until t p i = elim (Bool-cases (ltb t.loop_now until)) [
    | inl b ↦ rw b (
        send_at_rate-IsPaced t (decide_burst fl target burst t.now p)
          (decide_burst-IsPaced t.now p i))
    | inr b ↦ rw b i
  ]

  -- Whether a turn starts a burst.
  abbrev pub starts_burst : ℕ → Pacer F → Bool
  starts_burst now p = not p.in_burst && (decide_burst fl target burst now p).in_burst

  decide_burst-starts :
      (now : ℕ) (p : Pacer F)
      → starts_burst now p ≡ true
      → ((decide_burst fl target burst now p).last_burst_start ≡ now)
        × (p.last_burst_start + burst_interval ≤ now)
  unfolding decide_burst
  decide_burst-starts now p h = ground arith

  decide_burst-keeps :
      (now : ℕ) (p : Pacer F)
      → starts_burst now p ≡ false
      → (decide_burst fl target burst now p).last_burst_start ≡ p.last_burst_start
  unfolding decide_burst
  decide_burst-keeps now p h = ground arith

  -- Each time is five minutes or more after the one before it.
  abbrev pub AreApart : ℕ → List ℕ → Type 0
  AreApart from [] = Unit
  AreApart from (x ∷ xs) = (from + burst_interval ≤ x) × AreApart x xs

  abbrev pub after_pace : (Pacer F → List ℕ) → Paced F → List ℕ
  after_pace f (goes_on p) = f p
  after_pace f (ended p) = []
  after_pace f (blocked p) = []

  -- The times at which the turns of a run start bursts.
  unfoldable pub burst_starts : ℕ → List Tick → Pacer F → List ℕ
  burst_starts until [] p = []
  burst_starts until (t ∷ ts) p =
      let rest = after_pace (burst_starts until ts) (pace fl target burst until t p) in
      if ltb t.loop_now until then (if starts_burst t.now p then t.now ∷ rest else rest) else []

  send_at_rate-Apart :
      (t : Tick) (q : Pacer F) (f : Pacer F → List ℕ)
      → ((r : Pacer F) → AreApart r.last_burst_start (f r))
      → AreApart q.last_burst_start (after_pace f (send_at_rate fl t q))
  unfolding send_at_rate send_job
  send_at_rate-Apart t q f h = elim (Bool-cases (fl.below fl.nought q.current_rps)) [
    | inr b ↦ rw b (h q)
    | inl b ↦ elim (Bool-cases (ltb (length q.jobs - t.taken) job_capacity)) [
      | inl c ↦ rw b (rw c (sent t.ctx_done))
      | inr c ↦ rw b (rw c (kept t.ctx_done))
    ]
  ]
    where
      more : Pacer F
      more = record q { write_counter = q.write_counter + 1; jobs = q.jobs ++ q.write_counter ∷ [] }

      sent :
          (c : Bool)
          → AreApart q.last_burst_start (after_pace f (if c then ended q else goes_on more))
      sent true = tt
      sent false = h more

      kept :
          (c : Bool) → AreApart q.last_burst_start (after_pace f (if c then ended q else blocked q))
      kept true = tt
      kept false = tt

  turn-Apart :
      (until : ℕ) (ts : List Tick) (t : Tick) (p : Pacer F) (from : ℕ)
      → (decide_burst fl target burst t.now p).last_burst_start ≡ from
      → ((q : Pacer F) → AreApart q.last_burst_start (burst_starts until ts q))
      → AreApart from (
          after_pace
            (burst_starts until ts)
            (send_at_rate fl t (decide_burst fl target burst t.now p)))
  turn-Apart until ts t p from e h =
      rw (← e)
        (send_at_rate-Apart t (decide_burst fl target burst t.now p) (burst_starts until ts) h)

  -- In every run a burst starts five minutes or more after the one before it, and the first one five
  -- minutes after the start of the phase.
  pub burst_starts-AreApart :
      (until : ℕ) (ts : List Tick) (p : Pacer F)
      → AreApart p.last_burst_start (burst_starts until ts p)
  unfolding burst_starts pace
  burst_starts-AreApart until [] p = tt
  burst_starts-AreApart until (t ∷ ts) p = elim (Bool-cases (ltb t.loop_now until)) [
    | inr b ↦ rw b tt
    | inl b ↦ elim (Bool-cases (starts_burst t.now p)) [
      | inl c ↦
          let (e, l) = decide_burst-starts t.now p c in
          rw b (rw c (l, turn-Apart until ts t p t.now e (burst_starts-AreApart until ts)))
      | inr c ↦ rw b (
          rw c (
            turn-Apart until ts t p p.last_burst_start (decide_burst-keeps t.now p c)
              (burst_starts-AreApart until ts)))
    ]
  ]

  -- Where the loop is after a run: its rate is the burst rate in a burst and else the target, and it has
  -- sent the jobs from 0 on, each once, in their order.
  pub pace_all-IsPaced :
      (until : ℕ) (ts : List Tick) (p : Pacer F)
      → IsPaced p
      → IsPaced (pacer (pace_all fl target burst until ts p))
  unfolding pace_all
  pace_all-IsPaced until [] p i = i
  pace_all-IsPaced until (t ∷ ts) p i =
      go (pace_all-IsPaced until ts) (pace fl target burst until t p) (pace-IsPaced until t p i)
    where
      go :
          ((q : Pacer F) → IsPaced q → IsPaced (pacer (pace_all fl target burst until ts q)))
          → (r : Paced F) → IsPaced (pacer r)
          → IsPaced (pacer (pace_on (pace_all fl target burst until ts) r))
      go f (goes_on q) j = unfold pace_on in f q j
      go f (ended q) j = unfold pace_on in j
      go f (blocked q) j = unfold pace_on in j

  pub new_pacer-IsPaced : IsPaced (new_pacer fl target)
  unfolding new_pacer
  new_pacer-IsPaced = record { rate = refl; numbered = refl }

-- What the loop of the steady phase does in a run, from its start.
pub record IsSteady {F : Type 0} (fl : Floats F) (target burst : F) (until : ℕ) (ts : List Tick)
    : Type 0 where
  pub paced :
      IsPaced fl target burst (pacer (pace_all fl target burst until ts (new_pacer fl target)))
  pub apart :
      AreApart fl target burst 0 (burst_starts fl target burst until ts (new_pacer fl target))

-- In every run of the steady phase, whenever the clock is read: bursts start five minutes or more apart,
-- and the first one not before five minutes; the rate is the burst rate in a burst and else the target;
-- the jobs sent are numbered from 0, each once and in order.
pub pace_all-IsSteady :
    {F : Type 0} (fl : Floats F) (target burst : F) (until : ℕ) (ts : List Tick)
    → IsSteady fl target burst until ts
unfolding new_pacer
pace_all-IsSteady fl target burst until ts = record {
  paced = pace_all-IsPaced fl target burst until ts _ (new_pacer-IsPaced fl target burst);
  apart = burst_starts-AreApart fl target burst until ts (new_pacer fl target);
}
