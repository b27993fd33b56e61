-- ===== src/LoadTest/Suite/Verdict.antt =====
-- What the report, the exit code and the checkpoints say of the phases.
use postgres_controller_back.Base.{
  ℕ, ◌≡◌, refl, sym, ap, ◌∙◌, Bool, true, false, ◌&&◌, List, [], ◌∷◌, ◌++◌, map, keep,
  if◌then◌else◌, All, All-append, arith, length, length-append, ◌<◌, ◌⊎◌, subst, some, append_assoc,
  append-nil, Bool-cases, inl, inr, none,
}
use postgres_controller_back.Base.Text.{Text}
use postgres_controller_back.LoadTest.Floats.{Floats}
use postgres_controller_back.LoadTest.Config.{Config}
use postgres_controller_back.LoadTest.Report.{PhaseResult}
use postgres_controller_back.LoadTest.Checkpoint.{
  Checkpoint, CheckpointWriter, checkpoint, set_current_phase, record_phase_complete,
}
use postgres_controller_back.LoadTest.Suite.{
  Phase, Suite, progress, ticked, result_of, run_phase, run_phases, new_suite, conclude,
}

module _ {F : Type 0} where
  abbrev pub all_of : List (PhaseResult F) → Bool
  all_of [] = true
  all_of (r ∷ rs) = r.passed && all_of rs

  -- A checkpoint is of the first phases, tells whether all of these have passed, and names a current
  -- phase only while results are missing.
  pub record IsHonest (all : List (PhaseResult F)) (c : Checkpoint F) : Type 0 where
    pub rest : List (PhaseResult F)
    pub before : c.completed_phases ++ rest ≡ all
    pub current : (c.current_phase ≡ none) ⊎ (0 < length rest)
    pub verdict : c.all_passed_so_far ≡ all_of c.completed_phases

  IsHonest-later :
      (all more : List (PhaseResult F)) (cs : List (Checkpoint F))
      → All (IsHonest all) cs
      → All (IsHonest (all ++ more)) cs
  IsHonest-later all more [] h = tt
  IsHonest-later all more (c ∷ cs) (h, hs) = (
    record {
      rest = h.rest ++ more;
      before = sym (append_assoc c.completed_phases h.rest more) ∙ ap (λ xs. xs ++ more) h.before;
      current = elim h.current [
        | inl e ↦ inl e
        | inr l ↦ inr (omega (arith, l, length-append h.rest more))
      ];
      verdict = h.verdict;
    },
    IsHonest-later all more cs hs,
  )

  All-ticked :
      (fl : Floats F) (P : Checkpoint F → Type 0) (ts : List ℕ) (w : CheckpointWriter F)
      → ((t : ℕ) → P (checkpoint t w))
      → All P (ticked fl ts w)
  All-ticked fl P [] w f = tt
  All-ticked fl P (t ∷ ts) w f = (f t, All-ticked fl P ts w f)

  all_of-append :
      (xs : List (PhaseResult F)) (r : PhaseResult F)
      → all_of (xs ++ r ∷ []) ≡ (if r.passed then all_of xs else false)
  all_of-append [] r = ground arith
  all_of-append (x ∷ xs) r = ground (arith, all_of-append xs r)

  -- The checkpoint writer and the report agree.
  pub record Agrees (s : Suite F) : Type 0 where
    pub same_phases : s.writer.completed_phases ≡ s.phases
    pub verdict : s.all_passed ≡ all_of s.phases
    pub same_verdict : s.writer.all_passed_so_far ≡ all_of s.phases
    pub idle : s.writer.current_phase ≡ none
    pub honest : All (IsHonest s.phases) s.checkpoints

  module _ (fl : Floats F) where
    run_phase-IsHonest :
        (p : Phase F) (s : Suite F)
        → Agrees s
        → All (IsHonest (s.phases ++ result_of fl p ∷ [])) (run_phase fl p s).checkpoints
    unfolding run_phase checkpoint
    run_phase-IsHonest p s a =
        let r = result_of fl p in
        let all = s.phases ++ r ∷ [] in
        let busy = set_current_phase (some (progress fl p)) s.writer in
        let w = record_phase_complete r busy in
        let b : s.writer.completed_phases ++ r ∷ [] ≡ all = ap (λ xs. xs ++ r ∷ []) a.same_phases in
        let u : s.writer.all_passed_so_far ≡ all_of s.writer.completed_phases =
          a.same_verdict ∙ ap all_of (sym a.same_phases) in
        let v : (if r.passed then s.writer.all_passed_so_far else false)
            ≡ all_of (s.writer.completed_phases ++ r ∷ []) =
          rw a.same_verdict (rw a.same_phases (sym (all_of-append s.phases r))) in
        let over : (t : ℕ) → IsHonest all (checkpoint t w) = λ t. record {
          rest = [];
          before = append-nil (s.writer.completed_phases ++ r ∷ []) ∙ b;
          current = inl refl;
          verdict = v;
        } in
        All-append (IsHonest all) s.checkpoints _
          (IsHonest-later s.phases (r ∷ []) s.checkpoints a.honest)
          (All-append (IsHonest all) (ticked fl p.idle_ticks s.writer) _
            (All-ticked fl (IsHonest all) p.idle_ticks s.writer
              (λ t. record { rest = r ∷ []; before = b; current = inl a.idle; verdict = u }))
            (All-append (IsHonest all) (ticked fl p.ticks busy) _
              (All-ticked fl (IsHonest all) p.ticks busy (λ t. record {
                rest = r ∷ [];
                before = b;
                current = inr (omega arith);
                verdict = u;
              }))
              (All-append (IsHonest all) (ticked fl p.late_ticks w) _
                (All-ticked fl (IsHonest all) p.late_ticks w over) (over p.noted, tt))))

    run_phase-Agrees : (p : Phase F) (s : Suite F) → Agrees s → Agrees (run_phase fl p s)
    unfolding run_phase
    run_phase-Agrees p s a = record {
      same_phases = ap (λ xs. xs ++ result_of fl p ∷ []) a.same_phases;
      verdict = rw a.verdict (sym (all_of-append s.phases (result_of fl p)));
      same_verdict = rw a.same_verdict (sym (all_of-append s.phases (result_of fl p)));
      idle = refl;
      honest = run_phase-IsHonest p s a;
    }

    run_phases-Agrees : (ps : List (Phase F)) (s : Suite F) → Agrees s → Agrees (run_phases fl ps s)
    unfolding run_phases
    run_phases-Agrees [] s a = a
    run_phases-Agrees (p ∷ ps) s a = elim (Bool-cases p.enabled) [
      | inl e ↦ rw e (run_phases-Agrees ps (run_phase fl p s) (run_phase-Agrees p s a))
      | inr e ↦ rw e (run_phases-Agrees ps s a)
    ]

    -- The results of the enabled phases, in their order.
    abbrev pub results : List (Phase F) → List (PhaseResult F)
    results ps = map (result_of fl) (keep (λ p. p.enabled) ps)

    phases-run_phases :
        (ps : List (Phase F)) (s : Suite F) → (run_phases fl ps s).phases ≡ s.phases ++ results ps
    unfolding run_phases
    phases-run_phases [] s = sym (append-nil s.phases)
    phases-run_phases (p ∷ ps) s = elim (Bool-cases p.enabled) [
      | inl e ↦ rw e (
          phases-run_phases ps (run_phase fl p s)
          ∙ unfold run_phase in append_assoc s.phases (result_of fl p ∷ []) (results ps))
      | inr e ↦ rw e (phases-run_phases ps s)
    ]

    -- The loop's variables when it has ended.
    abbrev pub ran : List (Phase F) → Config F → Text → ℕ → Suite F
    ran ps c path now = run_phases fl ps (new_suite fl now path c)

    new_suite-Agrees : (c : Config F) (path : Text) (now : ℕ) → Agrees (new_suite fl now path c)
    unfolding new_suite
    new_suite-Agrees c path now = record {
      same_phases = refl;
      verdict = refl;
      same_verdict = refl;
      idle = refl;
      honest = tt;
    }

    -- A run of the program: the report has the results of the enabled phases in their order, a phase
    -- without a result as a failed one; it says that all passed exactly if each of these did, and the
    -- exit code is 0 then and 1 else. Each checkpoint on the way, the ticker's included, has the results of
    -- the first of these phases, tells whether they have passed, and names a phase as the current one only
    -- while a result is missing.
    pub suite_verdict :
        (ps : List (Phase F)) (c : Config F) (path : Text) (now start end : ℕ)
        → ((conclude fl start end c (ran ps c path now)).0.phases ≡ results ps)
          × ((conclude fl start end c (ran ps c path now)).0.all_passed ≡ all_of (results ps))
          × ((conclude fl start end c (ran ps c path now)).1
              ≡ (if all_of (results ps) then 0 else 1))
          × All (IsHonest (results ps)) (ran ps c path now).checkpoints
    unfolding conclude
    suite_verdict ps c path now start end =
        let a : Agrees (ran ps c path now) = run_phases-Agrees ps _ (new_suite-Agrees c path now) in
        let e : (ran ps c path now).phases ≡ results ps =
          unfold new_suite in phases-run_phases ps (new_suite fl now path c) in
        let v : (ran ps c path now).all_passed ≡ all_of (results ps) = a.verdict ∙ ap all_of e in
        (
          e,
          v,
          ap (λ (b : Bool). if b then 0 else 1) v,
          subst (λ xs. All (IsHonest xs) (ran ps c path now).checkpoints) e a.honest,
        )
