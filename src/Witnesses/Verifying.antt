-- ===== src/Witnesses/Verifying.antt =====
-- The theorems on the verifier at concrete inputs.
use postgres_controller_back.Base.{◌+◌, ◌≤◌, length, true, List, [], ◌∷◌, arith}
use postgres_controller_back.Base.Int.{pos}
use postgres_controller_back.Base.Text.{codes}
use postgres_controller_back.Writer.Client.{up}
use postgres_controller_back.Reader.Poll.{to_event}
use postgres_controller_back.Verifier.{Config, new, Wake, event, tick, run}
use postgres_controller_back.Verifier.Latencies.{record_all, empty_ring, latest, sampled}
use postgres_controller_back.Verifier.Percentile.{IsPercentile, p99, p99_of_latest}
use postgres_controller_back.Verifier.Counted.{recorded}
use postgres_controller_back.Verifier.Sound.{IsSound, run-IsSound}
use postgres_controller_back.Samples

p99_of_latest_example :
    IsPercentile
      (latest 1000 (9 ∷ 4 ∷ 7 ∷ []))
      (p99 (sampled (record_all 1000 (9 ∷ 4 ∷ 7 ∷ []) (empty_ring 1000))))
p99_of_latest_example = p99_of_latest (9 ∷ 4 ∷ 7 ∷ []) (omega arith)

abbrev verifier_config : Config
verifier_config = record { gvk = codes "v1/Pod"; canary_interval = pos 0; poll_interval = pos 0 }

-- A canary is written, and an event of another object comes twice.
abbrev wakes : List (Wake (λ t. t))
wakes =
    tick up Samples.draw 70 0 (record { table = Samples.rows; rung = [] })
    ∷ event 80 (to_event Samples.web)
    ∷ event 90 (to_event Samples.web)
    ∷ []

run-IsSound_example :
    IsSound (run (λ t. t) wakes (new true verifier_config))
    × (recorded (λ t. t) wakes (new true verifier_config)
          + length (run (λ t. t) wakes (new true verifier_config)).pending
        ≤ (run (λ t. t) wakes (new true verifier_config)).canary_count)
run-IsSound_example = run-IsSound (λ t. t) true verifier_config wakes
