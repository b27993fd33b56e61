-- ===== src/LoadTest/Polling.antt =====
-- loadtest/cmd/loadtest/phase5_poll.go: the collectors of the doorbell test and of the drill without
-- doorbells, and the verdict. The watchers and the writer run as modelled elsewhere.
use postgres_controller_back.Base.{
  ℕ, ◌+◌, ◌-◌, ◌*◌, ◌/◌, ◌≡◌, ◌≤◌, refl, Bool, true, not, ◌&&◌, Option, none, some, List, [], ◌∷◌,
  ◌++◌, length, map, ltb, if◌then◌else◌, ok, err, arith, All,
}
use postgres_controller_back.Base.Int.{ℤ}
use postgres_controller_back.Base.Text.{Text, codes, text_eq}
use postgres_controller_back.Json.{num, obj, member, end}
use postgres_controller_back.Strconv.{format_uint}
use postgres_controller_back.Model.{WriteRequest}
use postgres_controller_back.Reader.Poll.{Event}
use postgres_controller_back.Verifier.Percentile.{sort}
use postgres_controller_back.LoadTest.Floats.{Floats, percentile}
use postgres_controller_back.LoadTest.Report.{PhaseResult}
use postgres_controller_back.LoadTest.Ceiling.{Quantiles}
use postgres_controller_back.LoadTest.Traffic.{Call, phase_request, exceeds}

-- `phase5-db` or `phase5-loss`, and the number of the write.
unfoldable pub polling_request : Text → Text → ℕ → WriteRequest
unfolding phase_request
polling_request gvk namespace i =
    phase_request gvk namespace (namespace ++ codes "-" ++ format_uint i)
      (obj (member (codes "i") (num (format_uint i)) end))

-- The writes of a phase; each that fails is counted.
unfoldable pub write_all : (ℕ → WriteRequest) → ℕ → List Call → ℕ → ℕ
write_all request i [] errors = errors
write_all request i (c ∷ cs) errors = elim (c.answer (request i)) [
  | ok r ↦ write_all request (i + 1) cs errors
  | err e ↦ write_all request (i + 1) cs (errors + 1)
]

-- What a collector's select takes: an event, with the time and what the map of write times has for its
-- name, the end of the channel, or the deadline.
pub data Received : Type 0 where
  event : Event → ℕ → Option ℕ → Received
  closed deadline : Received

-- The events counted, and the latencies of those whose write time was known.
pub record Collector : Type 0 where
  pub collected : ℕ
  pub latencies : List ℕ

abbrev pub known_latency : ℕ → Option ℕ → List ℕ
known_latency now none = []
known_latency now (some written) = (now - written) ∷ []

unfoldable pub collect_event : Text → Event → ℕ → Option ℕ → Collector → Collector
collect_event namespace e now written c =
    if text_eq e.resource.namespace namespace
    then record {
      collected = c.collected + 1;
      latencies = c.latencies ++ known_latency now written;
    }
    else c

-- A collector goes on until it has as many events as there are writes.
unfoldable pub collect : Text → ℕ → List Received → Collector → Collector
unfolding collect_event
collect namespace write_count [] c = c
collect namespace write_count (closed ∷ rs) c = c
collect namespace write_count (deadline ∷ rs) c = c
collect namespace write_count (event e now written ∷ rs) c =
    let rest = collect namespace write_count rs (collect_event namespace e now written c) in
    if ltb c.collected write_count then rest else c

abbrev pub new_collector : Collector
new_collector = record { collected = 0; latencies = [] }

-- `lossDeliveredCount`
unfoldable pub sum_collected : List Collector → ℕ
sum_collected [] = 0
sum_collected (c ∷ cs) = c.collected + sum_collected cs

unfoldable pub all_latencies : List Collector → List ℕ
all_latencies [] = []
all_latencies (c ∷ cs) = c.latencies ++ all_latencies cs

-- `drill` is nothing if it is switched off.
unfoldable pub polling_passed : ℤ → ℕ → ℕ → ℕ → Option ℕ → Bool
unfolding exceeds
polling_passed target p99 write_count watchers none = not (exceeds target p99)
polling_passed target p99 write_count watchers (some delivered) =
    not (exceeds target p99) && not (ltb delivered (write_count * watchers))

abbrev pub drilled : ℕ → Option ℕ → ℕ
drilled write_count none = write_count
drilled write_count (some _) = write_count + write_count

module _ {F : Type 0} (fl : Floats F) (qs : Quantiles F) where
  unfoldable pub p99_of : List Collector → ℕ
  unfolding percentile sort all_latencies
  p99_of cs = percentile fl qs.most (sort (all_latencies cs))

  abbrev pub drill_p99 : Option (List Collector) → ℕ
  drill_p99 none = 0
  drill_p99 (some cs) = p99_of cs

  abbrev pub drill_total : Option (List Collector) → Option ℕ
  drill_total none = none
  drill_total (some cs) = some (sum_collected cs)

  -- From the durations of idle polls, the collectors of the doorbell test and those of the drill.
  unfoldable pub polling_result :
      ℤ → ℕ → ℕ → List ℕ → List Collector → Option (List Collector) → ℕ → ℕ → PhaseResult F
  unfolding polling_passed percentile sort p99_of all_latencies sum_collected
  polling_result target write_count watchers idle doorbell drill write_errors elapsed =
      let writes = drilled write_count (drill_total drill) in
      let idle_p99 = percentile fl qs.most (sort idle) in
      record {
        name = codes "phase5_poll";
        passed = polling_passed target (p99_of doorbell) write_count watchers (drill_total drill);
        duration = elapsed;
        total_writes = writes;
        rps = fl.over (fl.of_int writes) (fl.seconds elapsed);
        p50 = percentile fl qs.half (sort (all_latencies doorbell));
        p99 = p99_of doorbell;
        p999 = idle_p99;
        errors =
            (codes "write_errors", write_errors)
            ∷ (codes "loss_p99_ms", drill_p99 drill / 1_000_000)
            ∷ (codes "idle_p99_ms", idle_p99 / 1_000_000)
            ∷ [];
        verifier_violations = [];
        sweep = [];
        baseline = none;
      }

collect_event-le :
    (ns : Text) (e : Event) (now : ℕ) (w : Option ℕ) (c : Collector)
    → (collect_event ns e now w c).collected ≤ c.collected + 1
unfolding collect_event
collect_event-le ns e now w c = ground arith

-- A collector never counts more events than there are writes.
collect-le :
    (ns : Text) (n : ℕ) (rs : List Received) (c : Collector)
    → c.collected ≤ n
    → (collect ns n rs c).collected ≤ n
unfolding collect
collect-le ns n [] c h = h
collect-le ns n (closed ∷ rs) c h = h
collect-le ns n (deadline ∷ rs) c h = h
collect-le ns n (event e now w ∷ rs) c h =
    ground (arith, collect-le ns n rs (collect_event ns e now w c), collect_event-le ns e now w c)

sum_collected-le :
    (n : ℕ) (cs : List Collector) → All (λ c. c.collected ≤ n) cs → sum_collected cs ≤ n * length cs
unfolding sum_collected
sum_collected-le n [] h = omega arith
sum_collected-le n (c ∷ cs) h = grind (arith, sum_collected-le n cs h.1)

full_collectors :
    (n : ℕ) (cs : List Collector)
    → All (λ c. c.collected ≤ n) cs
    → n * length cs ≤ sum_collected cs
    → All (λ c. c.collected ≡ n) cs
unfolding sum_collected
full_collectors n [] h l = tt
full_collectors n (c ∷ cs) h l =
    let k : sum_collected cs ≤ n * length cs = sum_collected-le n cs h.1 in
    (grind (arith, k), full_collectors n cs h.1 (grind (arith, k)))

-- The collectors of a drill, one for each watcher.
abbrev pub collectors : Text → ℕ → List (List Received) → List Collector
collectors ns n rss = map (λ rs. collect ns n rs new_collector) rss

collectors-le :
    (ns : Text) (n : ℕ) (rss : List (List Received))
    → All (λ c. c.collected ≤ n) (collectors ns n rss)
collectors-le ns n [] = tt
collectors-le ns n (rs ∷ rss) =
    (collect-le ns n rs new_collector (omega arith), collectors-le ns n rss)

length-collectors :
    (ns : Text) (n : ℕ) (rss : List (List Received)) → length (collectors ns n rss) ≡ length rss
length-collectors ns n [] = refl
length-collectors ns n (rs ∷ rss) = omega (arith, length-collectors ns n rss)

-- If the phase passes with the drill on, then every watcher has delivered as many events as there were
-- writes, since none is counted for more.
pub drill_passed :
    (ns : Text) (target : ℤ) (p99 n : ℕ) (rss : List (List Received))
    → polling_passed target p99 n (length rss) (some (sum_collected (collectors ns n rss))) ≡ true
    → All (λ c. c.collected ≡ n) (collectors ns n rss)
unfolding polling_passed
drill_passed ns target p99 n rss h =
    full_collectors n (collectors ns n rss) (collectors-le ns n rss)
      (rw (length-collectors ns n rss) (ground arith))
