-- ===== src/LoadTest.antt =====
-- cmd/loadtest/main.go: the metrics of a load test and their summary. A latency is a number of
-- microseconds, where the code divides by 1000.0 to milliseconds. The place of a percentile is computed
-- in float64, with its rounding; the average and the rate are rounded down to whole numbers.
pub mod Client
pub mod Workers
pub mod Mixed
pub mod Scenario
pub mod Orders
pub mod Summaries
pub mod Ranks
pub mod Ends
pub mod Rounds
pub mod Termination
pub mod Laws
pub mod Tests
use go_lang_domain_based_ent.Prelude.{
  Bool, List, Option, [], if◌then◌else◌, leb, length, ltb, none, some, suc, zero, ℕ, ◌%◌, ◌&&◌, ◌*◌,
  ◌++◌, ◌+◌, ◌-◌, ◌/◌, ◌||◌, ◌∷◌,
}

pub record Metrics : Type 0 where
  pub latencies : List ℕ
  pub total : ℕ
  pub success : ℕ
  pub failed : ℕ
  pub status_count : List (ℕ × ℕ)
  pub start_time : ℕ

abbrev pub new_metrics : ℕ → Metrics
new_metrics t = record {
  latencies = [];
  total = 0;
  success = 0;
  failed = 0;
  status_count = [];
  start_time = t;
}

abbrev pub same_status : ℕ → ℕ → Bool
same_status a b = leb a b && leb b a

-- `m.statusCount[status]++`
unfoldable pub count_status : ℕ → List (ℕ × ℕ) → List (ℕ × ℕ)
count_status status [] = (status, 1) ∷ []
count_status status ((own, n) ∷ counts) =
    let others = count_status status counts in
    if same_status own status then (own, n + 1) ∷ counts else (own, n) ∷ others

-- `status >= 200 && status < 500`
abbrev pub is_success : ℕ → Bool
is_success status = leb 200 status && ltb status 500

unfoldable pub record_request : ℕ → ℕ → Metrics → Metrics
record_request duration status m = record {
  latencies = m.latencies ++ duration ∷ [];
  total = m.total + 1;
  success = if is_success status then m.success + 1 else m.success;
  failed = if is_success status then m.failed else m.failed + 1;
  status_count = count_status status m.status_count;
  start_time = m.start_time;
}

-- `sort.Float64s`
unfoldable pub insert_sorted : ℕ → List ℕ → List ℕ
insert_sorted x [] = x ∷ []
insert_sorted x (y ∷ ys) =
    let later = insert_sorted x ys in if leb x y then x ∷ y ∷ ys else y ∷ later

unfoldable pub sort_latencies : List ℕ → List ℕ
sort_latencies [] = []
sort_latencies (x ∷ xs) = insert_sorted x (sort_latencies xs)

-- `sorted[idx]`, for an index within the list.
abbrev pub at : ℕ → List ℕ → ℕ
at idx [] = 0
at zero (x ∷ xs) = x
at (suc idx) (x ∷ xs) = at idx xs

-- A float64 below 2 ^ 64, in units of 2 ^ -53: the distance of its neighbours, where the fuel covers
-- the size.
unfoldable pub unit_of : ℕ → ℕ → ℕ → ℕ
unit_of zero u x = u
unit_of (suc fuel) u x =
    let wider = unit_of fuel (2 * u) x in if ltb x (9007199254740992 * u) then u else wider

-- The rounding of a product to 53 bits, to the nearest and a tie to the even one.
unfoldable pub rounded : ℕ → ℕ
rounded x =
    let u = unit_of 64 1 x in
    let r = x % u in
    x - r + (if ltb u (2 * r) || same_status u (2 * r) && same_status (x / u % 2) 1 then u else 0)

-- The float64 values of 50/100.0, 90/100.0, 99/100.0 and 99.9/100.0 in these units.
abbrev pub share_p50 : ℕ
share_p50 = 4503599627370496

abbrev pub share_p90 : ℕ
share_p90 = 8106479329266893

abbrev pub share_p99 : ℕ
share_p99 = 8917127262193582

abbrev pub share_p999 : ℕ
share_p999 = 8998192055486252

-- int(math.Ceil(p/100.0*float64(len(sorted)))), with p/100.0 as above.
abbrev pub rank_of : ℕ → ℕ → ℕ
rank_of share n = (rounded (share * n) + 9007199254740991) / 9007199254740992

-- The rank less one, held between 0 and the last index.
abbrev pub percentile_index : ℕ → ℕ → ℕ
percentile_index share n = let idx = rank_of share n - 1 in if leb n idx then n - 1 else idx

unfoldable pub percentile : ℕ → List ℕ → ℕ
percentile share [] = 0
percentile share (x ∷ xs) = at (percentile_index share (length (x ∷ xs))) (x ∷ xs)

abbrev pub sum : List ℕ → ℕ
sum [] = 0
sum (x ∷ xs) = x + sum xs

abbrev pub avg : List ℕ → ℕ
avg [] = 0
avg (x ∷ xs) = sum (x ∷ xs) / length (x ∷ xs)

-- `float64(m.total) / elapsed`, in requests per second: +Inf where no time has elapsed.
abbrev pub rate : ℕ → ℕ → Option ℕ
rate total elapsed = if leb elapsed 0 then none else some (1000000 * total / elapsed)

pub record Summary : Type 0 where
  pub total_requests : ℕ
  pub success : ℕ
  pub failed : ℕ
  pub rps : Option ℕ
  pub p50 : ℕ
  pub p90 : ℕ
  pub p99 : ℕ
  pub p999 : ℕ
  pub min_latency : ℕ
  pub max_latency : ℕ
  pub avg_latency : ℕ
  pub status_count : List (ℕ × ℕ)
  pub elapsed : ℕ

abbrev pub empty_summary : Summary
empty_summary = record {
  total_requests = 0;
  success = 0;
  failed = 0;
  rps = some 0;
  p50 = 0;
  p90 = 0;
  p99 = 0;
  p999 = 0;
  min_latency = 0;
  max_latency = 0;
  avg_latency = 0;
  status_count = [];
  elapsed = 0;
}

abbrev pub summary_of : List ℕ → ℕ → Metrics → Summary
summary_of sorted elapsed m = record {
  total_requests = m.total;
  success = m.success;
  failed = m.failed;
  rps = rate m.total elapsed;
  p50 = percentile share_p50 sorted;
  p90 = percentile share_p90 sorted;
  p99 = percentile share_p99 sorted;
  p999 = percentile share_p999 sorted;
  min_latency = at 0 sorted;
  max_latency = at (length sorted - 1) sorted;
  avg_latency = avg sorted;
  status_count = m.status_count;
  elapsed = elapsed;
}

abbrev pub snapshot_of : List ℕ → ℕ → Metrics → Summary
snapshot_of [] elapsed m = empty_summary
snapshot_of (x ∷ xs) elapsed m = summary_of (sort_latencies (x ∷ xs)) elapsed m

-- `Snapshot` at a time.
unfoldable pub snapshot : ℕ → Metrics → Summary
snapshot t m = snapshot_of m.latencies (t - m.start_time) m
