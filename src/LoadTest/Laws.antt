-- ===== src/LoadTest/Laws.antt =====
-- What a summary says of the requests that were recorded.
use mathlib.Core.List.{append-nil, append_assoc}
use go_lang_domain_based_ent.LoadTest.{
  Metrics, Summary, at, count_status, empty_summary, insert_sorted, is_success, new_metrics,
  percentile, percentile_index, rate, record_request, same_status, share_p50, share_p90, share_p99,
  share_p999, snapshot, snapshot_of, sort_latencies, summary_of,
}
use go_lang_domain_based_ent.LoadTest.Ranks.{
  IsRank, IsShare, IsSorted, at_above, length-sort_latencies, p50-IsShare, p90-IsShare, p99-IsShare,
  p999-IsShare, percentile-IsRank,
}
use go_lang_domain_based_ent.LoadTest.Scenario.{Recorded, record_all}
use go_lang_domain_based_ent.Prelude.{
  All, Bool-cases, List, [], ap, arith, if◌then◌else◌, inl, inr, leb, length, length-append, not,
  refl, select, subst, suc, sym, zero, ℕ, ◌*◌, ◌++◌, ◌+◌, ◌-◌, ◌<◌, ◌∙◌, ◌∷◌, ◌≡◌, ◌≤◌, ◌⊎◌,
}

-- The number of requests with a status, as the map of a summary gives it.
abbrev pub count_at : ℕ → List (ℕ × ℕ) → ℕ
count_at status [] = 0
count_at status ((own, n) ∷ counts) =
    let later = count_at status counts in if same_status own status then n else later

count_at-count_status :
    (asked status : ℕ) (counts : List (ℕ × ℕ))
    → count_at asked (count_status status counts)
      ≡ count_at asked counts + (if same_status status asked then 1 else 0)
unfolding count_status
count_at-count_status asked status [] = ground arith
count_at-count_status asked status ((own, n) ∷ counts) =
    ground (arith, count_at-count_status asked status counts)

All-insert_sorted :
    (b x : ℕ) (xs : List ℕ) → b ≤ x → All (λ y. b ≤ y) xs → All (λ y. b ≤ y) (insert_sorted x xs)
unfolding insert_sorted
All-insert_sorted b x [] h all = (h, tt)
All-insert_sorted b x (y ∷ ys) h (k, all) = elim (Bool-cases (leb x y)) [
  | inl e ↦ rw e (h, (k, all))
  | inr e ↦ rw e (k, All-insert_sorted b x ys h all)
]

All-le : (b c : ℕ) (xs : List ℕ) → b ≤ c → All (λ y. c ≤ y) xs → All (λ y. b ≤ y) xs
All-le b c [] h all = tt
All-le b c (x ∷ xs) h (k, all) = (omega arith, All-le b c xs h all)

insert_sorted-IsSorted : (x : ℕ) (xs : List ℕ) → IsSorted xs → IsSorted (insert_sorted x xs)
unfolding insert_sorted
insert_sorted-IsSorted x [] h = (tt, tt)
insert_sorted-IsSorted x (y ∷ ys) (below, h) = elim (Bool-cases (leb x y)) [
  | inl e ↦ rw e ((ground arith, All-le x y ys (ground arith) below), (below, h))
  | inr e ↦ rw e (All-insert_sorted y x ys (ground arith) below, insert_sorted-IsSorted x ys h)
]

sort_latencies-IsSorted : (xs : List ℕ) → IsSorted (sort_latencies xs)
unfolding sort_latencies
sort_latencies-IsSorted [] = tt
sort_latencies-IsSorted (x ∷ xs) = insert_sorted-IsSorted x _ (sort_latencies-IsSorted xs)

at_le : (i j : ℕ) (xs : List ℕ) → IsSorted xs → i ≤ j → j < length xs → at i xs ≤ at j xs
at_le i j [] s h k = omega arith
at_le zero zero (x ∷ xs) s h k = omega arith
at_le zero (suc j) (x ∷ xs) (below, s) h k = at_above x j xs (omega arith) below
at_le (suc i) zero (x ∷ xs) s h k = omega arith
at_le (suc i) (suc j) (x ∷ xs) (below, s) h k = at_le i j xs s (omega arith) (omega arith)

-- A greater share has a place that is no earlier.
percentile_index_le :
    (p q tenths more n : ℕ)
    → tenths * n < more * n
    → IsShare p tenths n
    → IsShare q more n
    → percentile_index p n ≤ percentile_index q n
percentile_index_le p q tenths more n h near near' = ground (arith, near.first, near'.reached)

-- The index of a percentile lies within a list that is not empty.
percentile_index_lt : (p n : ℕ) → 0 < n → percentile_index p n < n
percentile_index_lt p n h = ground arith

-- The latencies of a summary in their order.
pub record IsOrdered (s : Summary) : Type 0 where
  pub min_p50 : s.min_latency ≤ s.p50
  pub p50_p90 : s.p50 ≤ s.p90
  pub p90_p99 : s.p90 ≤ s.p99
  pub p99_p999 : s.p99 ≤ s.p999
  pub p999_max : s.p999 ≤ s.max_latency

summary_of-IsOrdered :
    (sorted : List ℕ) (elapsed : ℕ) (m : Metrics)
    → IsSorted sorted
    → 0 < length sorted
    → length sorted < 1099511627776
    → IsOrdered (summary_of sorted elapsed m)
unfolding percentile
summary_of-IsOrdered [] elapsed m s h few = omega arith
summary_of-IsOrdered (x ∷ xs) elapsed m s h few =
    let all = x ∷ xs in
    let n = length all in
    let ordered : (i j : ℕ) → i ≤ j → j < n → at i all ≤ at j all =
      λ i j k l. at_le i j all s k l in
    let within : (p : ℕ) → percentile_index p n < n = λ p. percentile_index_lt p n h in
    let near = p90-IsShare n h few in
    let near' = p99-IsShare n h few in
    record {
      min_p50 = ordered 0 (percentile_index share_p50 n) (omega arith) (within share_p50);
      p50_p90 =
          ordered _ _
            (percentile_index_le _ _ 500 900 n (omega (arith, h)) (p50-IsShare n h few) near)
            (within share_p90);
      p90_p99 =
          ordered _ _ (percentile_index_le _ _ 900 990 n (omega (arith, h)) near near')
            (within share_p99);
      p99_p999 =
          ordered _ _
            (percentile_index_le _ _ 990 999 n (omega (arith, h)) near' (p999-IsShare n h few))
            (within share_p999);
      p999_max =
          ordered (percentile_index share_p999 n) (n - 1) (omega (arith, within share_p999))
            (omega arith);
    }

-- How the counters of the metrics follow a sequence of requests.
pub record_all-counts :
    (requests : List (ℕ × ℕ)) (m : Metrics)
    → (length (record_all requests m).latencies ≡ length m.latencies + length requests)
      × ((record_all requests m).total ≡ m.total + length requests)
      × ((record_all requests m).success
          ≡ m.success + length (select (λ r. is_success r.1) requests))
      × ((record_all requests m).failed
          ≡ m.failed + length (select (λ r. not (is_success r.1)) requests))
      × ((record_all requests m).start_time ≡ m.start_time)
unfolding record_request
record_all-counts [] m = (omega arith, omega arith, omega arith, omega arith, refl)
record_all-counts ((duration, status) ∷ rest) m =
    let (kept, total, success, failed, begun) =
      record_all-counts rest (record_request duration status m) in
    (
      ground (arith, kept, length-append m.latencies (duration ∷ [])),
      ground (arith, total),
      ground (arith, success),
      ground (arith, failed),
      begun,
    )

-- The counts by status follow it too.
pub record_all-count_at :
    (asked : ℕ) (requests : List Recorded) (m : Metrics)
    → count_at asked (record_all requests m).status_count
      ≡ count_at asked m.status_count + length (select (λ r. same_status r.1 asked) requests)
unfolding record_request
record_all-count_at asked [] m = omega arith
record_all-count_at asked ((duration, status) ∷ rest) m = ground (
  arith,
  record_all-count_at asked rest (record_request duration status m),
  count_at-count_status asked status m.status_count,
)

-- The latencies that are recorded, in their order.
abbrev pub latencies_of : List Recorded → List ℕ
latencies_of [] = []
latencies_of ((duration, status) ∷ rest) = duration ∷ latencies_of rest

pub record_all-latencies :
    (requests : List Recorded) (m : Metrics)
    → (record_all requests m).latencies ≡ m.latencies ++ latencies_of requests
unfolding record_request
record_all-latencies [] m = sym (append-nil m.latencies)
record_all-latencies ((duration, status) ∷ rest) m =
    record_all-latencies rest (record_request duration status m)
    ∙ append_assoc m.latencies (duration ∷ []) (latencies_of rest)

-- A summary of these requests: each is counted once, as a success from 200 to 499 and as a failure
-- otherwise, and once under its status; the percentiles ascend, and each is within one place of that
-- of the latencies by nearest rank.
pub record IsReport (requests : List Recorded) (elapsed : ℕ) (s : Summary) : Type 0 where
  pub total : s.total_requests ≡ length requests
  pub success : s.success ≡ length (select (λ r. is_success r.1) requests)
  pub failed : s.failed ≡ length (select (λ r. not (is_success r.1)) requests)
  pub statuses :
      (status : ℕ)
      → count_at status s.status_count ≡ length (select (λ r. same_status r.1 status) requests)
  pub ordered : IsOrdered s
  pub p50 : IsRank 500 (latencies_of requests) s.p50
  pub p90 : IsRank 900 (latencies_of requests) s.p90
  pub p99 : IsRank 990 (latencies_of requests) s.p99
  pub p999 : IsRank 999 (latencies_of requests) s.p999
  pub rated : (s.elapsed ≡ elapsed) × (s.rps ≡ rate (length requests) elapsed) ⊎ (requests ≡ [])

latencies_of-IsRank :
    (share tenths : ℕ) (latencies : List ℕ) (requests : List Recorded)
    → latencies ≡ latencies_of requests
    → 0 < tenths
    → tenths ≤ 1000
    → (0 < length (sort_latencies latencies)
        → IsShare share tenths (length (sort_latencies latencies)))
    → IsRank tenths (latencies_of requests) (percentile share (sort_latencies latencies))
latencies_of-IsRank share tenths latencies requests same h k near =
    subst (λ l. IsRank tenths l (percentile share (sort_latencies latencies))) same
      (percentile-IsRank share tenths latencies h k (sort_latencies-IsSorted latencies) near)

none_recorded : (requests : List Recorded) → [] ≡ latencies_of requests → requests ≡ []
none_recorded [] e = refl
none_recorded (r ∷ rest) e = cc

snapshot_of-IsReport :
    (latencies : List ℕ) (requests : List Recorded) (elapsed : ℕ) (m : Metrics)
    → length requests < 1099511627776
    → latencies ≡ latencies_of requests
    → length latencies ≡ length requests
    → m.total ≡ length requests
    → m.success ≡ length (select (λ r. is_success r.1) requests)
    → m.failed ≡ length (select (λ r. not (is_success r.1)) requests)
    → ((status : ℕ)
        → count_at status m.status_count ≡ length (select (λ r. same_status r.1 status) requests))
    → IsReport requests elapsed (snapshot_of latencies elapsed m)
snapshot_of-IsReport [] requests elapsed m few same none_there total success failed counts =
    subst (λ l. IsReport l elapsed empty_summary) (sym (none_recorded requests same))
      (record {
        total = refl;
        success = refl;
        failed = refl;
        statuses = λ status. refl;
        ordered = record {
          min_p50 = omega arith;
          p50_p90 = omega arith;
          p90_p99 = omega arith;
          p99_p999 = omega arith;
          p999_max = omega arith;
        };
        p50 = record { reached = omega arith; first = omega arith };
        p90 = record { reached = omega arith; first = omega arith };
        p99 = record { reached = omega arith; first = omega arith };
        p999 = record { reached = omega arith; first = omega arith };
        rated = inr refl;
      })
snapshot_of-IsReport (x ∷ xs) requests elapsed m few same there total success failed counts =
    let fewer : length (sort_latencies (x ∷ xs)) < 1099511627776 =
      omega (arith, length-sort_latencies (x ∷ xs), there, few) in
    record {
      total = total;
      success = success;
      failed = failed;
      statuses = counts;
      ordered =
          summary_of-IsOrdered (sort_latencies (x ∷ xs)) elapsed m
            (sort_latencies-IsSorted (x ∷ xs)) (omega (arith, length-sort_latencies (x ∷ xs)))
            fewer;
      p50 =
          latencies_of-IsRank share_p50 500 (x ∷ xs) requests same (omega arith) (omega arith)
            (λ pos. p50-IsShare _ pos fewer);
      p90 =
          latencies_of-IsRank share_p90 900 (x ∷ xs) requests same (omega arith) (omega arith)
            (λ pos. p90-IsShare _ pos fewer);
      p99 =
          latencies_of-IsRank share_p99 990 (x ∷ xs) requests same (omega arith) (omega arith)
            (λ pos. p99-IsShare _ pos fewer);
      p999 =
          latencies_of-IsRank share_p999 999 (x ∷ xs) requests same (omega arith) (omega arith)
            (λ pos. p999-IsShare _ pos fewer);
      rated = inl (refl, ap (λ n. rate n elapsed) total);
    }

-- The summary of fewer than 2 ^ 40 requests at a time counts each of them once, as a success or a
-- failure and under its status; its percentiles ascend from the least to the greatest latency, and
-- for each at least its share of the latencies is no greater and at most its share is smaller; and,
-- where there is a request, its rate is that of the time since the start.
pub snapshot-IsReport :
    (requests : List Recorded) (start t : ℕ)
    → length requests < 1099511627776
    → IsReport requests (t - start) (snapshot t (record_all requests (new_metrics start)))
unfolding snapshot
snapshot-IsReport requests start t few =
    let m = record_all requests (new_metrics start) in
    let (kept, total, success, failed, begun) = record_all-counts requests (new_metrics start) in
    subst (λ b. IsReport requests (t - start) (snapshot_of m.latencies (t - b) m)) (sym begun)
      (snapshot_of-IsReport m.latencies requests (t - start) m few
        (record_all-latencies requests (new_metrics start)) (omega (arith, kept))
        (omega (arith, total)) (omega (arith, success)) (omega (arith, failed))
        (λ status. record_all-count_at status requests (new_metrics start) ∙ omega arith))
