-- ===== src/LoadTest/Ranks.antt =====
-- A percentile against its definition by nearest rank.
use native.Mathlib.Nat.{mod-le, mod-lt, mul-le-mul_right}
use go_lang_domain_based_ent.LoadTest.{
  at, insert_sorted, percentile, percentile_index, rank_of, rounded, share_p50, share_p90,
  share_p99, share_p999, sort_latencies, unit_of,
}
use go_lang_domain_based_ent.Prelude.{
  All, Bool, Bool-cases, List, [], ap, arith, false, if◌then◌else◌, inl, inr, leb, length, ltb,
  refl, select, suc, true, zero, ℕ, ◌%◌, ◌*◌, ◌+◌, ◌-◌, ◌<◌, ◌∙◌, ◌∷◌, ◌≡◌, ◌≤◌, ◌⊎◌,
}

-- Each number is at most the ones behind it.
abbrev pub IsSorted : List ℕ → Type 0
IsSorted [] = Unit
IsSorted (x ∷ xs) = All (λ y. x ≤ y) xs × IsSorted xs

-- At least this share of the latencies, in tenths of a percent, is at most `v`, and at most that
-- share is below `v`.
pub record IsRank (tenths : ℕ) (latencies : List ℕ) (v : ℕ) : Type 0 where
  pub reached : tenths * length latencies ≤ 1000 * length (select (λ x. leb x v) latencies)
  pub first : 1000 * length (select (λ x. ltb x v) latencies) ≤ tenths * length latencies

pub length-insert_sorted : (x : ℕ) (xs : List ℕ) → length (insert_sorted x xs) ≡ length xs + 1
unfolding insert_sorted
length-insert_sorted x [] = omega arith
length-insert_sorted x (y ∷ ys) = ground (arith, length-insert_sorted x ys)

pub length-sort_latencies : (xs : List ℕ) → length (sort_latencies xs) ≡ length xs
unfolding sort_latencies
length-sort_latencies [] = refl
length-sort_latencies (x ∷ xs) =
    length-insert_sorted x (sort_latencies xs)
    ∙ ap (λ n. n + 1) (length-sort_latencies xs)
    ∙ omega arith

select-insert_sorted :
    (q : ℕ → Bool) (x : ℕ) (xs : List ℕ)
    → length (select q (insert_sorted x xs)) ≡ length (select q (x ∷ xs))
unfolding insert_sorted
select-insert_sorted q x [] = refl
select-insert_sorted q x (y ∷ ys) = ground (arith, select-insert_sorted q x ys)

select-sort_latencies :
    (q : ℕ → Bool) (xs : List ℕ) → length (select q (sort_latencies xs)) ≡ length (select q xs)
unfolding sort_latencies
select-sort_latencies q [] = refl
select-sort_latencies q (x ∷ xs) =
    ground (arith, select-insert_sorted q x (sort_latencies xs), select-sort_latencies q xs)

none_below : (v : ℕ) (xs : List ℕ) → All (λ y. v ≤ y) xs → length (select (λ x. ltb x v) xs) ≡ 0
none_below v [] h = refl
none_below v (x ∷ xs) (k, h) = ground (arith, none_below v xs h)

-- In a sorted list, a later place holds no less.
pub at_above : (b j : ℕ) (xs : List ℕ) → j < length xs → All (λ y. b ≤ y) xs → b ≤ at j xs
at_above b j [] h all = omega arith
at_above b zero (x ∷ xs) h (k, all) = k
at_above b (suc j) (x ∷ xs) h (k, all) = at_above b j xs (omega arith) all

-- At a place of a sorted list, what comes before is at most the number there, and what is below
-- it comes before.
at_reached :
    (i : ℕ) (xs : List ℕ)
    → IsSorted xs
    → i < length xs
    → i < length (select (λ x. leb x (at i xs)) xs)
at_reached i [] s h = omega arith
at_reached zero (x ∷ xs) s h = ground arith
at_reached (suc i) (x ∷ xs) (below, s) h =
    ground (arith, at_reached i xs s (omega arith), at_above x i xs (omega arith) below)

at_first :
    (i : ℕ) (xs : List ℕ)
    → IsSorted xs
    → i < length xs
    → length (select (λ x. ltb x (at i xs)) xs) ≤ i
at_first i [] s h = omega arith
at_first zero (x ∷ xs) (below, s) h = ground (arith, none_below x xs below)
at_first (suc i) (x ∷ xs) (below, s) h = ground (arith, at_first i xs s (omega arith))

unit_of-pos : (fuel u x : ℕ) → 0 < u → 0 < unit_of fuel u x
unfolding unit_of
unit_of-pos zero u x h = h
unit_of-pos (suc fuel) u x h = ground (arith, h, unit_of-pos fuel (2 * u) x (omega (arith, h)))

unit_of-le : (fuel u x : ℕ) → (unit_of fuel u x ≡ u) ⊎ (4503599627370496 * unit_of fuel u x ≤ x)
unfolding unit_of
unit_of-le zero u x = inl refl
unit_of-le (suc fuel) u x = elim (Bool-cases (ltb x (9007199254740992 * u))) [
  | inl narrow ↦ rw narrow (inl refl)
  | inr wide ↦
      rw wide
        (elim (unit_of-le fuel (2 * u) x) [ inl e ↦ inr (ground (arith, e, wide)) | inr h ↦ inr h ])
]

round_near :
    (x u n : ℕ) (upward : Bool)
    → 0 < u
    → u ≤ 2 * n
    → (x - x % u + (if upward then u else 0) ≤ x + 2 * n)
      × (x ≤ x - x % u + (if upward then u else 0) + 2 * n)
round_near x u n true pos h = omega (arith, mod-lt x pos, mod-le x u)
round_near x u n false pos h = omega (arith, mod-lt x pos, mod-le x u)

-- A product of `n` and a share is rounded by at most `2 * n` units.
rounded_near :
    (x n : ℕ) → 0 < n → x ≤ 9007199254740992 * n → (rounded x ≤ x + 2 * n) × (x ≤ rounded x + 2 * n)
unfolding rounded
rounded_near x n pos h =
    let u = unit_of 64 1 x in
    let small : u ≤ 2 * n = elim (unit_of-le 64 1 x) [
      | inl e ↦ omega (arith, e, pos)
      | inr le ↦ omega (arith, le, h)
    ] in
    round_near x u n _ (unit_of-pos 64 1 x (omega arith)) small

-- The rank of a percentile, where the share is near to its tenths.
rank_of_near :
    (share tenths n : ℕ)
    → 0 < n
    → n < 1099511627776
    → share * n ≤ 9007199254740992 * n
    → 1000 * (share * n) ≤ 9007199254740992 * (tenths * n) + 1000 * n
    → 9007199254740992 * (tenths * n) ≤ 1000 * (share * n) + 1000 * n
    → (tenths * n ≤ 1000 * rank_of share n) × (1000 * rank_of share n ≤ tenths * n + 1000)
rank_of_near share tenths n pos few below over under =
    let (up, down) = rounded_near (share * n) n pos below in
    (omega (arith, down, under, few), omega (arith, up, over, few))

-- A share that is near to these tenths, on a number of latencies.
pub record IsShare (share tenths n : ℕ) : Type 0 where
  pub reached : tenths * n ≤ 1000 * rank_of share n
  pub first : 1000 * rank_of share n ≤ tenths * n + 1000

pub p50-IsShare : (n : ℕ) → 0 < n → n < 1099511627776 → IsShare share_p50 500 n
p50-IsShare n pos few =
    let (low, high) =
      rank_of_near share_p50 500 n pos few (omega arith) (omega arith) (omega arith) in
    record { reached = low; first = high }

pub p90-IsShare : (n : ℕ) → 0 < n → n < 1099511627776 → IsShare share_p90 900 n
p90-IsShare n pos few =
    let (low, high) =
      rank_of_near share_p90 900 n pos few (omega arith) (omega arith) (omega arith) in
    record { reached = low; first = high }

pub p99-IsShare : (n : ℕ) → 0 < n → n < 1099511627776 → IsShare share_p99 990 n
p99-IsShare n pos few =
    let (low, high) =
      rank_of_near share_p99 990 n pos few (omega arith) (omega arith) (omega arith) in
    record { reached = low; first = high }

pub p999-IsShare : (n : ℕ) → 0 < n → n < 1099511627776 → IsShare share_p999 999 n
p999-IsShare n pos few =
    let (low, high) =
      rank_of_near share_p999 999 n pos few (omega arith) (omega arith) (omega arith) in
    record { reached = low; first = high }

-- The index is within the list, and is the rank less one but at the end of it.
percentile_index_rank :
    (share tenths n : ℕ)
    → 0 < tenths * n
    → tenths * n ≤ 1000 * n
    → 0 < n
    → IsShare share tenths n
    → (tenths * n ≤ 1000 * (percentile_index share n + 1))
      × (1000 * percentile_index share n ≤ tenths * n)
      × (percentile_index share n < n)
percentile_index_rank share tenths n some_share a_share pos h = ground (arith, h.reached, h.first)

percentile_sorted :
    (share tenths : ℕ) (sorted : List ℕ)
    → 0 < tenths
    → tenths ≤ 1000
    → IsSorted sorted
    → (0 < length sorted → IsShare share tenths (length sorted))
    → IsRank tenths sorted (percentile share sorted)
unfolding percentile
percentile_sorted share tenths [] h k s near = record { reached = omega arith; first = omega arith }
percentile_sorted share tenths (x ∷ xs) h k s near =
    let n = length (x ∷ xs) in
    let idx = percentile_index share n in
    let some_share : 1 * n ≤ tenths * n = mul-le-mul_right n h in
    let a_share : tenths * n ≤ 1000 * n = mul-le-mul_right n k in
    let (reaches, precedes, within) =
      percentile_index_rank share tenths n (omega (arith, some_share)) a_share (omega arith)
        (near (omega arith)) in
    let up = at_reached idx (x ∷ xs) s within in
    let down = at_first idx (x ∷ xs) s within in
    record { reached = omega (arith, up, reaches); first = omega (arith, down, precedes) }

pub percentile-IsRank :
    (share tenths : ℕ) (latencies : List ℕ)
    → 0 < tenths
    → tenths ≤ 1000
    → IsSorted (sort_latencies latencies)
    → (0 < length (sort_latencies latencies)
        → IsShare share tenths (length (sort_latencies latencies)))
    → IsRank tenths latencies (percentile share (sort_latencies latencies))
percentile-IsRank share tenths latencies h k s near =
    let ranked = percentile_sorted share tenths (sort_latencies latencies) h k s near in
    let v = percentile share (sort_latencies latencies) in
    let part = ap (λ n. tenths * n) (length-sort_latencies latencies) in
    record {
      reached = omega (arith, ranked.reached, part, select-sort_latencies (λ x. leb x v) latencies);
      first = omega (arith, ranked.first, part, select-sort_latencies (λ x. ltb x v) latencies);
    }
