-- ===== src/Stats/Numbers.antt =====
-- src/stats/stats.service.ts: means, deviations and percentiles over abstract doubles.
use pureplay_analytics_inges.Prelude.{
  ℕ, Bool, not, Option, none, some, List, [], ◌∷◌, ◌++◌, map, ltb, ◌==◌, length, drop, head?, keep,
  any, is_some, if◌then◌else◌,
}
use pureplay_analytics_inges.Domain.Shot.{NormalisedShot, Vendor, vendor_eq}

-- The arithmetic that the statistics use. `square` is `Math.pow` with 2; `floor` and `ceil` give an index of an array, and `sort` is
-- the sort by `a - b`.
pub record Arithmetic (N : Type 0) : Type 0 where
  pub of_ℕ : ℕ → N
  pub add : N → N → N
  pub sub : N → N → N
  pub square : N → N
  pub mul : N → N → N
  pub div : N → N → N
  pub sqrt : N → N
  pub floor : N → ℕ
  pub ceil : N → ℕ
  pub sort : List N → List N

-- A percentile is null for few values; within it `none` is `undefined`.
pub record NumericStats (N : Type 0) : Type 0 where
  pub mean : N
  pub stdev : N
  pub p50 : Option (Option N)
  pub p90 : Option (Option N)

pub record Spread (N : Type 0) : Type 0 where
  pub mean : N
  pub stdev : N

pub record SpinStats (N : Type 0) : Type 0 where
  pub mean : Option N
  pub stdev : Option N
  pub sample_size : ℕ
  pub vendors_excluded : List Vendor

-- `[...new Set(vendors)]`
unfoldable pub distinct_vendors : List Vendor → List Vendor → List Vendor
distinct_vendors [] seen = seen
distinct_vendors (v ∷ vs) seen =
    distinct_vendors vs (if any (vendor_eq v) seen then seen else seen ++ v ∷ [])

module _ {N : Type 0} where
  abbrev pub some_of : List (Option N) → List N
  some_of [] = []
  some_of (none ∷ xs) = some_of xs
  some_of (some x ∷ xs) = x ∷ some_of xs

module _ {N : Type 0} (num : Arithmetic N) where
  abbrev sum_from : N → List N → N
  sum_from a [] = a
  sum_from a (x ∷ xs) = sum_from (num.add a x) xs

  unfoldable pub mean : List N → N
  mean values = num.div (sum_from (num.of_ℕ 0) values) (num.of_ℕ (length values))

  abbrev squares : N → List N → List N
  squares m = map λ x. num.square (num.sub x m)

  unfoldable pub stddev : List N → N
  unfolding mean
  stddev [] = num.of_ℕ 0
  stddev (x ∷ xs) = num.sqrt (mean (squares (mean (x ∷ xs)) (x ∷ xs)))

  -- `none` is `undefined`, for an index outside the array.
  unfoldable pub percentile : List N → ℕ → Option N
  percentile [] p = some (num.of_ℕ 0)
  percentile (x ∷ xs) p =
      let idx = num.mul (num.div (num.of_ℕ p) (num.of_ℕ 100)) (num.of_ℕ (length xs)) in
      elim (head? (drop (num.floor idx) (x ∷ xs))) [
        | none ↦ none
        | some low ↦
            if num.floor idx == num.ceil idx
            then some low
            else elim (head? (drop (num.ceil idx) (x ∷ xs))) [
              | none ↦ none
              | some high ↦ some (
                  num.add low (num.mul (num.sub high low) (num.sub idx (num.of_ℕ (num.floor idx)))))
            ]
      ]

  unfoldable pub numeric_stats : Bool → List N → NumericStats N
  numeric_stats low_sample values = record {
    mean = mean values;
    stdev = stddev values;
    p50 = if low_sample then none else some (percentile values 50);
    p90 = if low_sample then none else some (percentile values 90);
  }

  abbrev pub spread : List N → Spread N
  spread values = record { mean = mean values; stdev = stddev values }

  unfoldable pub spin_stats : List (NormalisedShot N) → SpinStats N
  spin_stats shots =
      let values = num.sort (some_of (map (λ s. s.spin_rpm) shots)) in
      record {
        mean = if ltb 0 (length values) then some (mean values) else none;
        stdev = if ltb 0 (length values) then some (stddev values) else none;
        sample_size = length values;
        vendors_excluded =
            distinct_vendors (map (λ s. s.vendor) (keep (λ s. not (is_some s.spin_rpm)) shots)) [];
      }
