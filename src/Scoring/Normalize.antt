-- ===== src/Scoring/Normalize.antt =====
-- The scores of normalizeScores in backend/services/scoring_service.go.
use distributed_benchmark_pl.Base.{◌≡◌, true, arith}
use distributed_benchmark_pl.Base.Float.{Float64, IsOrdered, IsNumber, float, ◌-F◌, ◌*F◌, ◌/F◌}
use distributed_benchmark_pl.Models.{MetricAggregate, Config}
use distributed_benchmark_pl.Scoring.{clamp, log_base10, normalize_scores}

module _ {F : Type 0} ⦃fl : Float64 F⦄ (laws : IsOrdered F) where
  abbrev pub Within : F → F → F → Type 0
  Within lo hi x = (fl.le lo x ≡ true) × (fl.le x hi ≡ true)

  -- Between two numbers in order, a value that is not NaN is clamped into the range.
  pub clamp-Within : (v lo hi : F) → IsNumber v → fl.le lo hi ≡ true → Within lo hi (clamp v lo hi)
  unfolding clamp
  clamp-Within v lo hi n h = ground (
    arith,
    laws.le_number lo hi h,
    laws.le_of_not_lt v lo n (laws.le_number lo hi h).0,
    laws.le_of_not_lt hi v (laws.le_number lo hi h).1 n,
  )

  clamp_mono :
      (v w lo hi : F)
      → fl.le v w ≡ true
      → fl.le lo hi ≡ true
      → fl.le (clamp v lo hi) (clamp w lo hi) ≡ true
  unfolding clamp
  clamp_mono v w lo hi le h = ground (
    arith,
    laws.le_number lo hi h,
    laws.le_number v w le,
    laws.le_of_not_lt v lo (laws.le_number v w le).0 (laws.le_number lo hi h).0,
    laws.le_of_not_lt w lo (laws.le_number v w le).1 (laws.le_number lo hi h).0,
    laws.le_of_not_lt hi v (laws.le_number lo hi h).1 (laws.le_number v w le).0,
    laws.le_of_not_lt hi w (laws.le_number lo hi h).1 (laws.le_number v w le).1,
    laws.le_of_lt w lo,
    laws.le_trans v w lo le,
    laws.not_lt_of_le lo v,
    laws.not_lt_of_le v hi,
    laws.le_trans v w hi le,
    laws.le_of_lt hi v,
    laws.not_lt_of_le w hi,
    laws.not_lt_of_le v lo,
    laws.le_trans lo v w,
    laws.le_trans lo hi v,
    laws.not_lt_of_le lo w,
  )

  -- The values that `normalizeScores` clamps are numbers.
  pub record HasNumbers (agg : MetricAggregate F) : Type 0 where
    pub latency : IsNumber (float 100 *F (float 1 -F log_base10 agg.avg_p99_ms /F float 2))
    pub throughput : IsNumber (float 100 *F (log_base10 agg.peak_tps -F float 2) /F float 3)
    pub correctness : IsNumber (agg.correctness *F float 100)
    pub stability : IsNumber agg.uptime_pct

  range : fl.le (float 0) (float 100) ≡ true
  range = laws.of_int_mono 0 100 (omega arith)

  -- For floats with the laws of IEEE 754, each of the four scores lies between 0 and 100, whatever
  -- the metrics, if the values that are clamped are not NaN.
  pub scores_in_range :
      (cfg : Config F) (agg : MetricAggregate F)
      → HasNumbers agg
      → let s = normalize_scores cfg agg in
        Within (float 0) (float 100) s.latency
        × Within (float 0) (float 100) s.throughput
        × Within (float 0) (float 100) s.correctness
        × Within (float 0) (float 100) s.stability
  unfolding normalize_scores
  scores_in_range cfg agg n =
      let ends = laws.le_number (float 0) (float 100) range in
      let clamped = λ (v : F) (h : IsNumber v). clamp-Within v (float 0) (float 100) h range in
      (
        ground (arith, range, ends, clamped _ n.latency),
        ground (arith, range, ends, clamped _ n.throughput),
        clamped _ n.correctness,
        clamped _ n.stability,
      )
