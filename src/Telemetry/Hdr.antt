-- ===== src/Telemetry/Hdr.antt =====
-- What the ingester uses of hdrhistogram-go: a parameter of the model, with what its documentation
-- says of it.
use distributed_benchmark_pl.Base.{ℕ, ◌+◌, ◌*◌, ◌≤◌, ◌≡◌, Option, none, some}

pub record Histogram (H : Type 0) : Type 0 where
  -- New(lowest, highest, significant digits)
  pub new : ℕ → ℕ → ℕ → H
  -- RecordValue; `none` is its error
  pub record_value : H → ℕ → Option H
  pub total_count : H → ℕ
  pub highest_trackable_value : H → ℕ
  pub value_at_quantile : H → ℕ → ℕ
  pub reset : H → H

pub record IsHistogram (H : Type 0) ⦃hdr : Histogram H⦄ : Type 0 where
  pub highest-new : (lo hi digits : ℕ) → hdr.highest_trackable_value (hdr.new lo hi digits) ≡ hi
  pub highest-reset :
      (h : H) → hdr.highest_trackable_value (hdr.reset h) ≡ hdr.highest_trackable_value h
  pub count-new : (lo hi digits : ℕ) → hdr.total_count (hdr.new lo hi digits) ≡ 0
  pub count-reset : (h : H) → hdr.total_count (hdr.reset h) ≡ 0
  pub count-record :
      (h h' : H) (v : ℕ)
      → hdr.record_value h v ≡ some h'
      → hdr.total_count h' ≡ hdr.total_count h + 1
  -- A value is out of range at twice the highest trackable value at the latest.
  pub refuses :
      (h : H) (v : ℕ) → 2 * hdr.highest_trackable_value h ≤ v → hdr.record_value h v ≡ none
  pub quantile_mono :
      (h : H) (p q : ℕ) → p ≤ q → hdr.value_at_quantile h p ≤ hdr.value_at_quantile h q
