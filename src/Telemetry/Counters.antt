-- ===== src/Telemetry/Counters.antt =====
-- The counters of the ingester: what a window and the totals say, whatever the events.
use distributed_benchmark_pl.Base.{
  ℕ, ◌+◌, ◌≡◌, All-append, true, List, [], ◌∷◌, arith, All, total, total-append,
}
use distributed_benchmark_pl.Base.Float.{Float64}
use distributed_benchmark_pl.Models.{MetricSnapshot, Config}
use distributed_benchmark_pl.Botfleet.Sample.{LatencySample}
use distributed_benchmark_pl.Telemetry.Hdr.{Histogram}
use distributed_benchmark_pl.Telemetry.{
  TelemetryIngester, FlushEnv, Event, ctx_done, stop, sample, closed, ticked, ingest,
  drain_remaining, snapshot_of, flush, handle, run,
}

-- The insert of a flush succeeds.
abbrev pub Inserts : Event → Type 0
Inserts (ctx_done env) = env.insert_ok ≡ true
Inserts (stop rest env) = env.insert_ok ≡ true
Inserts (sample s) = Unit
Inserts (closed env) = env.insert_ok ≡ true
Inserts (ticked env) = env.insert_ok ≡ true

module _ {F : Type 0} where
  abbrev pub sent_in : List (MetricSnapshot F) → ℕ
  sent_in = total (λ s. s.orders_sent)

  abbrev pub acked_in : List (MetricSnapshot F) → ℕ
  acked_in = total (λ s. s.orders_acked)

  abbrev pub fill_errors_in : List (MetricSnapshot F) → ℕ
  fill_errors_in = total (λ s. s.fill_errors)

-- Each order sent is acked or a fill error, and each count is the sum over the stored windows and
-- the open one.
pub record Accounts {F H : Type 0} (t : TelemetryIngester F H) : Type 0 where
  pub window : t.window_sent ≡ t.window_acked + t.window_fill_err
  pub balanced : t.total_sent ≡ t.total_acked + t.total_fill_err
  pub sent : sent_in t.store + t.window_sent ≡ t.total_sent
  pub acked : acked_in t.store + t.window_acked ≡ t.total_acked
  pub fill_err : fill_errors_in t.store + t.window_fill_err ≡ t.total_fill_err

pub record IsPriorityFree {F : Type 0} (s : MetricSnapshot F) : Type 0 where
  pub uncounted : s.priority_errors ≡ 0

-- No priority error is ever counted.
pub record NoPriorityErrors {F H : Type 0} (t : TelemetryIngester F H) : Type 0 where
  pub window : t.window_prio_err ≡ 0
  pub totals : t.total_prio_err ≡ 0
  pub stored : All IsPriorityFree t.store

module _ {F H : Type 0} ⦃fl : Float64 F⦄ ⦃hdr : Histogram H⦄ where
  pub ingest-Accounts :
      (t : TelemetryIngester F H) (s : LatencySample) → Accounts t → Accounts (ingest t s)
  unfolding ingest
  ingest-Accounts t s a = ground arith

  pub drain_remaining-Accounts :
      (t : TelemetryIngester F H) (ss : List LatencySample)
      → Accounts t
      → Accounts (drain_remaining t ss)
  unfolding drain_remaining
  drain_remaining-Accounts t [] a = a
  drain_remaining-Accounts t (s ∷ ss) a =
      drain_remaining-Accounts (ingest t s) ss (ingest-Accounts t s a)

  pub flush-Accounts :
      (cfg : Config F) (t : TelemetryIngester F H) (env : FlushEnv)
      → env.insert_ok ≡ true
      → Accounts t
      → Accounts (flush cfg t env)
  unfolding flush snapshot_of
  flush-Accounts cfg t env ok a = ground (
    arith,
    total-append (λ (s : MetricSnapshot F). s.orders_sent) t.store (snapshot_of cfg t ∷ []),
    total-append (λ (s : MetricSnapshot F). s.orders_acked) t.store (snapshot_of cfg t ∷ []),
    total-append (λ (s : MetricSnapshot F). s.fill_errors) t.store (snapshot_of cfg t ∷ []),
  )

  pub handle-Accounts :
      (cfg : Config F) (t : TelemetryIngester F H) (e : Event)
      → Inserts e
      → Accounts t
      → Accounts (handle cfg t e)
  unfolding handle
  handle-Accounts cfg t (ctx_done env) ok a = flush-Accounts cfg t env ok a
  handle-Accounts cfg t (stop rest env) ok a =
      flush-Accounts cfg _ env ok (drain_remaining-Accounts t rest a)
  handle-Accounts cfg t (sample s) ok a = ingest-Accounts t s a
  handle-Accounts cfg t (closed env) ok a = flush-Accounts cfg t env ok a
  handle-Accounts cfg t (ticked env) ok a = flush-Accounts cfg t env ok a

  pub run-Accounts :
      (cfg : Config F) (t : TelemetryIngester F H) (es : List Event)
      → All Inserts es
      → Accounts t
      → Accounts (run cfg t es)
  unfolding run
  run-Accounts cfg t [] ok a = a
  run-Accounts cfg t (e ∷ es) ok a =
      let now = handle-Accounts cfg t e ok.0 a in
      ground (arith, now, run-Accounts cfg (handle cfg t e) es ok.1 now)

  -- The ingester adds to no priority counter, so each snapshot that it stores says 0.
  pub ingest-NoPriorityErrors :
      (t : TelemetryIngester F H) (s : LatencySample)
      → NoPriorityErrors t
      → NoPriorityErrors (ingest t s)
  unfolding ingest
  ingest-NoPriorityErrors t s n = ground arith

  drain_remaining-NoPriorityErrors :
      (t : TelemetryIngester F H) (ss : List LatencySample)
      → NoPriorityErrors t
      → NoPriorityErrors (drain_remaining t ss)
  unfolding drain_remaining
  drain_remaining-NoPriorityErrors t [] n = n
  drain_remaining-NoPriorityErrors t (s ∷ ss) n =
      drain_remaining-NoPriorityErrors (ingest t s) ss (ingest-NoPriorityErrors t s n)

  snapshot_of-IsPriorityFree :
      (cfg : Config F) (t : TelemetryIngester F H)
      → t.window_prio_err ≡ 0
      → IsPriorityFree (snapshot_of cfg t)
  unfolding snapshot_of
  snapshot_of-IsPriorityFree cfg t w = record { uncounted = w }

  flush-NoPriorityErrors :
      (cfg : Config F) (t : TelemetryIngester F H) (env : FlushEnv)
      → NoPriorityErrors t
      → NoPriorityErrors (flush cfg t env)
  unfolding flush
  flush-NoPriorityErrors cfg t env n = ground (
    arith,
    All-append IsPriorityFree t.store (snapshot_of cfg t ∷ []) n.stored
        (snapshot_of-IsPriorityFree cfg t n.window, tt),
  )

  handle-NoPriorityErrors :
      (cfg : Config F) (t : TelemetryIngester F H) (e : Event)
      → NoPriorityErrors t
      → NoPriorityErrors (handle cfg t e)
  unfolding handle
  handle-NoPriorityErrors cfg t (ctx_done env) n = flush-NoPriorityErrors cfg t env n
  handle-NoPriorityErrors cfg t (stop rest env) n =
      flush-NoPriorityErrors cfg _ env (drain_remaining-NoPriorityErrors t rest n)
  handle-NoPriorityErrors cfg t (sample s) n = ingest-NoPriorityErrors t s n
  handle-NoPriorityErrors cfg t (closed env) n = flush-NoPriorityErrors cfg t env n
  handle-NoPriorityErrors cfg t (ticked env) n = flush-NoPriorityErrors cfg t env n

  -- Whatever the samples, an ingester that has counted no priority error counts none: its window, its
  -- total and each snapshot that it stores have 0 of them.
  pub run-NoPriorityErrors :
      (cfg : Config F) (t : TelemetryIngester F H) (es : List Event)
      → NoPriorityErrors t
      → NoPriorityErrors (run cfg t es)
  unfolding run
  run-NoPriorityErrors cfg t [] n = n
  run-NoPriorityErrors cfg t (e ∷ es) n =
      let now = handle-NoPriorityErrors cfg t e n in
      ground (arith, now, run-NoPriorityErrors cfg (handle cfg t e) es now)
