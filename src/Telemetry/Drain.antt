-- ===== src/Telemetry/Drain.antt =====
-- What becomes of the samples: `received` says, without the ingester, which samples the loop takes
-- before it returns.
use distributed_benchmark_pl.Base.{
  ℕ, ◌+◌, ◌≡◌, Bool, true, false, List, [], ◌∷◌, arith, All, length, String, total,
}
use distributed_benchmark_pl.Base.Float.{Float64}
use distributed_benchmark_pl.Models.{Config}
use distributed_benchmark_pl.Botfleet.Sample.{LatencySample}
use distributed_benchmark_pl.Telemetry.Hdr.{Histogram}
use distributed_benchmark_pl.Telemetry.{
  TelemetryIngester, FlushEnv, Event, ctx_done, stop, sample, closed, ticked, is_final, ingest,
  drain_remaining, flush, handle, run, new_telemetry_ingester,
}
use distributed_benchmark_pl.Telemetry.Counters.{
  Inserts, sent_in, acked_in, fill_errors_in, Accounts, run-Accounts,
}

-- A stop drains the channel; a cancelled context leaves what the channel holds.
unfoldable pub received : List Event → List LatencySample
received [] = []
received (ctx_done env ∷ es) = []
received (stop rest env ∷ es) = rest
received (sample s ∷ es) = s ∷ received es
received (closed env ∷ es) = []
received (ticked env ∷ es) = received es

-- Some event of the list makes `Run` return.
abbrev pub returns : List Event → Bool
returns [] = false
returns (e ∷ es) = elim (is_final e) [ true ↦ true | false ↦ returns es ]

abbrev pub one_if : Bool → ℕ
one_if true = 1
one_if false = 0

abbrev pub successes : List LatencySample → ℕ
successes = total (λ s. one_if s.success)

module _ {F H : Type 0} ⦃fl : Float64 F⦄ ⦃hdr : Histogram H⦄ where
  -- The totals after `t` has taken in `ss`.
  pub record Took (t u : TelemetryIngester F H) (ss : List LatencySample) : Type 0 where
    pub sent : u.total_sent ≡ t.total_sent + length ss
    pub acked : u.total_acked ≡ t.total_acked + successes ss

  pub ingest-Took : (t : TelemetryIngester F H) (s : LatencySample) → Took t (ingest t s) (s ∷ [])
  unfolding ingest
  ingest-Took t s = ground arith

  pub drain_remaining-Took :
      (t : TelemetryIngester F H) (ss : List LatencySample) → Took t (drain_remaining t ss) ss
  unfolding drain_remaining
  drain_remaining-Took t [] = omega arith
  drain_remaining-Took t (s ∷ ss) =
      ground (arith, ingest-Took t s, drain_remaining-Took (ingest t s) ss)

  pub flush-Took :
      (cfg : Config F) (t : TelemetryIngester F H) (env : FlushEnv) → Took t (flush cfg t env) []
  unfolding flush
  flush-Took cfg t env = ground arith

  pub run-Took :
      (cfg : Config F) (t : TelemetryIngester F H) (es : List Event)
      → Took t (run cfg t es) (received es)
  unfolding run handle received
  run-Took cfg t [] = omega arith
  run-Took cfg t (ctx_done env ∷ es) = flush-Took cfg t env
  run-Took cfg t (stop rest env ∷ es) =
      ground (arith, drain_remaining-Took t rest, flush-Took cfg (drain_remaining t rest) env)
  run-Took cfg t (sample s ∷ es) = ground (arith, ingest-Took t s, run-Took cfg (ingest t s) es)
  run-Took cfg t (closed env ∷ es) = flush-Took cfg t env
  run-Took cfg t (ticked env ∷ es) =
      ground (arith, flush-Took cfg t env, run-Took cfg (flush cfg t env) es)

  -- The window is empty after a flush, so it is when `Run` has returned.
  pub flush_empties :
      (cfg : Config F) (t : TelemetryIngester F H) (env : FlushEnv)
      → ((flush cfg t env).window_sent ≡ 0)
        × ((flush cfg t env).window_acked ≡ 0)
        × ((flush cfg t env).window_fill_err ≡ 0)
  unfolding flush
  flush_empties cfg t env = ground arith

  pub run_empties :
      (cfg : Config F) (t : TelemetryIngester F H) (es : List Event)
      → returns es ≡ true
      → ((run cfg t es).window_sent ≡ 0)
        × ((run cfg t es).window_acked ≡ 0)
        × ((run cfg t es).window_fill_err ≡ 0)
  unfolding run handle
  run_empties cfg t [] r = cc
  run_empties cfg t (ctx_done env ∷ es) r = flush_empties cfg t env
  run_empties cfg t (stop rest env ∷ es) r = flush_empties cfg (drain_remaining t rest) env
  run_empties cfg t (sample s ∷ es) r = run_empties cfg (ingest t s) es r
  run_empties cfg t (closed env ∷ es) r = flush_empties cfg t env
  run_empties cfg t (ticked env ∷ es) r = run_empties cfg (flush cfg t env) es r

module _ {F : Type 0} (H : Type 0) ⦃fl : Float64 F⦄ ⦃hdr : Histogram H⦄ where
  new-Accounts :
      (run_id submission_id team_name : String)
      → Accounts (new_telemetry_ingester {F = F} {H = H} run_id submission_id team_name)
  unfolding new_telemetry_ingester
  new-Accounts run_id submission_id team_name = omega arith

  -- When `Run` of a new ingester has returned and every insert succeeded, the stored snapshots
  -- together count each received sample once: as sent, and as acked or a fill error by its result.
  pub run_accounts_for_received :
      (cfg : Config F) (run_id submission_id team_name : String) (es : List Event)
      → returns es ≡ true
      → All Inserts es
      → let t = new_telemetry_ingester {F = F} {H = H} run_id submission_id team_name in
        let u = run cfg t es in
        (sent_in u.store ≡ length (received es))
        × (acked_in u.store ≡ successes (received es))
        × (fill_errors_in u.store + acked_in u.store ≡ length (received es))
  unfolding new_telemetry_ingester
  run_accounts_for_received cfg run_id submission_id team_name es r ok =
      let t : TelemetryIngester F H = new_telemetry_ingester run_id submission_id team_name in
      ground (
        arith,
        run-Accounts cfg t es ok (new-Accounts run_id submission_id team_name),
        run-Took cfg t es,
        run_empties cfg t es r,
      )
