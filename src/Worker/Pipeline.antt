-- ===== src/Worker/Pipeline.antt =====
-- The fleet and the ingester as processRun of backend/workers/benchmark_worker.go joins them: the
-- ingester receives what the fleet's channel hands out.
use distributed_benchmark_pl.Base.{
  ℕ, ◌+◌, ◌-◌, ◌≤◌, ◌≡◌, refl, sym, ap, ◌∙◌, Bool, true, false, Option, none, some, List, [], ◌∷◌,
  arith, All, String, length, length-append, ltb, total-append, Bool-cases, Option-cases, inl, inr,
}
use distributed_benchmark_pl.Base.Float.{Float64}
use distributed_benchmark_pl.Models.{Config}
use distributed_benchmark_pl.Botfleet.Sample.{LatencySample}
use distributed_benchmark_pl.Botfleet.Order.{Order, Ack}
use distributed_benchmark_pl.Botfleet.Protocol.{new_adapter}
use distributed_benchmark_pl.Botfleet.Fleet.{
  Fleet, FleetConfig, new, spawn_worker, send_begin, send_end, count_reply, offer_sample,
  worker_exits, stop, samples_cap, sample_of, is_some,
}
use distributed_benchmark_pl.Botfleet.Fleet.Race.{
  Reach, spawn, begin, reply, receive, exit, close, start, next, fleet_invariant,
}
use distributed_benchmark_pl.Botfleet.Fleet.Samples.{
  taken, accepted, received, lost, samples_conserved,
}
use distributed_benchmark_pl.Telemetry.Hdr.{Histogram}
use distributed_benchmark_pl.Telemetry.{Event, new_telemetry_ingester, run}
use distributed_benchmark_pl.Telemetry.Counters.{Inserts, sent_in, acked_in}
use distributed_benchmark_pl.Telemetry.Drain.{
  received as taken_in, returns, one_if, successes, run_accounts_for_received,
}

one_if-le : (b : Bool) → one_if b ≤ 1
one_if-le true = omega arith
one_if-le false = omega arith

successes-le : (ss : List LatencySample) → successes ss ≤ length ss
successes-le [] = omega arith
successes-le (s ∷ ss) = omega (arith, one_if-le s.success, successes-le ss)

module _ {F : Type 0} ⦃fl : Float64 F⦄ where
  -- A sample that the channel takes has the result of its order.
  successes-taken :
      (s : LatencySample) (f : Fleet F)
      → (successes (taken s f) ≤ one_if s.success)
        × (one_if s.success ≤ successes (taken s f) + (1 - length (taken s f)))
  successes-taken s f = elim (Bool-cases f.closed) [
    | inl shut ↦ rw shut (omega arith, omega (arith, one_if-le s.success))
    | inr accepts ↦ elim (Bool-cases (ltb (length f.samples) samples_cap)) [
      | inl room ↦ rw (accepts, room) (omega arith, omega arith)
      | inr full ↦ rw (accepts, full) (omega arith, omega (arith, one_if-le s.success))
    ]
  ]

  send_end-acked :
      (w : ℕ) (o : Order F) (a : Option (Ack F)) (latency sent_at : ℕ) (f : Fleet F)
      → (send_end w o a latency sent_at f).orders_acked ≡ f.orders_acked + one_if (is_some a)
  unfolding send_end offer_sample count_reply
  send_end-acked w o none latency sent_at f = ground arith
  send_end-acked w o (some ack) latency sent_at f = ground arith

  spawn_worker-acked : (id : ℕ) (f : Fleet F) → (spawn_worker id f).orders_acked ≡ f.orders_acked
  unfolding spawn_worker
  spawn_worker-acked id f = elim (Option-cases (new_adapter f.cfg.protocol)) [
    | inl unknown ↦ rw (spawn_worker, unknown) refl
    | inr (adapter, known) ↦ rw (spawn_worker, known) refl
  ]

  -- The acknowledged orders have a sample that says so, taken by the channel or lost.
  acked-successes :
      (cfg : FleetConfig) (f : Fleet F) (r : Reach (new cfg) f)
      → (successes (accepted r) ≤ f.orders_acked)
        × (f.orders_acked ≤ successes (accepted r) + lost r)
  unfolding new send_begin worker_exits stop
  acked-successes cfg _ start = (omega arith, omega arith)
  acked-successes cfg _ (next {g} r alive (spawn id)) =
      let ih = acked-successes cfg g r in
      (omega (arith, ih.0, spawn_worker-acked id g), omega (arith, ih.1, spawn_worker-acked id g))
  acked-successes cfg _ (next {g} r alive (begin w o)) = acked-successes cfg g r
  acked-successes cfg _ (next {g} r alive (reply w o a latency sent_at i)) =
      let ih = acked-successes cfg g r in
      let end = send_end-acked w o a latency sent_at g in
      let s = sample_of g o (is_some a) latency sent_at in
      let sum = total-append (λ x. one_if x.success) (accepted r) (taken s g) in
      let one = successes-taken s g in
      (omega (arith, end, ih.0, sum, one.0), omega (arith, end, ih.1, sum, one.1))
  acked-successes cfg _ (next {g} r alive (receive s rest e)) = acked-successes cfg g r
  acked-successes cfg _ (next {g} r alive exit) = acked-successes cfg g r
  acked-successes cfg _ (next {g} r alive close) = acked-successes cfg g r

module _ {F : Type 0} (H : Type 0) ⦃fl : Float64 F⦄ ⦃hdr : Histogram H⦄ where
  -- When an ingester received exactly what the channel of a new fleet handed out, has returned, and every
  -- insert succeeded: each order that the fleet sent is counted in the stored snapshots, or its sample is still
  -- in the channel or lost, or it still waits for the engine; and the stored acknowledgments are at most the
  -- acknowledged orders, and short of them by at most the waiting and the lost samples.
  pub orders_reach_snapshots :
      (fleet_cfg : FleetConfig) (f : Fleet F) (r : Reach (new fleet_cfg) f) (cfg : Config F)
      (run_id submission_id team_name : String) (es : List Event)
      → taken_in es ≡ received r
      → returns es ≡ true
      → All Inserts es
      → let t = new_telemetry_ingester {F = F} {H = H} run_id submission_id team_name in
        let u = run cfg t es in
        (f.orders_sent ≡ sent_in u.store + length f.samples + lost r + length f.in_flight)
        × (acked_in u.store ≤ f.orders_acked)
        × (f.orders_acked ≤ acked_in u.store + length f.samples + lost r)
  orders_reach_snapshots fleet_cfg f r cfg run_id submission_id team_name es same done ok =
      let stored = run_accounts_for_received H cfg run_id submission_id team_name es done ok in
      let inv = fleet_invariant fleet_cfg f r in
      let kept = samples_conserved fleet_cfg f r in
      let acks = acked-successes fleet_cfg f r in
      let sent : length (accepted r) ≡ length (taken_in es) + length f.samples =
        ap (λ l. length l) kept.0
        ∙ length-append (received r) f.samples
        ∙ ap (λ l. length l + length f.samples) (sym same) in
      let acked : successes (accepted r) ≡ successes (taken_in es) + successes f.samples =
        ap successes kept.0
        ∙ total-append (λ x. one_if x.success) (received r) f.samples
        ∙ ap (λ l. successes l + successes f.samples) (sym same) in
      (
        omega (arith, inv.counted, kept.1, sent, stored.0),
        omega (arith, acks.0, acked, stored.1),
        omega (arith, acks.1, acked, stored.1, successes-le f.samples),
      )
