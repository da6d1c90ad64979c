-- ===== src/Tests/Fleets.antt =====
-- A fleet and its workers at concrete steps.
use distributed_benchmark_pl.Base.{ℕ, List, ◌≤◌, ◌≡◌, refl, true, false, none, some}
use distributed_benchmark_pl.Base.Text.{to_lower}
use distributed_benchmark_pl.Botfleet.Protocol.{new_adapter, rest}
use distributed_benchmark_pl.Botfleet.Fleet.{
  Fleet, new, stop as stop_fleet, spawn_worker, send_begin, send_end, offer_sample, count_reply,
}
use distributed_benchmark_pl.Botfleet.Fleet.Ramping.{ramped, numbers, ramp_spawns}
use distributed_benchmark_pl.Botfleet.Fleet.Race.{
  Reach, Step, InFlight, Inv, start, next, spawn, begin, reply, receive, here, fleet_invariant,
  late_reply_panics,
}
use distributed_benchmark_pl.Botfleet.Fleet.Samples.{accepted, received, lost, samples_conserved}
use distributed_benchmark_pl.Base.{length, ◌+◌, ◌++◌, All, arith, [], ◌∷◌}
use distributed_benchmark_pl.Botfleet.Generator.{
  MathFunctions, Draws, orders, new_order_generator, keys, symbol_names,
}
use distributed_benchmark_pl.Botfleet.Orders.{WellFormed, orders-WellFormed}
use distributed_benchmark_pl.Worker.Pipeline.{orders_reach_snapshots}
use distributed_benchmark_pl.Botfleet.Sample.{LatencySample}
use distributed_benchmark_pl.Telemetry.{Event, sample, stop, new_telemetry_ingester, run}
use distributed_benchmark_pl.Telemetry.Drain.{received as taken_in}
use distributed_benchmark_pl.Telemetry.Counters.{sent_in, acked_in}
use distributed_benchmark_pl.Tests.Data.{three_to_five, bid, settings, flush_ok}
use distributed_benchmark_pl.Tests.Instances.{whole, Counts, counts}

abbrev spawned : Fleet ℕ
spawned = spawn_worker 0 (new three_to_five)

-- Worker 0 waits for the engine.
abbrev waiting_fleet : Fleet ℕ
waiting_fleet = send_begin 0 bid spawned

new_alive : (new {F = ℕ} three_to_five).panicked ≡ false
unfolding new
new_alive = refl

spawned_alive : spawned.panicked ≡ false
unfolding spawn_worker new_adapter new to_lower
spawned_alive = refl

abbrev reached : Reach (new three_to_five) waiting_fleet
reached = next (next start new_alive (spawn 0)) spawned_alive (begin 0 bid)

fleet_invariant_example : Inv waiting_fleet
fleet_invariant_example = fleet_invariant three_to_five waiting_fleet reached

waiting_alive : waiting_fleet.panicked ≡ false
unfolding send_begin spawn_worker new_adapter new to_lower
waiting_alive = refl

waiting-InFlight : InFlight 0 bid waiting_fleet.in_flight
unfolding send_begin
waiting-InFlight = here

late_reply_panics_example :
    let shut = (stop_fleet waiting_fleet).1 in
    let g = send_end 0 bid none 900 100 shut in
    Reach waiting_fleet shut × (shut.panicked ≡ false) × Step shut g × (g.panicked ≡ true)
late_reply_panics_example =
    late_reply_panics waiting_fleet 0 bid none 900 100 waiting_alive waiting-InFlight

known_protocol : new_adapter three_to_five.protocol ≡ some rest
unfolding new_adapter to_lower
known_protocol = refl

-- After one tick, the fourth worker runs.
ramp_spawns_example :
    (f : Fleet ℕ) × (ramped three_to_five 1 ≡ some f) × (f.workers ≡ numbers 4 0) × (f.active ≡ 4)
ramp_spawns_example =
    ramp_spawns ℕ three_to_five (omega arith, omega arith, omega arith) 1 rest known_protocol

-- Functions of package math on whole numbers, near enough to run.
abbrev whole_math : MathFunctions ℕ
whole_math = record {
  log = λ x. x;
  exp = λ x. x;
  sqrt = λ x. x;
  round = λ x. x;
  neg = λ x. 0;
  to_int = λ x. x;
}

abbrev a_draw : Draws ℕ
a_draw = record {
  symbol = 2;
  walk = 1;
  kind = 0;
  side = 1;
  spread = 0;
  quantity = 3;
  id = "order-1";
  now = 5;
}

orders-WellFormed_example :
    let r = orders whole_math (a_draw ∷ a_draw ∷ []) (new_order_generator whole_math) in
    All WellFormed r.0 × (keys r.1.prices ≡ symbol_names)
orders-WellFormed_example =
    orders-WellFormed whole_math (a_draw ∷ a_draw ∷ []) (omega arith, (omega arith, tt))

-- Worker 0 gets an error, and its sample waits in the channel.
abbrev replied_fleet : Fleet ℕ
replied_fleet = send_end 0 bid none 900 100 waiting_fleet

abbrev replied : Reach (new three_to_five) replied_fleet
replied = next reached waiting_alive (reply 0 bid none 900 100 waiting-InFlight)

samples_conserved_example :
    (accepted replied ≡ received replied ++ replied_fleet.samples)
    × (replied_fleet.orders_acked + replied_fleet.fill_errors
        ≡ length (accepted replied) + lost replied)
samples_conserved_example = samples_conserved three_to_five replied_fleet replied

abbrev replied_sample : LatencySample
replied_sample = record {
  run_id = "run-1";
  latency_ns = 900;
  order_type = "limit";
  success = false;
  timestamp = 100;
}

replied_alive : replied_fleet.panicked ≡ false
unfolding send_end send_begin offer_sample count_reply spawn_worker new_adapter new to_lower
replied_alive = refl

replied_samples : replied_fleet.samples ≡ replied_sample ∷ []
unfolding send_end send_begin offer_sample count_reply spawn_worker new_adapter new to_lower
replied_samples = refl

-- The ingester receives the sample.
abbrev handed_out : Reach (new three_to_five) (record replied_fleet { samples = [] })
handed_out = next replied replied_alive (receive replied_sample [] replied_samples)

abbrev sample_events : List Event
sample_events = sample replied_sample ∷ stop [] flush_ok ∷ []

events_match : taken_in sample_events ≡ received handed_out
unfolding taken_in
events_match = refl

orders_reach_snapshots_example :
    let f : Fleet ℕ = record replied_fleet { samples = [] } in
    let u =
      run settings
        (new_telemetry_ingester {F = ℕ} {H = Counts} "run-1" "sub-0001" "team")
        sample_events in
    (f.orders_sent ≡ sent_in u.store + length f.samples + lost handed_out + length f.in_flight)
    × (acked_in u.store ≤ f.orders_acked)
    × (f.orders_acked ≤ acked_in u.store + length f.samples + lost handed_out)
orders_reach_snapshots_example =
    orders_reach_snapshots {F = ℕ} Counts three_to_five (record replied_fleet { samples = [] })
      handed_out settings "run-1" "sub-0001" "team" sample_events events_match refl (tt, (refl, tt))
