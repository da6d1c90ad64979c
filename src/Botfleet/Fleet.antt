-- ===== src/Botfleet/Fleet.antt =====
-- backend/services/botfleet/fleet.go and worker.go. The fleet's shared counters and channel are a
-- record; `send_begin` and `send_end` are the two halves of `sendOrder`, before and after it waits
-- for the engine. A worker is its number. The ints of the settings are their 64 bits.
pub mod Ramping
pub mod Race
pub mod Samples
use distributed_benchmark_pl.Base.{
  ℕ, zero, suc, ◌+◌, ◌-◌, ◌*◌, ◌/◌, ◌%◌, ◌^◌, String, Bool, true, false, ◌&&◌, Option, none, some,
  List, [], ◌∷◌, ◌++◌, ltb, leb, ◌==◌, length, if◌then◌else◌,
}
use distributed_benchmark_pl.Base.Float.{Float64, float, ◌<F◌}
use distributed_benchmark_pl.Botfleet.Sample.{LatencySample}
use distributed_benchmark_pl.Botfleet.Order.{
  Order, OrderType, Side, Ack, limit, market, cancel, buy, sell, order_type_text,
}
use distributed_benchmark_pl.Botfleet.Protocol.{new_adapter}

pub record FleetConfig : Type 0 where
  pub min_workers : ℕ
  pub max_workers : ℕ
  pub ramp_duration : ℕ
  pub order_rate : ℕ
  pub protocol : String
  pub run_id : String
  pub submission_id : String
  pub team_name : String

pub record FleetStats : Type 0 where
  pub total_orders_sent : ℕ
  pub total_orders_acked : ℕ
  pub total_fill_errors : ℕ
  pub total_priority_err : ℕ
  pub active_workers : ℕ

-- `samples` is the buffer of the channel, oldest first; `in_flight` holds the workers that wait for
-- the engine inside `SendOrder`. `panicked` is a send on the closed channel.
pub record Fleet (F : Type 0) : Type 0 where
  pub cfg : FleetConfig
  pub samples : List LatencySample
  pub closed : Bool
  pub workers : List ℕ
  pub active : ℕ
  pub in_flight : List (ℕ × Order F)
  pub orders_sent : ℕ
  pub orders_acked : ℕ
  pub fill_errors : ℕ
  pub priority_err : ℕ
  pub panicked : Bool

-- The buffer of the samples channel.
abbrev pub samples_cap : ℕ
samples_cap = 100000

unfoldable pub new : {F : Type 0} → FleetConfig → Fleet F
new cfg = record {
  cfg = cfg;
  samples = [];
  closed = false;
  workers = [];
  active = 0;
  in_flight = [];
  orders_sent = 0;
  orders_acked = 0;
  fill_errors = 0;
  priority_err = 0;
  panicked = false;
}

-- spawnWorker: a protocol without an adapter spawns nothing.
unfoldable pub spawn_worker : {F : Type 0} → ℕ → Fleet F → Fleet F
spawn_worker id f = elim (new_adapter f.cfg.protocol) [
  | none ↦ f
  | some adapter ↦ record f { workers = f.workers ++ id ∷ []; active = f.active + 1 }
]

-- n > 0 for the int with the bits `n`
abbrev pub is_positive : ℕ → Bool
is_positive n = ltb 0 n && ltb n (2 ^ 63)

-- for i := 0; i < count; i++ { f.spawnWorker(ctx, start + i) }
pub spawn_from : {F : Type 0} → ℕ → ℕ → Fleet F → Fleet F
spawn_from zero start f = f
spawn_from (suc count) start f = spawn_from count ((start + 1) % 2 ^ 64) (spawn_worker start f)

-- What `Start` leaves to the ramp: the first number, how many workers, and the interval.
pub record Ramp : Type 0 where
  pub start_idx : ℕ
  pub count : ℕ
  pub interval : ℕ

-- f.cfg.MaxWorkers - f.cfg.MinWorkers
unfoldable pub remaining : FleetConfig → ℕ
remaining cfg = (cfg.max_workers + (2 ^ 64 - cfg.min_workers)) % 2 ^ 64

-- Start: `none` is the error of an unsupported protocol.
unfoldable pub start : {F : Type 0} → Fleet F → Option (Fleet F × Option Ramp)
unfolding remaining
start f = elim (new_adapter f.cfg.protocol) [
  | none ↦ none
  | some adapter ↦
      let ramp : Ramp = record {
        start_idx = f.cfg.min_workers;
        count = remaining f.cfg;
        interval = f.cfg.ramp_duration / remaining f.cfg;
      } in
      some (
        spawn_from (if is_positive f.cfg.min_workers then f.cfg.min_workers else 0) 0 f,
        if is_positive (remaining f.cfg) && is_positive f.cfg.ramp_duration
            then some ramp
            else none,
      )
]

-- rampUp after `ticks` ticks of its ticker, none of which found the context done.
unfoldable pub ramp_up : {F : Type 0} → Ramp → ℕ → Fleet F → Fleet F
ramp_up r ticks f = spawn_from (if ltb ticks r.count then ticks else r.count) r.start_idx f

unfoldable pub current_stats : {F : Type 0} → Fleet F → FleetStats
current_stats f = record {
  total_orders_sent = f.orders_sent;
  total_orders_acked = f.orders_acked;
  total_fill_errors = f.fill_errors;
  total_priority_err = f.priority_err;
  active_workers = f.active;
}

-- The deferred f.active.Add(-1) of a worker whose `Run` returned.
unfoldable pub worker_exits : {F : Type 0} → Fleet F → Fleet F
worker_exits f = record f { active = f.active - 1 }

-- Stop: the channel is closed after the wait, and the counters are read.
unfoldable pub stop : {F : Type 0} → Fleet F → FleetStats × Fleet F
unfolding current_stats
stop f = (current_stats f, record f { closed = true })

-- Worker.Run: the rate in use, and the nanoseconds between two orders.
unfoldable pub effective_rate : ℕ → ℕ
effective_rate rate = if is_positive rate then rate else 10

unfoldable pub order_interval : ℕ → ℕ
order_interval rate = 1000000000 / effective_rate rate

-- The non-blocking send: on a closed channel it panics, on a full one it drops the sample.
unfoldable pub offer_sample : {F : Type 0} → LatencySample → Fleet F → Fleet F
offer_sample s f =
    if f.closed
    then record f { panicked = true }
    else if ltb (length f.samples) samples_cap
    then record f { samples = f.samples ++ s ∷ [] }
    else f

unfoldable pub remove_in_flight : {F : Type 0} → ℕ → List (ℕ × Order F) → List (ℕ × Order F)
remove_in_flight w [] = []
remove_in_flight w ((v, o) ∷ l) = if v == w then l else (v, o) ∷ remove_in_flight w l

abbrev pub is_limit : OrderType → Bool
is_limit limit = true
is_limit market = false
is_limit cancel = false

abbrev pub is_some {ℓ} : {A : Type ℓ} → Option A → Bool
is_some none = false
is_some (some a) = true

module _ {F : Type 0} ⦃fl : Float64 F⦄ where
  -- A fill worse than the limit.
  abbrev pub worse_fill : Side → F → F → Bool
  worse_fill buy fill price = price <F fill
  worse_fill sell fill price = fill <F price

  unfoldable pub is_priority_error : Order F → Ack F → Bool
  is_priority_error o ack =
      (float 0 <F ack.fill_price && is_limit o.type) && worse_fill o.side ack.fill_price o.price

  unfoldable pub send_begin : ℕ → Order F → Fleet F → Fleet F
  send_begin w o f = record f { orders_sent = f.orders_sent + 1; in_flight = (w, o) ∷ f.in_flight }

  abbrev pub sample_of : Fleet F → Order F → Bool → ℕ → ℕ → LatencySample
  sample_of f o success latency sent_at = record {
    run_id = f.cfg.run_id;
    latency_ns = latency;
    order_type = order_type_text o.type;
    success = success;
    timestamp = sent_at;
  }

  -- The counters after the reply; `none` is an error of `SendOrder`.
  unfoldable pub count_reply : Order F → Option (Ack F) → Fleet F → Fleet F
  unfolding is_priority_error
  count_reply o none f = record f { fill_errors = f.fill_errors + 1 }
  count_reply o (some ack) f = record f {
    orders_acked = f.orders_acked + 1;
    priority_err = f.priority_err + (if is_priority_error o ack then 1 else 0);
  }

  unfoldable pub send_end : ℕ → Order F → Option (Ack F) → ℕ → ℕ → Fleet F → Fleet F
  unfolding count_reply offer_sample
  send_end w o reply latency sent_at f =
      let g = count_reply o reply f in
      let h = record g { in_flight = remove_in_flight w g.in_flight } in
      offer_sample (sample_of f o (is_some reply) latency sent_at) h
