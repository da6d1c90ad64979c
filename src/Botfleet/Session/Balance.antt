-- ===== src/Botfleet/Session/Balance.antt =====
-- What the session of a bot, in backend/services/botfleet/worker.go, leaves in the fleet's counters
-- and in its adapter.
use distributed_benchmark_pl.Base.{
  ℕ, suc, ◌+◌, ◌-◌, String, Bool, true, false, not, ◌&&◌, ◌||◌, Option, none, some, List, [], ◌∷◌,
  ◌==◌, ltb, length, if◌then◌else◌, ◌≡◌, refl, ap, sym, subst, ◌∙◌, inl, inr, arith, Bool-cases,
}
use distributed_benchmark_pl.Base.Float.{Float64}
use distributed_benchmark_pl.Botfleet.Sample.{LatencySample}
use distributed_benchmark_pl.Botfleet.Order.{Order, Ack}
use distributed_benchmark_pl.Botfleet.Protocol.{ProtocolAdapter, rest, web_socket}
use distributed_benchmark_pl.Botfleet.Fleet.{
  Fleet, send_begin, send_end, count_reply, offer_sample, remove_in_flight, worker_exits,
  samples_cap, sample_of,
}
use distributed_benchmark_pl.Botfleet.Session.{
  Adapter, fresh_adapter, connect, connect_rest, connect_web_socket, close_adapter, close_rest,
  close_web_socket, Answer, WorkerEvent, done, tick, Worker, adapter_send, send_order, worker_loop,
  after_connect, run_worker, leave, worker_goroutine,
}

abbrev pub is_rest : ProtocolAdapter → Bool
is_rest rest = true
is_rest web_socket = false

module _ {F : Type 0} where
  -- The ticks before the context is done, and whether it is.
  abbrev pub ticks : List (WorkerEvent F) → ℕ
  ticks [] = 0
  ticks (done ∷ es) = 0
  ticks (tick o r latency sent_at ∷ es) = suc (ticks es)

  abbrev pub stops : List (WorkerEvent F) → Bool
  stops [] = false
  stops (done ∷ es) = true
  stops (tick o r latency sent_at ∷ es) = stops es

  -- From f to g, n orders are sent, and answered with an acknowledgment or an error.
  abbrev pub Counted : ℕ → Fleet F → Fleet F → Type 0
  Counted n f g =
      (g.orders_sent ≡ f.orders_sent + n)
      × (g.orders_acked + g.fill_errors ≡ f.orders_acked + f.fill_errors + n)
      × (g.in_flight ≡ f.in_flight)

  -- The channel accepts samples, and no worker has panicked.
  abbrev pub Open : Fleet F → Type 0
  Open f = (f.closed ≡ false) × (f.panicked ≡ false)

  -- A sample changes none of these.
  offer_sample-Counted :
      (n : ℕ) (f : Fleet F) (s : LatencySample) (g : Fleet F)
      → Counted n f g
      → g.active ≡ f.active
      → Counted n f (offer_sample s g) × ((offer_sample s g).active ≡ f.active)
  unfolding offer_sample
  offer_sample-Counted n f s g counted active = elim (Bool-cases g.closed) [
    | inl shut ↦ rw shut (counted, active)
    | inr accepts ↦ elim (Bool-cases (ltb (length g.samples) samples_cap)) [
      | inl room ↦ rw (accepts, room) (counted, active)
      | inr full ↦ rw (accepts, full) (counted, active)
    ]
  ]

module _ {F : Type 0} ⦃fl : Float64 F⦄ where
  abbrev without : ℕ → Fleet F → Fleet F
  without w g = record g { in_flight = remove_in_flight w g.in_flight }

  answered-Counted :
      (w : ℕ) (o : Order F) (reply : Option (Ack F)) (latency sent_at : ℕ) (f : Fleet F)
      → Counted 1 f (send_end w o reply latency sent_at (send_begin w o f))
        × ((send_end w o reply latency sent_at (send_begin w o f)).active ≡ f.active)
  unfolding send_end send_begin count_reply remove_in_flight
  answered-Counted w o none latency sent_at f =
      let own : (w == w) ≡ true = ground arith in
      offer_sample-Counted 1 f (sample_of (send_begin w o f) o false latency sent_at)
        (without w (count_reply o none (send_begin w o f))) (refl, omega arith, rw own refl) refl
  answered-Counted w o (some ack) latency sent_at f =
      let own : (w == w) ≡ true = ground arith in
      offer_sample-Counted 1 f (sample_of (send_begin w o f) o true latency sent_at)
        (without w (count_reply o (some ack) (send_begin w o f))) (refl, omega arith, rw own refl)
        refl

  -- A reply on an open channel leaves it open and does not panic.
  answered-Open :
      (w : ℕ) (o : Order F) (reply : Option (Ack F)) (latency sent_at : ℕ) (f : Fleet F)
      → Open f
      → Open (send_end w o reply latency sent_at (send_begin w o f))
  unfolding send_end send_begin count_reply offer_sample
  answered-Open w o none latency sent_at f accepts = ground (arith, accepts)
  answered-Open w o (some ack) latency sent_at f accepts = ground (arith, accepts)

  worker_loop-tick :
      (id : ℕ) (a : Adapter) (o : Order F) (r : Answer F) (latency sent_at : ℕ)
      (es : List (WorkerEvent F)) (f : Fleet F)
      → (send_order id a o r latency sent_at f).panicked ≡ false
      → worker_loop id a (tick o r latency sent_at ∷ es) f
        ≡ worker_loop id a es (send_order id a o r latency sent_at f)
  unfolding worker_loop
  worker_loop-tick id a o r latency sent_at es f alive =
      let sent = send_order id a o r latency sent_at f in
      ap (λ b. if b then (false, sent) else worker_loop id a es sent) alive

  -- The loop of Run counts each tick before the context is done.
  worker_loop-Counted :
      (id : ℕ) (a : Adapter) (es : List (WorkerEvent F)) (f : Fleet F)
      → Open f
      → Counted (ticks es) f (worker_loop id a es f).1
        × ((worker_loop id a es f).1.active ≡ f.active)
        × ((worker_loop id a es f).0 ≡ stops es)
  unfolding worker_loop send_order
  worker_loop-Counted id a [] f accepts = ((omega arith, omega arith, refl), refl, refl)
  worker_loop-Counted id a (done ∷ es) f accepts = ((omega arith, omega arith, refl), refl, refl)
  worker_loop-Counted id a (tick o r latency sent_at ∷ es) f accepts =
      let here = answered-Counted id o (adapter_send a r) latency sent_at f in
      let still = answered-Open id o (adapter_send a r) latency sent_at f accepts in
      let rest = worker_loop-Counted id a es (send_order id a o r latency sent_at f) still in
      subst
        (λ out. Counted (suc (ticks es)) f out.1 × (out.1.active ≡ f.active) × (out.0 ≡ stops es))
        (sym (worker_loop-tick id a o r latency sent_at es f still.1))
        (
          (
            omega (arith, here.0.0, rest.0.0),
            omega (arith, here.0.1, rest.0.1),
            rest.0.2 ∙ here.0.2,
          ),
          rest.1 ∙ here.1,
          rest.2,
        )

  connected_balances :
      (p : ProtocolAdapter) (endpoint : String) (id : ℕ) (target : String)
      (es : List (WorkerEvent F)) (f : Fleet F)
      → Open f
      → let a : Adapter = record {
        protocol = p;
        endpoint = endpoint;
        connected = true;
        closed = false;
      } in
        let w : Worker = record { id = id; target = target; adapter = fresh_adapter p } in
        let left = leave (after_connect w es (a, true) f) in
        let on = left.adapter.connected in
        (on ≡ true)
        × (left.returned ≡ (not on || stops es))
        × (left.adapter.closed ≡ (on && left.returned))
        × (left.fleet.active ≡ (if left.returned then f.active - 1 else f.active))
        × Counted (if on then ticks es else 0) f left.fleet
  unfolding after_connect leave close_adapter close_rest close_web_socket worker_exits
  connected_balances rest endpoint id target es f accepts =
      let a : Adapter = record {
        protocol = rest;
        endpoint = endpoint;
        connected = true;
        closed = false;
      } in
      let loop = worker_loop-Counted id a es f accepts in
      elim (Bool-cases (stops es)) [
        | inl stop ↦ simp (loop.2, stop) (refl, refl, refl, ap (λ n. n - 1) loop.1, loop.0)
        | inr goes_on ↦ simp (loop.2, goes_on) (refl, refl, refl, loop.1, loop.0)
      ]
  connected_balances web_socket endpoint id target es f accepts =
      let a : Adapter = record {
        protocol = web_socket;
        endpoint = endpoint;
        connected = true;
        closed = false;
      } in
      let loop = worker_loop-Counted id a es f accepts in
      elim (Bool-cases (stops es)) [
        | inl stop ↦ simp (loop.2, stop) (refl, refl, refl, ap (λ n. n - 1) loop.1, loop.0)
        | inr goes_on ↦ simp (loop.2, goes_on) (refl, refl, refl, loop.1, loop.0)
      ]

  -- The session of a bot with a fresh adapter in a fleet whose samples channel stays open meanwhile: it
  -- returns exactly if its Connect fails or its context is done, then closes what Connect opened, and is no longer active; it sends an order at
  -- each tick before that, none if Connect fails, and each one ends in an acknowledgment or an
  -- error.
  pub worker_balances :
      (p : ProtocolAdapter) (id : ℕ) (target : String) (dial_fails : Bool)
      (es : List (WorkerEvent F)) (f : Fleet F)
      → Open f
      → let w : Worker = record { id = id; target = target; adapter = fresh_adapter p } in
        let left = worker_goroutine w dial_fails es f in
        let on = left.adapter.connected in
        (on ≡ (is_rest p || not dial_fails))
        × (left.returned ≡ (not on || stops es))
        × (left.adapter.closed ≡ (on && left.returned))
        × (left.fleet.active ≡ (if left.returned then f.active - 1 else f.active))
        × Counted (if on then ticks es else 0) f left.fleet
  unfolding worker_goroutine run_worker after_connect connect connect_rest connect_web_socket
      fresh_adapter close_adapter close_rest close_web_socket leave worker_exits
  worker_balances rest id target dial_fails es f accepts =
      connected_balances rest _ id target es f accepts
  worker_balances web_socket id target true es f accepts =
      (refl, refl, refl, refl, (omega arith, omega arith, refl))
  worker_balances web_socket id target false es f accepts =
      connected_balances web_socket _ id target es f accepts
