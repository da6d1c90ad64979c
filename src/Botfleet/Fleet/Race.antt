-- ===== src/Botfleet/Fleet/Race.antt =====
-- The fleet's goroutines as steps: workers send and get replies, the ingester receives, the ramp
-- spawns, workers exit, and Stop closes the channel after its wait of 500 ms.
use distributed_benchmark_pl.Base.{
  ℕ, ◌+◌, ◌≤◌, ◌≡◌, ◌≢◌, refl, ap, true, false, Option, none, some, List, [], ◌∷◌, arith, length,
  length-append,
}
use distributed_benchmark_pl.Base.Float.{Float64}
use distributed_benchmark_pl.Botfleet.Sample.{LatencySample}
use distributed_benchmark_pl.Botfleet.Order.{Order, Ack}
use distributed_benchmark_pl.Botfleet.Fleet.{
  Fleet, FleetConfig, new, spawn_worker, send_begin, send_end, count_reply, offer_sample,
  remove_in_flight, worker_exits, stop, samples_cap,
}

module _ {F : Type 0} where
  -- Worker `w` waits inside SendOrder with the order `o`.
  pub data InFlight (w : ℕ) (o : Order F) : List (ℕ × Order F) → Type 0 where
    here : {l : List (ℕ × Order F)} → InFlight w o ((w, o) ∷ l)
    there :
        {v : ℕ} {p : Order F} {l : List (ℕ × Order F)}
        → v ≢ w
        → InFlight w o l
        → InFlight w o ((v, p) ∷ l)

module _ {F : Type 0} ⦃fl : Float64 F⦄ where
  -- One step of some goroutine. A worker whose context is done may still begin a send, since
  -- `select` takes either of two ready cases.
  pub data Step (f : Fleet F) : Fleet F → Type 0 where
    spawn : (id : ℕ) → Step f (spawn_worker id f)
    begin : (w : ℕ) (o : Order F) → Step f (send_begin w o f)
    reply :
        (w : ℕ) (o : Order F) (r : Option (Ack F)) (latency sent_at : ℕ)
        → InFlight w o f.in_flight
        → Step f (send_end w o r latency sent_at f)
    receive :
        (s : LatencySample) (rest : List LatencySample)
        → f.samples ≡ s ∷ rest
        → Step f (record f { samples = rest })
    exit : Step f (worker_exits f)
    close : Step f (stop f).1

  -- The steps end at a panic, which ends the process.
  pub data Reach (f : Fleet F) : Fleet F → Type 0 where
    start : Reach f f
    next : {g h : Fleet F} → Reach f g → g.panicked ≡ false → Step g h → Reach f h

  pub record Inv (f : Fleet F) : Type 0 where
    pub counted : f.orders_sent ≡ f.orders_acked + f.fill_errors + length f.in_flight
    pub priority : f.priority_err ≤ f.orders_acked
    pub buffered : length f.samples ≤ samples_cap
    pub panic_closed : f.panicked ≡ true → f.closed ≡ true

  length-remove_in_flight :
      (w : ℕ) (o : Order F) (l : List (ℕ × Order F))
      → InFlight w o l
      → length (remove_in_flight w l) + 1 ≡ length l
  unfolding remove_in_flight
  length-remove_in_flight w o _ (here {l}) = ground arith
  length-remove_in_flight w o _ (there {v} {p} {l} ne i) =
      ground (arith, length-remove_in_flight w o l i)

  offer_sample-Inv : (s : LatencySample) (f : Fleet F) → Inv f → Inv (offer_sample s f)
  unfolding offer_sample
  offer_sample-Inv s f v = ground (arith, length-append f.samples (s ∷ []))

  -- The fleet when the reply has been counted and before its sample is offered.
  abbrev pub answered : Fleet F → ℕ → Order F → Option (Ack F) → Fleet F
  answered f w o r = record (count_reply o r f) {
    in_flight = remove_in_flight w (count_reply o r f).in_flight;
  }

  answered-Inv :
      (f : Fleet F) (w : ℕ) (o : Order F) (r : Option (Ack F))
      → InFlight w o f.in_flight
      → Inv f
      → Inv (answered f w o r)
  unfolding count_reply
  answered-Inv f w o none i v = ground (arith, length-remove_in_flight w o f.in_flight i)
  answered-Inv f w o (some ack) i v = ground (arith, length-remove_in_flight w o f.in_flight i)

  keeps_Inv : (f g : Fleet F) → Step f g → Inv f → Inv g
  keeps_Inv f _ (spawn id) v = unfold spawn_worker in ground arith
  keeps_Inv f _ (begin w o) v = unfold send_begin in ground arith
  keeps_Inv f _ (reply w o r latency sent_at i) v =
      unfold send_end in offer_sample-Inv _ (answered f w o r) (answered-Inv f w o r i v)
  keeps_Inv f _ (receive s rest e) v = ground (arith, ap (length {A = LatencySample}) e)
  keeps_Inv f _ exit v = unfold worker_exits in ground arith
  keeps_Inv f _ close v = unfold stop in ground arith

  new-Inv : (cfg : FleetConfig) → Inv (new cfg)
  unfolding new
  new-Inv cfg = ground arith

  -- However the goroutines interleave: each order sent is acknowledged, failed or still waiting;
  -- priority errors are at most the acknowledged orders; the channel never holds more than its
  -- buffer; and a send panics only after Stop has closed the channel.
  pub fleet_invariant : (cfg : FleetConfig) (f : Fleet F) → Reach (new cfg) f → Inv f
  fleet_invariant cfg _ start = new-Inv cfg
  fleet_invariant cfg f (next {g} r alive st) = keeps_Inv g f st (fleet_invariant cfg g r)

  closed-count_reply :
      (o : Order F) (r : Option (Ack F)) (f : Fleet F) → (count_reply o r f).closed ≡ f.closed
  unfolding count_reply
  closed-count_reply o none f = refl
  closed-count_reply o (some ack) f = refl

  send_end-closed :
      (w : ℕ) (o : Order F) (r : Option (Ack F)) (latency sent_at : ℕ) (f : Fleet F)
      → f.closed ≡ true
      → (send_end w o r latency sent_at f).panicked ≡ true
  unfolding send_end
  send_end-closed w o r latency sent_at f shut = ground (arith, closed-count_reply o r f)

  -- Stop does not wait for a worker inside SendOrder: from any running fleet with one, Stop closes the
  -- channel without a panic, and then whatever reply comes to that worker, an acknowledgment or an
  -- error, the step that handles this reply panics.
  pub late_reply_panics :
      (f : Fleet F) (w : ℕ) (o : Order F) (r : Option (Ack F)) (latency sent_at : ℕ)
      → f.panicked ≡ false
      → InFlight w o f.in_flight
      → let shut = (stop f).1 in
        let g = send_end w o r latency sent_at shut in
        Reach f shut × (shut.panicked ≡ false) × Step shut g × (g.panicked ≡ true)
  unfolding stop
  late_reply_panics f w o r latency sent_at alive i =
      let shut = (stop f).1 in
      (
        next start alive close,
        alive,
        reply w o r latency sent_at i,
        send_end-closed w o r latency sent_at shut refl,
      )
