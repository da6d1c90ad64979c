-- ===== src/Botfleet/Fleet/Samples.antt =====
-- What becomes of the samples that the bots of backend/services/botfleet/worker.go offer to the
-- channel.
use mathlib.Core.List.{append_assoc, append-nil}
use distributed_benchmark_pl.Base.{
  ℕ, ◌+◌, ◌-◌, ◌≤◌, ◌≡◌, refl, sym, ap, ◌∙◌, Option, none, some, List, [], ◌∷◌, ◌++◌, arith, length,
  length-append, ltb, if◌then◌else◌, Bool-cases, Option-cases, inl, inr,
}
use distributed_benchmark_pl.Base.Float.{Float64}
use distributed_benchmark_pl.Botfleet.Sample.{LatencySample}
use distributed_benchmark_pl.Botfleet.Order.{Order, Ack}
use distributed_benchmark_pl.Botfleet.Protocol.{new_adapter}
use distributed_benchmark_pl.Botfleet.Fleet.{
  Fleet, FleetConfig, new, spawn_worker, send_begin, send_end, count_reply, offer_sample,
  worker_exits, stop, samples_cap, sample_of, is_some,
}
use distributed_benchmark_pl.Botfleet.Fleet.Race.{
  Reach, spawn, begin, reply, receive, exit, close, start, next,
}

module _ {F : Type 0} where
  -- The channel takes a sample while it is not closed and has room.
  abbrev pub taken : LatencySample → Fleet F → List LatencySample
  taken s f = if f.closed then [] else if ltb (length f.samples) samples_cap then s ∷ [] else []

module _ {F : Type 0} ⦃fl : Float64 F⦄ where
  -- The samples that the channel took, those that the ingester received, and how many were lost.
  abbrev pub accepted : {f g : Fleet F} → Reach f g → List LatencySample
  accepted start = []
  accepted (next r alive (spawn id)) = accepted r
  accepted (next r alive (begin w o)) = accepted r
  accepted (next {g} r alive (reply w o a latency sent_at i)) =
      accepted r ++ taken (sample_of g o (is_some a) latency sent_at) g
  accepted (next r alive (receive s rest e)) = accepted r
  accepted (next r alive exit) = accepted r
  accepted (next r alive close) = accepted r

  abbrev pub received : {f g : Fleet F} → Reach f g → List LatencySample
  received start = []
  received (next r alive (spawn id)) = received r
  received (next r alive (begin w o)) = received r
  received (next r alive (reply w o a latency sent_at i)) = received r
  received (next r alive (receive s rest e)) = received r ++ s ∷ []
  received (next r alive exit) = received r
  received (next r alive close) = received r

  abbrev pub lost : {f g : Fleet F} → Reach f g → ℕ
  lost start = 0
  lost (next r alive (spawn id)) = lost r
  lost (next r alive (begin w o)) = lost r
  lost (next {g} r alive (reply w o a latency sent_at i)) =
      lost r + (1 - length (taken (sample_of g o (is_some a) latency sent_at) g))
  lost (next r alive (receive s rest e)) = lost r
  lost (next r alive exit) = lost r
  lost (next r alive close) = lost r

  send_end-taken :
      (w : ℕ) (o : Order F) (a : Option (Ack F)) (latency sent_at : ℕ) (f : Fleet F)
      → ((send_end w o a latency sent_at f).samples
          ≡ f.samples ++ taken (sample_of f o (is_some a) latency sent_at) f)
        × ((send_end w o a latency sent_at f).orders_acked
              + (send_end w o a latency sent_at f).fill_errors
            ≡ f.orders_acked + f.fill_errors + 1)
  unfolding send_end offer_sample count_reply
  send_end-taken w o none latency sent_at f = elim (Bool-cases f.closed) [
    | inl shut ↦ rw shut (sym (append-nil f.samples), omega arith)
    | inr accepts ↦ elim (Bool-cases (ltb (length f.samples) samples_cap)) [
      | inl room ↦ rw (accepts, room) (refl, omega arith)
      | inr full ↦ rw (accepts, full) (sym (append-nil f.samples), omega arith)
    ]
  ]
  send_end-taken w o (some ack) latency sent_at f = elim (Bool-cases f.closed) [
    | inl shut ↦ rw shut (sym (append-nil f.samples), omega arith)
    | inr accepts ↦ elim (Bool-cases (ltb (length f.samples) samples_cap)) [
      | inl room ↦ rw (accepts, room) (refl, omega arith)
      | inr full ↦ rw (accepts, full) (sym (append-nil f.samples), omega arith)
    ]
  ]

  length-taken_le : (s : LatencySample) (f : Fleet F) → length (taken s f) ≤ 1
  length-taken_le s f = elim (Bool-cases f.closed) [
    | inl shut ↦ rw shut (omega arith)
    | inr accepts ↦ elim (Bool-cases (ltb (length f.samples) samples_cap)) [
      | inl room ↦ rw (accepts, room) (omega arith)
      | inr full ↦ rw (accepts, full) (omega arith)
    ]
  ]

  spawn_worker-counts :
      (id : ℕ) (f : Fleet F)
      → ((spawn_worker id f).samples ≡ f.samples)
        × ((spawn_worker id f).orders_acked + (spawn_worker id f).fill_errors
            ≡ f.orders_acked + f.fill_errors)
  unfolding spawn_worker
  spawn_worker-counts id f = elim (Option-cases (new_adapter f.cfg.protocol)) [
    | inl unknown ↦ rw (spawn_worker, unknown) (refl, refl)
    | inr (adapter, known) ↦ rw (spawn_worker, known) (refl, refl)
  ]

  -- However the goroutines interleave, from a new fleet: the channel hands the samples that it took
  -- to the ingester in their order, and each order that was answered, with an acknowledgment or an
  -- error, has one sample, taken by the channel or lost.
  pub samples_conserved :
      (cfg : FleetConfig) (f : Fleet F) (r : Reach (new cfg) f)
      → (accepted r ≡ received r ++ f.samples)
        × (f.orders_acked + f.fill_errors ≡ length (accepted r) + lost r)
  unfolding new send_begin worker_exits stop
  samples_conserved cfg _ start = (refl, omega arith)
  samples_conserved cfg _ (next {g} r alive (spawn id)) =
      let ih = samples_conserved cfg g r in
      let same = spawn_worker-counts id g in
      (ih.0 ∙ ap (λ l. received r ++ l) (sym same.0), omega (arith, ih.1, same.1))
  samples_conserved cfg _ (next {g} r alive (begin w o)) = samples_conserved cfg g r
  samples_conserved cfg _ (next {g} r alive (reply w o a latency sent_at i)) =
      let ih = samples_conserved cfg g r in
      let end = send_end-taken w o a latency sent_at g in
      let s = sample_of g o (is_some a) latency sent_at in
      (
        ap (λ l. l ++ taken s g) ih.0
            ∙ append_assoc (received r) g.samples (taken s g)
            ∙ ap (λ l. received r ++ l) (sym end.0),
        omega (arith, end.1, ih.1, length-append (accepted r) (taken s g), length-taken_le s g),
      )
  samples_conserved cfg _ (next {g} r alive (receive s rest e)) =
      let ih = samples_conserved cfg g r in
      (ih.0 ∙ ap (λ l. received r ++ l) e ∙ sym (append_assoc (received r) (s ∷ []) rest), ih.1)
  samples_conserved cfg _ (next {g} r alive exit) = samples_conserved cfg g r
  samples_conserved cfg _ (next {g} r alive close) = samples_conserved cfg g r
