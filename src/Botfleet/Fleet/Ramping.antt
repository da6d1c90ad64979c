-- ===== src/Botfleet/Fleet/Ramping.antt =====
-- How many workers the ramp spawns, and with which numbers.
use mathlib.Core.List.{append_assoc, append-nil}
use mathlib.Core.Option
use distributed_benchmark_pl.Base.{
  true, ℕ, zero, suc, ◌+◌, ◌-◌, ◌≡◌, refl, ap, ◌∙◌, Option, none, some, List, [], ◌∷◌, ◌++◌, arith,
  ltb, length, inl, inr, if◌then◌else◌, Bool-cases, subst, ◌&&◌, ◌/◌, ◌%◌, ◌^◌, ◌<◌,
}
use distributed_benchmark_pl.Botfleet.Protocol.{ProtocolAdapter, new_adapter}
use distributed_benchmark_pl.Botfleet.Fleet.{
  Fleet, FleetConfig, Ramp, new, spawn_worker, spawn_from, start, ramp_up, remaining, is_positive,
}

-- start, start + 1, ..., start + count - 1
pub numbers : ℕ → ℕ → List ℕ
numbers zero start = []
numbers (suc count) start = start ∷ numbers count (start + 1)

pub numbers-append :
    (m n start : ℕ) → numbers m start ++ numbers n (start + m) ≡ numbers (m + n) start
unfolding numbers
numbers-append zero n start = ground arith
numbers-append (suc m) n start =
    let shift : start + suc m ≡ start + 1 + m = omega arith in
    let count : suc m + n ≡ suc (m + n) = omega arith in
    rw (shift, count, numbers-append m n (start + 1))

numbers_from_zero : (m n : ℕ) → numbers m 0 ++ numbers n m ≡ numbers (m + n) 0
numbers_from_zero m n =
    let z : 0 + m ≡ m = omega arith in
    subst (λ k. numbers m 0 ++ numbers n k ≡ numbers (m + n) 0) z (numbers-append m n 0)

pub length-numbers : (n start : ℕ) → length (numbers n start) ≡ n
unfolding numbers
length-numbers zero start = refl
length-numbers (suc n) start = ap suc (length-numbers n (start + 1))

module _ {F : Type 0} where
  -- What spawning the workers with the numbers `ids` makes of a fleet.
  pub record Spawned (f g : Fleet F) (ids : List ℕ) : Type 0 where
    pub cfg : g.cfg ≡ f.cfg
    pub workers : g.workers ≡ f.workers ++ ids
    pub active : g.active ≡ f.active + length ids
    pub counters : (g.orders_sent ≡ f.orders_sent) × (g.in_flight ≡ f.in_flight)

  spawn_worker-Spawned :
      (f : Fleet F) (id : ℕ) (a : ProtocolAdapter)
      → new_adapter f.cfg.protocol ≡ some a
      → Spawned f (spawn_worker id f) (id ∷ [])
  unfolding spawn_worker
  spawn_worker-Spawned f id a e = ground arith

  pub spawn_from-Spawned :
      (count first : ℕ) (f : Fleet F) (a : ProtocolAdapter)
      → new_adapter f.cfg.protocol ≡ some a
      → first + count < 2 ^ 64
      → Spawned f (spawn_from count first f) (numbers count first)
  unfolding spawn_from numbers
  spawn_from-Spawned zero first f a e fits = record {
    cfg = refl;
    workers = simp append-nil;
    active = omega arith;
    counters = (refl, refl);
  }
  spawn_from-Spawned (suc count) first f a e fits =
      let next : (first + 1) % 2 ^ 64 ≡ first + 1 = omega (arith, fits) in
      let one = spawn_worker-Spawned f first a e in
      let more =
        spawn_from-Spawned count (first + 1) (spawn_worker first f) a
          (ap (λ (c : FleetConfig). new_adapter c.protocol) one.cfg ∙ e) (omega (arith, fits)) in
      rw next (record {
        cfg = more.cfg ∙ one.cfg;
        workers = rw (more.workers, one.workers, append_assoc);
        active = omega (arith, more.active, one.active);
        counters = (more.counters.0 ∙ one.counters.0, more.counters.1 ∙ one.counters.1);
      })

-- The goroutine that Start may leave behind, after `ticks` ticks of its ticker.
pub ramp_for : {F : Type 0} → Option Ramp → ℕ → Fleet F → Fleet F
ramp_for none ticks f = f
ramp_for (some r) ticks f = ramp_up r ticks f

-- The fleet after Start and `ticks` ticks of the ramp, if Start succeeds.
pub ramped : {F : Type 0} → FleetConfig → ℕ → Option (Fleet F)
ramped {F} cfg ticks =
    Option.map (λ (p : Fleet F × Option Ramp). ramp_for p.1 ticks p.0) (start (new cfg))

-- How many workers run after `ticks` ticks: one more at each tick, from the least to the greatest
-- number; with no ramp duration the least number stays.
abbrev pub expected : FleetConfig → ℕ → ℕ
expected cfg ticks =
    if ltb 0 cfg.ramp_duration
    then cfg.min_workers
      + (if ltb ticks (cfg.max_workers - cfg.min_workers)
          then ticks
          else (cfg.max_workers - cfg.min_workers))
    else cfg.min_workers

-- The numbers of workers and the duration of the ramp are ints that are not negative.
abbrev pub NonNegative : FleetConfig → Type 0
NonNegative cfg =
    (cfg.min_workers < 2 ^ 63) × (cfg.max_workers < 2 ^ 63) × (cfg.ramp_duration < 2 ^ 63)

remaining_lem :
    (cfg : FleetConfig)
    → NonNegative cfg
    → (is_positive (remaining cfg) ≡ ltb 0 (cfg.max_workers - cfg.min_workers))
      × (is_positive (remaining cfg) ≡ true → remaining cfg ≡ cfg.max_workers - cfg.min_workers)
unfolding remaining
remaining_lem cfg ints = (ground (arith, ints), λ pos. ground (arith, ints, pos))

module _ (F : Type 0) (cfg : FleetConfig) (ints : NonNegative cfg) where
  at_start : Fleet F
  at_start = spawn_from cfg.min_workers 0 (new cfg)

  the_ramp : Ramp
  the_ramp = record {
    start_idx = cfg.min_workers;
    count = remaining cfg;
    interval = cfg.ramp_duration / remaining cfg;
  }

  active-new : (new {F = F} cfg).active ≡ 0
  unfolding new
  active-new = refl

  at_start-Spawned :
      (a : ProtocolAdapter)
      → new_adapter cfg.protocol ≡ some a
      → Spawned (new cfg) at_start (numbers cfg.min_workers 0)
  unfolding at_start new
  at_start-Spawned a e = spawn_from-Spawned cfg.min_workers 0 (new cfg) a e (omega (arith, ints))

  abbrev left_to_ramp : Option Ramp
  left_to_ramp =
      if is_positive (remaining cfg) && is_positive cfg.ramp_duration then some the_ramp else none

  ramped_lem :
      (ticks : ℕ) (a : ProtocolAdapter)
      → new_adapter cfg.protocol ≡ some a
      → ramped cfg ticks ≡ some (ramp_for left_to_ramp ticks at_start)
  unfolding ramped start at_start the_ramp new
  ramped_lem ticks a e =
      let least : (if is_positive cfg.min_workers then cfg.min_workers else 0) ≡ cfg.min_workers =
        ground (arith, ints) in
      rw (e, start, least) refl

  spawned_more :
      (count : ℕ) (a : ProtocolAdapter)
      → new_adapter cfg.protocol ≡ some a
      → cfg.min_workers + count < 2 ^ 64
      → ((spawn_from count cfg.min_workers at_start).workers ≡ numbers (cfg.min_workers + count) 0)
        × ((spawn_from count cfg.min_workers at_start).active ≡ cfg.min_workers + count)
  unfolding new
  spawned_more count a e fits =
      let first = at_start-Spawned a e in
      let again : new_adapter at_start.cfg.protocol ≡ some a =
        ap (λ (c : FleetConfig). new_adapter c.protocol) first.cfg ∙ e in
      let more = spawn_from-Spawned count cfg.min_workers at_start a again fits in
      (
        rw (more.workers, first.workers) (numbers_from_zero cfg.min_workers count),
        omega (
          arith,
          more.active,
          first.active,
          length-numbers cfg.min_workers 0,
          length-numbers count cfg.min_workers,
          active-new,
        ),
      )

  spawned_first :
      (a : ProtocolAdapter)
      → new_adapter cfg.protocol ≡ some a
      → (at_start.workers ≡ numbers cfg.min_workers 0) × (at_start.active ≡ cfg.min_workers)
  unfolding new
  spawned_first a e =
      let first = at_start-Spawned a e in
      (first.workers, omega (arith, first.active, length-numbers cfg.min_workers 0))

  ramp_for_lem :
      (ticks : ℕ) (a : ProtocolAdapter)
      → new_adapter cfg.protocol ≡ some a
      → ((ramp_for left_to_ramp ticks at_start).workers ≡ numbers (expected cfg ticks) 0)
        × ((ramp_for left_to_ramp ticks at_start).active ≡ expected cfg ticks)
  unfolding ramp_for ramp_up the_ramp
  ramp_for_lem ticks a e =
      let none_more = spawned_first a e in
      let sizes = remaining_lem cfg ints in
      let count = if ltb ticks (remaining cfg) then ticks else remaining cfg in
      elim (Bool-cases (is_positive (remaining cfg) && is_positive cfg.ramp_duration)) [
        | inl y ↦
            let pos : is_positive (remaining cfg) ≡ true = ground (arith, y) in
            let left = sizes.1 pos in
            let fits : cfg.min_workers + count < 2 ^ 64 = ground (arith, left, ints) in
            let some_more = spawned_more count a e fits in
            let as_expected : expected cfg ticks ≡ cfg.min_workers + count =
              ground (arith, left, y) in
            rw (y, as_expected) some_more
        | inr n ↦
            let as_expected : expected cfg ticks ≡ cfg.min_workers =
              ground (arith, n, sizes.0, ints) in
            rw (n, as_expected) none_more
      ]

  -- With a known protocol and numbers that are not negative, after Start and any number of ticks the workers are numbered 0, 1, 2, ...
  -- without a gap, there are as many as `expected`, and each one counts as active; with an unknown
  -- protocol Start fails.
  pub ramp_spawns :
      (ticks : ℕ) (a : ProtocolAdapter)
      → new_adapter cfg.protocol ≡ some a
      → (f : Fleet F) × (ramped cfg ticks ≡ some f)
        × (f.workers ≡ numbers (expected cfg ticks) 0)
        × (f.active ≡ expected cfg ticks)
  ramp_spawns ticks a e =
      let (ws, n) = ramp_for_lem ticks a e in
      (ramp_for left_to_ramp ticks at_start, ramped_lem ticks a e, ws, n)
