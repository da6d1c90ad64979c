-- ===== src/Sandbox/Health.antt =====
-- The rounds of WaitForHealthy in backend/services/sandbox_service.go by the clock, in nanoseconds
-- from its start, while the context is not done. The engine is a parameter: how long it takes to
-- answer each probe.
pub mod Returning
use distributed_benchmark_pl.Base.{
  ℕ, zero, suc, ◌+◌, ◌-◌, ◌*◌, ◌/◌, ◌≤◌, ◌<◌, Bool, true, false, ◌&&◌, ◌||◌, Option, none, some,
  List, [], ◌∷◌, length, ltb, leb, ◌==◌, if◌then◌else◌, ◌≡◌, refl, arith, Bool-cases, inl, inr,
}
use distributed_benchmark_pl.Sandbox.{HealthEvent, deadline, unreachable, response}

-- The ticker's period, and the timeout of the HTTP client.
abbrev pub period : ℕ
period = 500000000

abbrev pub client_timeout : ℕ
client_timeout = 2000000000

-- What the engine does with a probe: after how long, and with which status, if it can be reached.
pub record HealthProbe : Type 0 where
  pub took : ℕ
  pub status : Option ℕ

-- httpCli.Get: what it returns, and after how long.
unfoldable pub http_get : HealthProbe → HealthEvent × ℕ
http_get p =
    if ltb p.took client_timeout
    then (elim p.status [ none ↦ unreachable | some code ↦ response code ], p.took)
    else (unreachable, client_timeout)

-- Whether the loop returns nil after it.
unfoldable pub is_healthy : HealthEvent → Bool
is_healthy (response code) = ltb code 500
is_healthy e = false

-- Whether the ticker's channel, last emptied at `last`, holds a tick, and when the next one can be
-- taken.
unfoldable pub tick_pending : ℕ → ℕ → Bool
tick_pending last now = ltb (last / period) (now / period)

unfoldable pub tick_at : ℕ → ℕ → ℕ
tick_at last now = if tick_pending last now then now else (now / period + 1) * period

unfoldable pub with_round :
    HealthEvent → ℕ → Option (List HealthEvent × ℕ) → Option (List HealthEvent × ℕ)
with_round e at none = if is_healthy e then some (e ∷ [], at) else none
with_round e at (some (es, end)) = if is_healthy e then some (e ∷ [], at) else some (e ∷ es, end)

-- The rounds from `now`, and when the loop returns. When a tick and the deadline are both ready,
-- the select takes either: `late` is how often it takes the tick. The first argument is fuel.
module _ (timeout : ℕ) (probes : ℕ → HealthProbe) where
  unfoldable pub rounds : ℕ → ℕ → ℕ → ℕ → ℕ → Option (List HealthEvent × ℕ)
  rounds zero round last now late = none
  rounds (suc fuel) round last now late =
      let tick = tick_at last now in
      let answer = http_get (probes round) in
      let in_time = ltb tick timeout in
      let end = tick + answer.1 in
      let rest = rounds fuel (suc round) tick end (if in_time then late else late - 1) in
      if in_time || (ltb 0 late && (tick_pending last now || tick == timeout))
      then with_round answer.0 end rest
      else some (deadline ∷ [], if ltb timeout now then now else timeout)
