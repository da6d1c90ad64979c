-- ===== src/Sandbox/Health/Returning.antt =====
-- That the loop of WaitForHealthy in backend/services/sandbox_service.go returns, after how many
-- rounds and when.
use distributed_benchmark_pl.Base.{
  ℕ, zero, suc, ◌+◌, ◌-◌, ◌*◌, ◌/◌, ◌≤◌, ◌<◌, ◌⊎◌, Bool, true, false, ◌&&◌, ◌||◌, Option, some,
  List, [], ◌∷◌, length, ltb, ◌==◌, if◌then◌else◌, ◌≡◌, refl, arith, Bool-cases, Option-cases, inl,
  inr, not, tests, ltb→lt,
}
use distributed_benchmark_pl.Exec.{Result, ok, err}
use distributed_benchmark_pl.Store.{World}
use distributed_benchmark_pl.Sandbox.{
  HealthEvent, ctx_done, deadline, unreachable, response, wait_rounds, SandboxError,
  health_timed_out,
}
use distributed_benchmark_pl.Sandbox.Health.{
  period, client_timeout, HealthProbe, http_get, is_healthy, tick_pending, tick_at, with_round,
  rounds,
}

http_get-client_timeout : (p : HealthProbe) → (http_get p).1 ≤ client_timeout
unfolding http_get
http_get-client_timeout p = elim (Bool-cases (ltb p.took client_timeout)) [
  | inl soon ↦ rw soon (omega (tests, soon))
  | inr never ↦ rw never (omega arith)
]

-- A tick is taken in a later period than the one before.
tick_at-later : (last now : ℕ) → last ≤ now → last / period < tick_at last now / period
unfolding tick_at tick_pending
tick_at-later last now h = elim (Bool-cases (ltb (last / period) (now / period))) [
  | inl waiting ↦ rw waiting (omega (tests, waiting))
  | inr empty ↦ rw empty (omega (arith, h))
]

tick_at-after : (last now : ℕ) → now ≤ tick_at last now
unfolding tick_at tick_pending
tick_at-after last now = elim (Bool-cases (ltb (last / period) (now / period))) [
  | inl waiting ↦ rw waiting (omega arith)
  | inr empty ↦ rw empty (omega arith)
]

late_tick-le :
    (last now timeout late bound : ℕ)
    → (ltb 0 late && (tick_pending last now || tick_at last now == timeout)) ≡ true
    → now ≤ bound
    → timeout ≤ bound
    → (0 < late) × (tick_at last now ≤ bound)
unfolding tick_at
late_tick-le last now timeout late bound taken h deep = elim (Bool-cases (tick_pending last now)) [
  | inl waiting ↦ rw waiting (ground (arith, taken), h)
  | inr empty ↦
      rw empty (ground (arith, taken), let t : _ = rw empty at taken in ground (arith, t, deep))
]

-- The loop goes on after it.
abbrev is_retried : HealthEvent → Bool
is_retried unreachable = true
is_retried (response code) = not (ltb code 500)
is_retried ctx_done = false
is_retried deadline = false

http_get-retried :
    (p : HealthProbe) → is_healthy (http_get p).0 ≡ false → is_retried (http_get p).0 ≡ true
unfolding http_get is_healthy
http_get-retried p h = elim (Bool-cases (ltb p.took client_timeout)) [
  | inl soon ↦ elim (Option-cases p.status) [
    | inl out ↦ rw (soon, out) refl
    | inr (code, came) ↦
        let ill : ltb code 500 ≡ false = rw (soon, came) at h in rw (soon, came, ill) refl
  ]
  | inr never ↦ rw never refl
]

-- A list of rounds that ends with the deadline or with the first healthy answer.
abbrev pub Concluded : List HealthEvent → Type 0
Concluded [] = ⊥
Concluded (e ∷ []) = (e ≡ deadline) ⊎ (is_healthy e ≡ true)
Concluded (e ∷ f ∷ es) = (is_retried e ≡ true) × Concluded (f ∷ es)

-- At most so many rounds, and an end no later than that.
abbrev pub Returns : ℕ → ℕ → Option (List HealthEvent × ℕ) → Type 0
Returns most latest result =
    (es : List HealthEvent) × (end : ℕ) × (result ≡ some (es, end))
    × Concluded es
    × (length es ≤ most)
    × (end ≤ latest)

Concluded-cons :
    (e : HealthEvent) (es : List HealthEvent)
    → is_retried e ≡ true
    → Concluded es
    → Concluded (e ∷ es)
Concluded-cons e [] h c = absurd c
Concluded-cons e (f ∷ es) h c = (h, c)

with_round-Returns :
    (e : HealthEvent) (end most latest : ℕ) (rest : Option (List HealthEvent × ℕ))
    → (is_healthy e ≡ false → is_retried e ≡ true)
    → end ≤ latest
    → Returns most latest rest
    → Returns (suc most) latest (with_round e end rest)
unfolding with_round
with_round-Returns e end most latest rest again soon (es, last, eq, c, few, early) =
    elim (Bool-cases (is_healthy e)) [
      | inl well ↦ rw (eq, well) (e ∷ [], end, refl, inr well, omega arith, soon)
      | inr ill ↦
          rw (eq, ill)
            (e ∷ es, last, refl, Concluded-cons e es (again ill) c, omega (arith, few), early)
    ]

Returns-weaken :
    (most most' latest latest' : ℕ) (result : Option (List HealthEvent × ℕ))
    → most ≤ most'
    → latest ≤ latest'
    → Returns most latest result
    → Returns most' latest' result
Returns-weaken most most' latest latest' result m l (es, end, eq, c, few, early) =
    (es, end, eq, c, omega (arith, m, few), omega (arith, l, early))

module _ (timeout : ℕ) (probes : ℕ → HealthProbe) where
  later_of :
      (now bound late : ℕ)
      → now ≤ bound
      → timeout ≤ bound
      → (if ltb timeout now then now else timeout) ≤ bound + late * client_timeout
  later_of now bound late h deep = elim (Bool-cases (ltb timeout now)) [
    | inl passed ↦ rw passed (omega (arith, h))
    | inr coming ↦ rw coming (omega (arith, deep))
  ]

  -- With more fuel than there are periods before the deadline and late ticks, the loop returns.
  rounds-Returns_from :
      (fuel round last now late bound : ℕ)
      → last ≤ now
      → now ≤ bound
      → timeout + client_timeout ≤ bound
      → timeout / period - last / period + late < fuel
      → Returns
          (timeout / period - last / period + late + 1)
          (bound + late * client_timeout)
          (rounds timeout probes fuel round last now late)
  unfolding rounds
  rounds-Returns_from zero round last now late bound order h deep enough = ground arith
  rounds-Returns_from (suc fuel) round last now late bound order h deep enough =
      let tick = tick_at last now in
      let took = http_get-client_timeout (probes round) in
      let later = tick_at-later last now order in
      elim (Bool-cases (ltb tick timeout)) [
        | inl in_time ↦
            let before : tick < timeout = ltb→lt tick timeout in_time in
            let rest =
              rounds-Returns_from fuel (suc round) tick (tick + (http_get (probes round)).1) late
                bound (omega arith) (omega (arith, before, took, deep)) deep
                (omega (arith, later, before, enough)) in
            rw in_time (
              Returns-weaken (suc _) _ _ _ _ (omega (arith, later, before)) (omega arith) (
                with_round-Returns _ _ _ (bound + late * client_timeout) _
                  (http_get-retried (probes round)) (omega (arith, before, took, deep)) rest))
        | inr late_tick ↦
            elim (Bool-cases (ltb 0 late && (tick_pending last now || tick == timeout))) [
              | inl taken ↦
                  let fresh =
                    late_tick-le last now timeout late bound taken h (omega (arith, deep)) in
                  let rest =
                    rounds-Returns_from fuel (suc round) tick (tick + (http_get (probes round)).1)
                      (late - 1) (bound + client_timeout) (omega arith)
                      (omega (arith, fresh.1, took)) (omega (arith, deep))
                      (omega (arith, later, fresh.0, enough)) in
                  rw (late_tick, taken)
                    (Returns-weaken (suc _) _ _ _ _ (omega (arith, later, fresh.0))
                      (omega (arith, fresh.0))
                      (with_round-Returns _ _ _
                        (bound + client_timeout + (late - 1) * client_timeout) _
                        (http_get-retried (probes round)) (omega (arith, fresh.1, took)) rest))
              | inr ended ↦
                  rw (late_tick, ended)
                    (
                      deadline ∷ [],
                      _,
                      refl,
                      inl refl,
                      omega arith,
                      later_of now bound late h (omega (arith, deep)),
                    )
            ]
      ]

-- Whether some round got an answer below 500.
abbrev pub any_healthy : List HealthEvent → Bool
any_healthy [] = false
any_healthy (e ∷ es) = is_healthy e || any_healthy es

-- WaitForHealthy returns nil, or its timeout.
abbrev pub Waited : Bool → Result SandboxError (Unit {0}) → Type 0
Waited true r = r ≡ ok tt
Waited false r = r ≡ err health_timed_out

module _ {F : Type 0} where
  wait_rounds-Waited :
      (es : List HealthEvent) (w : World F)
      → Concluded es
      → Waited (any_healthy es) (wait_rounds es w).0
  unfolding wait_rounds is_healthy
  wait_rounds-Waited [] w c = absurd c
  wait_rounds-Waited (e ∷ []) w (inl out) = rw out refl
  wait_rounds-Waited (ctx_done ∷ []) w (inr well) = cc
  wait_rounds-Waited (deadline ∷ []) w (inr well) = cc
  wait_rounds-Waited (unreachable ∷ []) w (inr well) = cc
  wait_rounds-Waited (response code ∷ []) w (inr well) = rw well refl
  wait_rounds-Waited (ctx_done ∷ f ∷ es) w c = let wrong : false ≡ true = c.0 in cc
  wait_rounds-Waited (deadline ∷ f ∷ es) w c = let wrong : false ≡ true = c.0 in cc
  wait_rounds-Waited (unreachable ∷ f ∷ es) w c = wait_rounds-Waited (f ∷ es) w c.1
  wait_rounds-Waited (response code ∷ f ∷ es) w c = elim (Bool-cases (ltb code 500)) [
    | inl well ↦ rw well refl
    | inr ill ↦ rw ill (wait_rounds-Waited (f ∷ es) w c.1)
  ]

  -- With fuel for timeout / 500 ms + 1 rounds and for the rounds that the select gives to ticks
  -- when the deadline has passed too, and with no context done, the loop of WaitForHealthy returns,
  -- whatever the engine does: after at most that many rounds, and no later than the timeout, 2 s
  -- for the last probe and 2 s for each such tick. It returns nil exactly if one of its probes got
  -- an answer below 500, and else its timeout.
  pub wait_returns :
      (timeout : ℕ) (probes : ℕ → HealthProbe) (late fuel : ℕ) (w : World F)
      → timeout / period + late < fuel
      → (es : List HealthEvent) × (end : ℕ) × (rounds timeout probes fuel 0 0 0 late
          ≡ some (es, end))
        × (length es ≤ timeout / period + late + 1)
        × (end ≤ timeout + client_timeout + late * client_timeout)
        × Waited (any_healthy es) (wait_rounds es w).0
  wait_returns timeout probes late fuel w enough =
      let returns =
        rounds-Returns_from timeout probes fuel 0 0 0 late (timeout + client_timeout) (omega arith)
          (omega arith) (omega arith) (omega (arith, enough)) in
      (
        returns.0,
        returns.1,
        returns.2,
        omega (arith, returns.4),
        returns.5,
        wait_rounds-Waited returns.0 w returns.3,
      )
