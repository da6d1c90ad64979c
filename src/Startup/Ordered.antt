-- ===== src/Startup/Ordered.antt =====
-- The order in which backend/cmd/main.go opens, starts and closes things, against a monitor of the
-- actions.
use distributed_benchmark_pl.Base.{
  ℕ, String, Bool, true, false, not, ◌&&◌, ◌||◌, Option, none, some, List, [], ◌∷◌, ◌++◌, ◌==◌, ◌≡◌,
  ◌⊎◌, inl, inr, refl, Bool-cases,
}
use distributed_benchmark_pl.Settings.Loading.{LoadResult, loaded, panicked, refused}
use distributed_benchmark_pl.Sandbox.Service.{new_sandbox_service}
use distributed_benchmark_pl.Startup.Actions.{
  Resource, logger, postgres_pool, redis_client, docker_client, worker_context, shutdown_context,
  Action, opened, closed, migrated, worker_started, listening, workers_cancelled, server_stopped,
  StartSite, build_logger, postgres_open, postgres_ping, redis_ping, goose_dialect, goose_up,
  docker_connect, docker_ping, listen, Machine,
}
use distributed_benchmark_pl.Startup.Stores.{new_postgres, new_redis, run_migrations}
use distributed_benchmark_pl.Startup.Logging.{Level, new_logger}
use distributed_benchmark_pl.Startup.{
  Ended, returned, crashed, exited, http_server, main, main_body, load_config, open_services, serve,
  unwind,
}

-- What is open, the latest first, and whether the migrations are applied and the worker is
-- cancelled.
pub record Seen : Type 0 where
  pub held : List Resource
  pub ready : Bool
  pub cancelled : Bool

abbrev pub number : Resource → ℕ
number logger = 0
number postgres_pool = 1
number redis_client = 2
number docker_client = 3
number worker_context = 4
number shutdown_context = 5

abbrev pub holds : Resource → List Resource → Bool
holds r [] = false
holds r (q ∷ held) = number r == number q || holds r held

abbrev pub when : Bool → Seen → Option Seen
when true s = some s
when false s = none

abbrev pub close_latest : Resource → List Resource → Seen → Option Seen
close_latest r [] s = none
close_latest r (q ∷ held) s = when (number r == number q) (record s { held = held })

-- One action, if it is in order.
abbrev pub observe : Action → Seen → Option Seen
observe (opened r) s = when (not (holds r s.held)) (record s { held = r ∷ s.held })
observe (closed r) s = close_latest r s.held s
observe migrated s = when (holds postgres_pool s.held) (record s { ready = true })
observe worker_started s =
    when
      (s.ready
        && (holds postgres_pool s.held
            && (holds redis_client s.held
                && (holds docker_client s.held && holds worker_context s.held))))
      s
observe (listening server) s =
    when (s.ready && (holds postgres_pool s.held && holds redis_client s.held)) s
observe workers_cancelled s = when (holds worker_context s.held) (record s { cancelled = true })
observe server_stopped s = when (s.cancelled && holds shutdown_context s.held) s

abbrev pub next_of : Option Seen → (Seen → Option Seen) → Option Seen
next_of none f = none
next_of (some s) f = f s

abbrev pub monitor : List Action → Seen → Option Seen
monitor [] s = some s
monitor (a ∷ actions) s = next_of (observe a s) (monitor actions)

-- Nothing opened twice and only the latest closed; the migrations on an open pool; the worker
-- started and the server listening only after the migrations, with what they use open; the server
-- stopped only after the worker is cancelled; and nothing left open, unless the process exits.
abbrev pub Orderly : Ended × List Action → Type 0
Orderly e =
    (s : Seen) × (monitor e.1 (record { held = []; ready = false; cancelled = false }) ≡ some s)
    × ((s.held ≡ []) ⊎ (e.0 ≡ exited))

-- Settings that are not loaded crash the program before it opens anything; else a call fails, or
-- the server listens and the program returns.
abbrev pub Served : {F : Type 0} → LoadResult F → Machine → Ended × List Action → Type 0
Served (panicked key) m e = e ≡ (crashed, [])
Served (refused key) m e = e ≡ (crashed, [])
Served (loaded cfg) m e =
    ((site : StartSite) × (m.fault site ≡ true))
    ⊎ ((e.0 ≡ returned)
        × (before : List Action) × (after : List Action) × (e.1
            ≡ before ++ listening (http_server cfg) ∷ after))

abbrev before_listening : List Action
before_listening =
    opened logger
    ∷ opened postgres_pool
    ∷ opened redis_client
    ∷ migrated
    ∷ opened docker_client
    ∷ opened worker_context
    ∷ worker_started
    ∷ []

-- For every combination of failing calls, main acts in an order that the monitor takes: nothing is
-- opened twice and only the latest open thing is closed; the migrations run on an open pool; the
-- worker starts and the server listens only after the migrations, with the stores (and for the
-- worker Docker) open; Shutdown returns only after the worker is cancelled; and nothing stays open,
-- unless the process exits. Without settings main crashes before it opens anything; with them, the
-- server listens and main returns, or some call fails.
pub main-Orderly :
    {F : Type 0} (parse_level : String → Option Level) (m : Machine) (config : LoadResult F)
    → Orderly (main parse_level m config) × Served config m (main parse_level m config)
unfolding main main_body unwind load_config open_services serve new_logger new_postgres new_redis
    run_migrations new_sandbox_service
main-Orderly parse_level m (panicked key) = ((_, refl, inl refl), refl)
main-Orderly parse_level m (refused key) = ((_, refl, inl refl), refl)
main-Orderly parse_level m (loaded cfg) = elim (Bool-cases (m.fault build_logger)) [
  | inl fails ↦ rw fails ((_, refl, inl refl), inl (build_logger, fails))
  | inr h1 ↦ elim (Bool-cases (m.fault postgres_open)) [
    | inl fails ↦ rw (h1, fails) ((_, refl, inr refl), inl (postgres_open, fails))
    | inr h2 ↦ elim (Bool-cases (m.fault postgres_ping)) [
      | inl fails ↦ rw (h1, h2, fails) ((_, refl, inr refl), inl (postgres_ping, fails))
      | inr h3 ↦ elim (Bool-cases (m.fault redis_ping)) [
        | inl fails ↦ rw (h1, h2, h3, fails) ((_, refl, inr refl), inl (redis_ping, fails))
        | inr h4 ↦ elim (Bool-cases (m.fault goose_dialect)) [
          | inl fails ↦ rw (h1, h2, h3, h4, fails) ((_, refl, inr refl), inl (goose_dialect, fails))
          | inr h5 ↦ elim (Bool-cases (m.fault goose_up)) [
            | inl fails ↦
                rw (h1, h2, h3, h4, h5, fails) ((_, refl, inr refl), inl (goose_up, fails))
            | inr h6 ↦ elim (Bool-cases (m.fault docker_connect)) [
              | inl fails ↦
                  rw (h1, h2, h3, h4, h5, h6, fails)
                    ((_, refl, inr refl), inl (docker_connect, fails))
              | inr h7 ↦ elim (Bool-cases (m.fault docker_ping)) [
                | inl fails ↦
                    rw (h1, h2, h3, h4, h5, h6, h7, fails)
                      ((_, refl, inr refl), inl (docker_ping, fails))
                | inr h8 ↦ elim (Bool-cases (m.fault listen)) [
                  | inl fails ↦
                      rw (h1, h2, h3, h4, h5, h6, h7, h8, fails)
                        ((_, refl, inr refl), inl (listen, fails))
                  | inr h9 ↦
                      rw (h1, h2, h3, h4, h5, h6, h7, h8, h9)
                        ((_, refl, inl refl), inr (refl, before_listening, _, refl))
                ]
              ]
            ]
          ]
        ]
      ]
    ]
  ]
]
