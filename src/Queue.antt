-- ===== src/Queue.antt =====
-- backend/services/queue_service.go over the two Redis lists that it uses. A list has its left end
-- first: LPUSH adds in front, and BRPOP takes the last.
pub mod Fifo
use distributed_benchmark_pl.Base.{
  ℕ, String, Bool, true, false, Option, none, some, List, [], ◌∷◌, ◌++◌, length, if◌then◌else◌,
}

-- MoveToDeadLetter's entry; `failed_at` is its time.
pub record DeadLetter (E : Type 0) : Type 0 where
  pub run_id : String
  pub reason : E
  pub failed_at : ℕ

pub record Redis (E : Type 0) : Type 0 where
  pub benchmark_runs : List String
  pub dead_letter : List (DeadLetter E)

-- LPUSH
abbrev pub lpush {ℓ} : {A : Type ℓ} → A → List A → List A
lpush x xs = x ∷ xs

-- BRPOP on a list that may be empty: the last element and the rest. `none` is its timeout.
unfoldable pub rpop {ℓ} : {A : Type ℓ} → List A → Option (A × List A)
rpop [] = none
rpop (x ∷ xs) = elim (rpop xs) [ none ↦ some (x, []) | some (y, ys) ↦ some (y, x ∷ ys) ]

-- A call of Publish and its error, if there is one. `messages` holds the channel and the text, latest last.
unfoldable pub publish_telemetry :
    {P : Type 0}
    → (P → Option String)
    → Bool
    → String
    → P
    → List (String × String)
    → Bool × List (String × String)
publish_telemetry marshal fails channel payload messages = elim (marshal payload) [
  | none ↦ (true, messages)
  | some text ↦ if fails then (true, messages) else (false, messages ++ (channel, text) ∷ [])
]

unfoldable pub publish_leaderboard_update :
    {P : Type 0}
    → (P → Option String)
    → Bool
    → String
    → P
    → List (String × String)
    → Bool × List (String × String)
publish_leaderboard_update = publish_telemetry

module _ {E : Type 0} where
  -- QueueLength; `none` is an error.
  unfoldable pub queue_length : Bool → Redis E → Option ℕ
  queue_length true r = none
  queue_length false r = some (length r.benchmark_runs)

  -- EnqueueRun; `true` is a connection error.
  unfoldable pub enqueue_run : Bool → String → Redis E → Bool × Redis E
  enqueue_run true run_id r = (true, r)
  enqueue_run false run_id r = (false, record r { benchmark_runs = lpush run_id r.benchmark_runs })

  -- DequeueRun on a working connection: "" stands for a timeout.
  unfoldable pub dequeue_run : Redis E → String × Redis E
  dequeue_run r = elim (rpop r.benchmark_runs) [
    | none ↦ ("", r)
    | some (run_id, rest) ↦ (run_id, record r { benchmark_runs = rest })
  ]

  unfoldable pub move_to_dead_letter : Bool → String → E → ℕ → Redis E → Bool × Redis E
  move_to_dead_letter true run_id reason now r = (true, r)
  move_to_dead_letter false run_id reason now r = (
    false,
    record r {
      dead_letter =
          lpush (record { run_id = run_id; reason = reason; failed_at = now }) r.dead_letter;
    },
  )
