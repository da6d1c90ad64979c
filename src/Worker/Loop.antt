-- ===== src/Worker/Loop.antt =====
-- BenchmarkWorker.Run in backend/workers/benchmark_worker.go: the loop that takes runs from the
-- queue, processes them and moves the failed ones to the dead-letter list.
pub mod Triggered
use mathlib.Core.List.{append_assoc, reverse-reverse, reverse-append}
use distributed_benchmark_pl.Base.{
  zero, suc, ◌≤◌, drop, length, arith, ℕ, String, Bool, true, false, List, [], ◌∷◌, ◌++◌, ◌≡◌, refl,
  sym, ap, ◌∙◌, reverse, str_eq, if◌then◌else◌,
}
use distributed_benchmark_pl.Base.Float.{Float64}
use distributed_benchmark_pl.Models.{Config}
use distributed_benchmark_pl.Exec.{Result, ok, err}
use distributed_benchmark_pl.Queue.{Redis, DeadLetter, dequeue_run, move_to_dead_letter}
use distributed_benchmark_pl.Queue.Fifo.{waiting, AllNamed, store_of, dequeue_none, dequeue_head}
use distributed_benchmark_pl.Telemetry.Hdr.{Histogram}
use distributed_benchmark_pl.Worker.{Env, RunError, W, process_run}

-- One round of the loop: the context is done; DequeueRun fails, with the context done or not; it
-- returns, and a run that it hands out meets `env`. The Bool of a poll says whether
-- MoveToDeadLetter fails.
pub data Round : Type 0 where
  shut_down : Round
  dequeue_error : Bool → Round
  poll : Env → Bool → ℕ → Round

module _ {F : Type 0} where
  -- After processRun.
  unfoldable pub settle :
      Bool → ℕ → String → Redis RunError → Result RunError (Unit {0}) × W F → Redis RunError × W F
  settle fault now run_id r (ok a, w) = (r, w)
  settle fault now run_id r (err e, w) = ((move_to_dead_letter fault run_id e now r).1, w)

  -- The dead letters of one run.
  abbrev pub letters :
      Bool → ℕ → String → Result RunError (Unit {0}) × W F → List (DeadLetter RunError)
  letters fault now run_id (ok a, w) = []
  letters true now run_id (err e, w) = []
  letters false now run_id (err e, w) = record { run_id = run_id; reason = e; failed_at = now } ∷ []

-- The dead letters in the order they are written, the runs that still wait, and the world.
pub record Outcome (F : Type 0) : Type 0 where
  pub dead : List (DeadLetter RunError)
  pub left : List String
  pub world : W F

module _ {F : Type 0} (H : Type 0) ⦃fl : Float64 F⦄ ⦃hdr : Histogram H⦄ (cfg : Config F) where
  unfoldable pub poll_queue : Env → Bool → ℕ → Redis RunError × W F → Redis RunError × W F
  poll_queue env fault now (r, w) =
      let (run_id, rest) = dequeue_run r in
      if str_eq run_id ""
      then (rest, w)
      else settle fault now run_id rest (process_run H env cfg run_id w)

  unfoldable pub run : List Round → Redis RunError × W F → Redis RunError × W F
  run [] s = s
  run (shut_down ∷ es) s = s
  run (dequeue_error true ∷ es) s = s
  run (dequeue_error false ∷ es) s = run es s
  run (poll env fault now ∷ es) s = run es (poll_queue env fault now s)

  -- The same on the abstract queue, oldest run first.
  pub spec_run : List Round → List String → W F → Outcome F
  spec_run [] q w = record { dead = []; left = q; world = w }
  spec_run (shut_down ∷ es) q w = record { dead = []; left = q; world = w }
  spec_run (dequeue_error true ∷ es) q w = record { dead = []; left = q; world = w }
  spec_run (dequeue_error false ∷ es) q w = spec_run es q w
  spec_run (poll env fault now ∷ es) [] w = spec_run es [] w
  spec_run (poll env fault now ∷ es) (run_id ∷ q) w =
      let done = process_run H env cfg run_id w in
      let rest = spec_run es q done.1 in
      record rest { dead = letters fault now run_id done ++ rest.dead }

module _ {F : Type 0} where
  settle_lem :
      (fault : Bool) (now : ℕ) (run_id : String) (r : Redis RunError) (q : List String)
      (done : Result RunError (Unit {0}) × W F)
      → settle fault now run_id (store_of r q) done ≡ (
        store_of
            (record r { dead_letter = reverse (letters fault now run_id done) ++ r.dead_letter })
            q,
        done.1,
      )
  unfolding settle move_to_dead_letter
  settle_lem fault now run_id r q (ok a, w) = refl
  settle_lem true now run_id r q (err e, w) = refl
  settle_lem false now run_id r q (err e, w) = refl

module _ {F : Type 0} (H : Type 0) ⦃fl : Float64 F⦄ ⦃hdr : Histogram H⦄ (cfg : Config F) where
  poll_none :
      (env : Env) (fault : Bool) (now : ℕ) (r : Redis RunError) (w : W F)
      → poll_queue H cfg env fault now (store_of r [], w) ≡ (store_of r [], w)
  unfolding poll_queue
  poll_none env fault now r w = rw (dequeue_none r)

  poll_head :
      (env : Env) (fault : Bool) (now : ℕ) (r : Redis RunError) (x : String) (q : List String)
      (w : W F)
      → str_eq x "" ≡ false
      → poll_queue H cfg env fault now (store_of r (x ∷ q), w)
        ≡ settle fault now x (store_of r q) (process_run H env cfg x w)
  unfolding poll_queue
  poll_head env fault now r x q w named = rw (dequeue_head r x q, named)

  run_lem :
      (es : List Round) (r : Redis RunError) (q : List String) (w : W F)
      → AllNamed q
      → let spec = spec_run H cfg es q w in
        run H cfg es (store_of r q, w) ≡ (
          store_of (record r { dead_letter = reverse spec.dead ++ r.dead_letter }) spec.left,
          spec.world,
        )
  unfolding run spec_run
  run_lem [] r q w n = refl
  run_lem (shut_down ∷ es) r q w n = refl
  run_lem (dequeue_error true ∷ es) r q w n = refl
  run_lem (dequeue_error false ∷ es) r q w n = run_lem es r q w n
  run_lem (poll env fault now ∷ es) r [] w n =
      rw (poll_none env fault now r w) (run_lem es r [] w n)
  run_lem (poll env fault now ∷ es) r (x ∷ q) w n =
      let done = process_run H env cfg x w in
      let dead = letters fault now x done in
      let r' = record r { dead_letter = reverse dead ++ r.dead_letter } in
      let more = (spec_run H cfg es q done.1).dead in
      rw (
        poll_head env fault now r x q w n.0,
        settle_lem fault now x r q done,
        run_lem es r' q done.1 n.1,
        reverse-append dead more,
        append_assoc (reverse more) (reverse dead) r.dead_letter,
      )

  -- When no waiting run has an empty identifier, the worker serves the waiting runs oldest first;
  -- what it leaves behind, the queue, the dead letters and the world, is what `spec_run` says: an
  -- entry for each run that ended in an error and whose MoveToDeadLetter succeeded, in the order
  -- the runs were processed, and none for another.
  pub worker_serves_queue :
      (es : List Round) (r : Redis RunError) (w : W F)
      → AllNamed (waiting r)
      → let s = run H cfg es (r, w) in
        let spec = spec_run H cfg es (waiting r) w in
        (waiting s.0 ≡ spec.left)
        × (reverse s.0.dead_letter ≡ reverse r.dead_letter ++ spec.dead)
        × (s.1 ≡ spec.world)
  worker_serves_queue es r w n =
      let same : store_of r (waiting r) ≡ r =
        λ i. record r { benchmark_runs = reverse-reverse r.benchmark_runs i } in
      let left = run_lem es r (waiting r) w n in
      let at = ap (λ x. run H cfg es (x, w)) (sym same) ∙ left in
      rw
        (
          at,
          reverse-reverse,
          reverse-append (reverse (spec_run H cfg es (waiting r) w).dead) r.dead_letter,
        )
        (refl, ap (λ x. reverse r.dead_letter ++ x) (reverse-reverse _), refl)

-- The rounds of a worker that is not shut down: how often it polls.
unfoldable pub polls : List Round → ℕ
polls [] = 0
polls (shut_down ∷ es) = polls es
polls (dequeue_error b ∷ es) = polls es
polls (poll env fault now ∷ es) = suc (polls es)

abbrev pub GoesOn : List Round → Type 0
GoesOn [] = Unit {0}
GoesOn (shut_down ∷ es) = ⊥
GoesOn (dequeue_error true ∷ es) = ⊥
GoesOn (dequeue_error false ∷ es) = GoesOn es
GoesOn (poll env fault now ∷ es) = GoesOn es

drop_nil {ℓ} : {A : Type ℓ} (n : ℕ) → [] ≡ drop {A = A} n []
drop_nil zero = refl
drop_nil (suc n) = refl

drop_all {ℓ} : {A : Type ℓ} (n : ℕ) (xs : List A) → length xs ≤ n → drop n xs ≡ []
drop_all zero [] h = refl
drop_all zero (x ∷ xs) h = absurd (omega arith)
drop_all (suc n) [] h = refl
drop_all (suc n) (x ∷ xs) h = drop_all n xs (omega (arith, h))

module _ {F : Type 0} (H : Type 0) ⦃fl : Float64 F⦄ ⦃hdr : Histogram H⦄ (cfg : Config F) where
  left-drop :
      (es : List Round) (q : List String) (w : W F)
      → GoesOn es
      → (spec_run H cfg es q w).left ≡ drop (polls es) q
  unfolding spec_run polls
  left-drop [] q w g = refl
  left-drop (dequeue_error false ∷ es) q w g = left-drop es q w g
  left-drop (poll env fault now ∷ es) [] w g = left-drop es [] w g ∙ sym (drop_nil (polls es))
  left-drop (poll env fault now ∷ es) (x ∷ q) w g = left-drop es q (process_run H env cfg x w).1 g
  left-drop (shut_down ∷ es) q w g = absurd g
  left-drop (dequeue_error true ∷ es) q w g = absurd g

  -- A worker that is not shut down gets through its queue: after at least as many polls as runs with
  -- nonempty identifiers wait, none waits, however the runs end and whatever dequeue errors come
  -- between.
  pub polls_empty_queue :
      (es : List Round) (r : Redis RunError) (w : W F)
      → AllNamed (waiting r)
      → GoesOn es
      → length (waiting r) ≤ polls es
      → waiting (run H cfg es (r, w)).0 ≡ []
  polls_empty_queue es r w n g enough =
      (worker_serves_queue H cfg es r w n).0
      ∙ left-drop es (waiting r) w g
      ∙ drop_all (polls es) (waiting r) enough
