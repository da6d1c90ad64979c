-- ===== src/Queue/Fifo.antt =====
-- The queue service of Queue beside its specification, a list of runs with the oldest first.
use mathlib.Core.List.{reverse-cons, reverse-append, reverse-reverse, append-nil, append_assoc}
use distributed_benchmark_pl.Base.{
  ◌≡◌, refl, sym, ◌-◌, length, length-append, String, true, false, some, List, [], ◌∷◌, ◌++◌, arith,
  reverse, str_eq, if◌then◌else◌, ◌∙◌, ap,
}
use distributed_benchmark_pl.Queue.{Redis, rpop, enqueue_run, dequeue_run, queue_length}

length-reversed : {A : Type 0} (xs : List A) → length (reverse xs) ≡ length xs
length-reversed [] = refl
length-reversed (x ∷ xs) =
    ap (λ l. length l) (reverse-cons x xs)
    ∙ omega (arith, length-append (reverse xs) (x ∷ []), length-reversed xs)

-- The abstract queue: the waiting runs, oldest first.
abbrev pub waiting : {E : Type 0} → Redis E → List String
waiting r = reverse r.benchmark_runs

-- What a client of the queue does: an EnqueueRun that reaches Redis, one that does not, a DequeueRun.
pub data Op : Type 0 where
  enqueue : String → Op
  enqueue_fails : String → Op
  dequeue : Op

-- The specification: a list that grows at its end and is served from its front.
abbrev pub spec_step : Op → List String → List String × List String
spec_step (enqueue run_id) q = ([], q ++ run_id ∷ [])
spec_step (enqueue_fails run_id) q = ([], q)
spec_step dequeue [] = ([], [])
spec_step dequeue (run_id ∷ q) = (run_id ∷ [], q)

-- The runs that the operations hand out, and the queue after them.
pub spec_run : List Op → List String → List String × List String
spec_run [] q = ([], q)
spec_run (o ∷ os) q =
    let (served, q') = spec_step o q in let (more, last) = spec_run os q' in (served ++ more, last)

-- A dequeue of "" is a timeout and hands out nothing.
abbrev pub handed : String → List String
handed run_id = if str_eq run_id "" then [] else run_id ∷ []

module _ {E : Type 0} where
  pub step : Op → Redis E → List String × Redis E
  step (enqueue run_id) r = ([], (enqueue_run false run_id r).1)
  step (enqueue_fails run_id) r = ([], (enqueue_run true run_id r).1)
  step dequeue r = let (run_id, r') = dequeue_run r in (handed run_id, r')

  pub run : List Op → Redis E → List String × Redis E
  run [] r = ([], r)
  run (o ∷ os) r =
      let (served, r') = step o r in let (more, last) = run os r' in (served ++ more, last)

-- Run identifiers are not empty.
abbrev pub IsNamed : String → Type 0
IsNamed run_id = str_eq run_id "" ≡ false

abbrev pub Named : List Op → Type 0
Named [] = Unit
Named (enqueue run_id ∷ os) = IsNamed run_id × Named os
Named (enqueue_fails run_id ∷ os) = Named os
Named (dequeue ∷ os) = Named os

abbrev pub AllNamed : List String → Type 0
AllNamed [] = Unit
AllNamed (run_id ∷ q) = IsNamed run_id × AllNamed q

rpop-snoc {ℓ} : {A : Type ℓ} (xs : List A) (x : A) → rpop (xs ++ x ∷ []) ≡ some (x, xs)
unfolding rpop
rpop-snoc [] x = refl
rpop-snoc (y ∷ xs) x = rw (rpop-snoc xs x)

-- Popping on the right takes the head of the queue.
rpop-reverse {ℓ} : {A : Type ℓ} (q : List A) (x : A) → rpop (reverse (x ∷ q)) ≡ some (x, reverse q)
rpop-reverse q x = rw (reverse-cons x q) (rpop-snoc (reverse q) x)

AllNamed-snoc :
    (q : List String) (run_id : String) → AllNamed q → IsNamed run_id → AllNamed (q ++ run_id ∷ [])
AllNamed-snoc [] run_id a n = (n, tt)
AllNamed-snoc (x ∷ q) run_id a n = (a.0, AllNamed-snoc q run_id a.1 n)

-- The runs whose enqueue reached Redis, in order.
unfoldable pub enqueued : List Op → List String
enqueued [] = []
enqueued (enqueue run_id ∷ os) = run_id ∷ enqueued os
enqueued (enqueue_fails run_id ∷ os) = enqueued os
enqueued (dequeue ∷ os) = enqueued os

spec_conserves :
    (os : List Op) (q : List String) → (spec_run os q).0 ++ (spec_run os q).1 ≡ q ++ enqueued os
unfolding spec_run enqueued
spec_conserves [] q = simp append-nil
spec_conserves (enqueue run_id ∷ os) q =
    spec_conserves os (q ++ run_id ∷ []) ∙ append_assoc q (run_id ∷ []) (enqueued os)
spec_conserves (enqueue_fails run_id ∷ os) q = spec_conserves os q
spec_conserves (dequeue ∷ os) [] = spec_conserves os []
spec_conserves (dequeue ∷ os) (x ∷ q) = ap (◌∷◌ x) (spec_conserves os q)

-- The Redis list of a queue.
abbrev pub store_of : {E : Type 0} → Redis E → List String → Redis E
store_of r q = record r { benchmark_runs = reverse q }

module _ {E : Type 0} where
  pub dequeue_none : (r : Redis E) → dequeue_run (store_of r []) ≡ ("", store_of r [])
  unfolding dequeue_run rpop
  dequeue_none r = refl

  pub dequeue_head :
      (r : Redis E) (x : String) (q : List String)
      → dequeue_run (store_of r (x ∷ q)) ≡ (x, store_of r q)
  unfolding dequeue_run
  dequeue_head r x q = ground (arith, rpop-reverse q x)

  -- Each operation acts on the Redis list as the specification does on the queue that it stores.
  step_refines :
      (o : Op) (os : List Op) (r : Redis E) (q : List String)
      → Named (o ∷ os)
      → AllNamed q
      → (step o (store_of r q) ≡ ((spec_step o q).0, store_of r (spec_step o q).1))
        × Named os
        × AllNamed (spec_step o q).1
  unfolding step enqueue_run
  step_refines (enqueue run_id) os r q n a =
      (simp reverse-append, n.1, AllNamed-snoc q run_id a n.0)
  step_refines (enqueue_fails run_id) os r q n a = (refl, n, a)
  step_refines dequeue os r [] n a = (rw (dequeue_none r), n, tt)
  step_refines dequeue os r (x ∷ q) n a = (ground (arith, dequeue_head r x q), n, a.1)

  run_refines :
      (os : List Op) (r : Redis E) (q : List String)
      → Named os
      → AllNamed q
      → run os (store_of r q) ≡ ((spec_run os q).0, store_of r (spec_run os q).1)
  unfolding run spec_run
  run_refines [] r q n a = refl
  run_refines (o ∷ os) r q n a =
      let (now, n', a') = step_refines o os r q n a in
      rw (now, run_refines os r (spec_step o q).1 n' a')

  queue_length-waiting : (r : Redis E) → queue_length false r ≡ some (length (waiting r))
  unfolding queue_length
  queue_length-waiting r = ap some (sym (length-reversed r.benchmark_runs))

  -- From an empty work queue, with identifiers that are not empty, the runs handed out, followed by
  -- those that still wait, are the runs whose enqueue reached Redis, in that order: none is lost,
  -- doubled or overtaken. QueueLength, when it reaches Redis, gives how many still wait.
  pub run_is_fifo :
      (os : List Op) (r : Redis E)
      → r.benchmark_runs ≡ []
      → Named os
      → ((run os r).0 ++ waiting (run os r).1 ≡ enqueued os)
        × (queue_length false (run os r).1 ≡ some (length (enqueued os) - length (run os r).0))
  run_is_fifo os r empty n =
      let same : r ≡ store_of r [] = λ i. record r { benchmark_runs = empty i } in
      let split : (run os r).0 ++ waiting (run os r).1 ≡ enqueued os =
        rw (same, run_refines os r [] n tt, reverse-reverse) (spec_conserves os []) in
      let count : length (waiting (run os r).1) ≡ length (enqueued os) - length (run os r).0 =
        omega
          (arith, ap (λ l. length l) split, length-append (run os r).0 (waiting (run os r).1)) in
      (split, queue_length-waiting (run os r).1 ∙ ap some count)
