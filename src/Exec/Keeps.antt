-- ===== src/Exec/Keeps.antt =====
-- Actions that leave a view of the state as it is, however they end.
use distributed_benchmark_pl.Base.{Bool, true, false, ◌≡◌, refl, ◌∙◌}
use distributed_benchmark_pl.Exec.{
  Result, ok, err, Exec, pure, raise, call, continue, catch, attempt, ◌>>=◌,
}
use distributed_benchmark_pl.Exec.Triple.{After, Triple}

pub record Keeps {S V E A : Type 0} (view : S → V) (m : Exec S E A) : Type 0 where
  pub at : (s : S) → view (m s).1 ≡ view s

module _ {S V E E' A B : Type 0} {view : S → V} where
  continue-Keeps :
      (r : Result E A × S) (f : A → Exec S E' B) (h : E → Exec S E' B)
      → ((a : A) → Keeps view (f a))
      → ((e : E) → Keeps view (h e))
      → view (continue f h r).1 ≡ view r.1
  continue-Keeps (ok a, s) f h kf kh = (kf a).at s
  continue-Keeps (err e, s) f h kf kh = (kh e).at s

module _ {S V E A : Type 0} {view : S → V} where
  pub Keeps-pure : (a : A) → Keeps view (pure {E = E} a)
  Keeps-pure a = record { at = λ s. refl }

  pub Keeps-raise : (e : E) → Keeps view (raise {A = A} e)
  Keeps-raise e = record { at = λ s. refl }

  pub Keeps-call :
      (b : Bool) (e : E) (f : S → A × S)
      → ((s : S) → view (f s).1 ≡ view s)
      → Keeps view (call b e f)
  Keeps-call true e f h = record { at = λ s. refl }
  Keeps-call false e f h = record { at = h }

  -- A call that only reads.
  pub Keeps-read : (b : Bool) (e : E) (f : S → A) → Keeps view (call b e (λ s. (f s, s)))
  Keeps-read b e f = Keeps-call b e (λ s. (f s, s)) (λ s. refl)

  pub Keeps-bind :
      {B : Type 0} (m : Exec S E A) (f : A → Exec S E B)
      → Keeps view m
      → ((a : A) → Keeps view (f a))
      → Keeps view (m >>= f)
  Keeps-bind m f km kf = record {
    at = λ s. continue-Keeps (m s) f raise kf (λ e. record { at = λ t. refl }) ∙ km.at s;
  }

  pub Keeps-catch :
      {E' : Type 0} (m : Exec S E A) (h : E → Exec S E' A)
      → Keeps view m
      → ((e : E) → Keeps view (h e))
      → Keeps view (catch m h)
  Keeps-catch m h km kh = record {
    at = λ s. continue-Keeps (m s) pure h (λ a. record { at = λ t. refl }) kh ∙ km.at s;
  }

  pub Keeps-attempt :
      {E' : Type 0} (m : Exec S E A) → Keeps view m → Keeps view (attempt {E' = E'} m)
  Keeps-attempt {E'} m km = record {
    at = λ s.
        continue-Keeps {E' = E'} {view = view} (m s) (λ _. pure tt) (λ _. pure tt)
          (λ a. record { at = λ t. refl }) (λ e. record { at = λ t. refl })
        ∙ km.at s;
  }

  -- What a view says before the action, it says after it.
  pub Triple-Keeps :
      (v : V) (m : Exec S E A)
      → Keeps view m
      → Triple (λ s. view s ≡ v) m (λ _ s. view s ≡ v) (λ _ s. view s ≡ v)
  Triple-Keeps v m k = record { at = λ s h. go (m s) (k.at s ∙ h) }
    where
      go : (r : Result E A × S) → view r.1 ≡ v → After (λ _ s. view s ≡ v) (λ _ s. view s ≡ v) r
      go (ok a, s) h = h
      go (err e, s) h = h

pub ruleset keeps_rules =
    (Keeps-pure, Keeps-raise, Keeps-bind, Keeps-catch, Keeps-attempt, Keeps-read)
