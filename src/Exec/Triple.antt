-- ===== src/Exec/Triple.antt =====
-- Pre- and postconditions of actions, one rule for each way to build an action.
use distributed_benchmark_pl.Base.{Bool, true, false, ◌≡◌, refl, if◌then◌else◌}
use distributed_benchmark_pl.Exec.{
  Result, ok, err, Exec, pure, raise, call, continue, catch, attempt, ◌>>=◌,
}

-- What holds after an action, by how it ended.
abbrev pub After : {S E A : Type 0} → (A → S → Type 0) → (E → S → Type 0) → Result E A × S → Type 0
After Q R (ok a, s) = Q a s
After Q R (err e, s) = R e s

-- From a state where `P` holds, `m` returns where `Q` holds, or fails where `R` holds.
pub record Triple {S E A : Type 0} (P : S → Type 0) (m : Exec S E A) (Q : A → S → Type 0)
    (R : E → S → Type 0) : Type 0 where
  pub at : (s : S) → P s → After Q R (m s)

module _ {S E E' A B : Type 0} where
  continue-After :
      (r : Result E A × S) (f : A → Exec S E' B) (h : E → Exec S E' B) (Q' : A → S → Type 0)
      (R' : E → S → Type 0) (Q : B → S → Type 0) (R : E' → S → Type 0)
      → After Q' R' r
      → ((a : A) (s : S) → Q' a s → After Q R (f a s))
      → ((e : E) (s : S) → R' e s → After Q R (h e s))
      → After Q R (continue f h r)
  continue-After (ok a, s) f h Q' R' Q R p k l = k a s p
  continue-After (err e, s) f h Q' R' Q R p k l = l e s p

module _ {S E A : Type 0} where
  pub Triple-bind :
      {B : Type 0} {P : S → Type 0} {m : Exec S E A} {f : A → Exec S E B} (Q' : A → S → Type 0)
      {Q : B → S → Type 0} {R : E → S → Type 0}
      → Triple P m Q' R
      → ((a : A) → Triple (Q' a) (f a) Q R)
      → Triple P (m >>= f) Q R
  Triple-bind {m} {f} Q' {Q} {R} t k = record {
    at = λ s p.
        continue-After (m s) f raise Q' R Q R (t.at s p) (λ a s' q. (k a).at s' q) (λ e s' r. r);
  }

  pub Triple-pure :
      {P : S → Type 0} {Q : A → S → Type 0} {R : E → S → Type 0} (a : A)
      → ((s : S) → P s → Q a s)
      → Triple P (pure a) Q R
  Triple-pure a h = record { at = h }

  pub Triple-raise :
      {P : S → Type 0} {Q : A → S → Type 0} {R : E → S → Type 0} (e : E)
      → ((s : S) → P s → R e s)
      → Triple P (raise {A = A} e) Q R
  Triple-raise e h = record { at = h }

  pub Triple-call :
      {P : S → Type 0} {Q : A → S → Type 0} {R : E → S → Type 0} (b : Bool) (e : E) (f : S → A × S)
      → (b ≡ false → (s : S) → P s → Q (f s).0 (f s).1)
      → (b ≡ true → (s : S) → P s → R e s)
      → Triple P (call b e f) Q R
  Triple-call true e f h k = record { at = k refl }
  Triple-call false e f h k = record { at = h refl }

  pub Triple-if :
      {P : S → Type 0} {Q : A → S → Type 0} {R : E → S → Type 0} (b : Bool) {m n : Exec S E A}
      → (b ≡ true → Triple P m Q R)
      → (b ≡ false → Triple P n Q R)
      → Triple P (if b then m else n) Q R
  Triple-if true h k = h refl
  Triple-if false h k = k refl

module _ {S E E' A : Type 0} where
  pub Triple-catch :
      {P : S → Type 0} {m : Exec S E A} {h : E → Exec S E' A} (R' : E → S → Type 0)
      {Q : A → S → Type 0} {R : E' → S → Type 0}
      → Triple P m Q R'
      → ((e : E) → Triple (R' e) (h e) Q R)
      → Triple P (catch m h) Q R
  Triple-catch {m} {h} R' {Q} {R} t k = record {
    at = λ s p.
        continue-After (m s) pure h Q R' Q R (t.at s p) (λ a s' q. q) (λ e s' r. (k e).at s' r);
  }

  pub Triple-attempt :
      {P Q : S → Type 0} {m : Exec S E A} {R : E' → S → Type 0}
      → Triple P m (λ _. Q) (λ _. Q)
      → Triple P (attempt m) (λ _. Q) R
  Triple-attempt {Q} {m} {R} t = record {
    at = λ s p.
        continue-After (m s) (λ _. pure tt) (λ _. pure tt) (λ _. Q) (λ _. Q) (λ _. Q) R (t.at s p)
          (λ a s' q. q) (λ e s' q. q);
  }
