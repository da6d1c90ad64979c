-- ===== src/Exec.antt =====
-- Go functions that change shared state and may return an error. What was written before the error
-- stays written, so the state comes back beside the error too.
pub mod Triple
pub mod Keeps
use distributed_benchmark_pl.Base.{Bool, true, false}

pub data Result (E A : Type 0) : Type 0 where
  ok : A → Result E A
  err : E → Result E A

abbrev pub Exec : Type 0 → Type 0 → Type 0 → Type 0
Exec S E A = S → Result E A × S

module _ {S E A : Type 0} where
  abbrev pub pure : A → Exec S E A
  pure a s = (ok a, s)

  abbrev pub raise : E → Exec S E A
  raise e s = (err e, s)

  -- A call that may fail and then has no effect.
  abbrev pub call : Bool → E → (S → A × S) → Exec S E A
  call true e f s = (err e, s)
  call false e f s = (ok (f s).0, (f s).1)

module _ {S E E' A B : Type 0} where
  abbrev pub continue : (A → Exec S E' B) → (E → Exec S E' B) → Result E A × S → Result E' B × S
  continue f h (ok a, s) = f a s
  continue f h (err e, s) = h e s

-- if err := m; err != nil { return h(err) }
abbrev pub catch : {S E E' A : Type 0} → Exec S E A → (E → Exec S E' A) → Exec S E' A
catch m h s = continue pure h (m s)

-- _ = m
abbrev pub attempt : {S E E' A : Type 0} → Exec S E A → Exec S E' (Unit {0})
attempt m s = continue (λ _. pure tt) (λ _. pure tt) (m s)

infixl 5 ◌>>=◌ ◌>>◌
abbrev pub ◌>>=◌ : {S E A B : Type 0} → Exec S E A → (A → Exec S E B) → Exec S E B
◌>>=◌ m f s = continue f raise (m s)

abbrev pub ◌>>◌ : {S E A B : Type 0} → Exec S E A → Exec S E B → Exec S E B
m >> k = m >>= λ _. k
