-- ===== src/Base/Run.antt =====
-- Code that may fault: what C++ leaves undefined, or ends the process with, is a value.

pub data Fault : Type 0 where
  division_by_zero out_of_range null_pointer buffer_overflow bad_unlock bad_alloc archive_error
        dangling_pointer :
      Fault

pub data Run {ℓ} (A : Type ℓ) : Type ℓ where
  ok : A → Run A
  fault : Fault → Run A

infixl 5 ◌>>=◌
abbrev pub ◌>>=◌ {ℓ κ} : {A : Type ℓ} {B : Type κ} → Run A → (A → Run B) → Run B
ok a >>= f = f a
fault e >>= f = fault e

abbrev pub ok_or {ℓ} : {A : Type ℓ} → Run A → A → A
ok_or (ok a) d = a
ok_or (fault e) d = d
