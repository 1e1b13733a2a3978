-- ===== src/Base/Errors.antt =====
-- `t_std_error`: `STD_ERR_OK`, or a subsystem with a code. The private part, which holds a status of
-- the switch for the log, is kept where the code fills it in.
use Prim.Native.Nat.{ℕ}
use mathlib.Core.Path.{◌≡◌, refl}
use mathlib.Core.Logic.{◌⊎◌, inl, inr}

-- The subsystems that the modelled code names. `no_subsystem` and `no_code` make up a plain number that
-- the code returns where it means an error.
pub data Subsystem : Type 0 where
  npu stg route mac interface no_subsystem : Subsystem

-- The codes that the modelled code names.
pub data Code : Type 0 where
  fail param cfg nomem nexist no_code : Code

pub data StdError : Type 0 where
  ok : StdError
  std_err : Subsystem → Code → ℕ → StdError

pub StdError-cases :
    (rc : StdError) → (rc ≡ ok) ⊎ ((a : Subsystem) × (c : Code) × (st : ℕ) × (rc ≡ std_err a c st))
StdError-cases ok = inl refl
StdError-cases (std_err a c st) = inr (a, c, st, refl)
