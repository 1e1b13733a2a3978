-- ===== src/Base/Replies.antt =====
-- What a call of the switch abstraction interface answers: a value with `SAI_STATUS_SUCCESS`, or
-- another status.
use Prim.Native.Nat.{ℕ}
use mathlib.Core.Logic.{◌⊎◌, inl, inr}
use opx_nas_ndi.Base.{◌≡◌, refl}

pub data Reply {ℓ} (A : Type ℓ) : Type ℓ where
  reply : A → Reply A
  failed : ℕ → Reply A

pub Reply-cases {ℓ} :
    {A : Type ℓ} (r : Reply A) → ((a : A) × (r ≡ reply a)) ⊎ ((status : ℕ) × (r ≡ failed status))
Reply-cases (reply a) = inl (a, refl)
Reply-cases (failed status) = inr (status, refl)
