-- ===== src/Common/Errors.antt =====
-- Thrown errors as values: the error classes of the program, and what `errCode` and `errMsg` of
-- src/commands/tool-log.ts read from them.
use Prim.Native.String.{String}
use mathlib.Core.Path.{◌≡◌, refl}
use mathlib.Core.Bool.{Bool, true, false}
use mathlib.Core.Option.{some, Option}
use vigor3912s_mcp.Common.Texts.{Text}

-- `ConfirmErrorCode` of src/tools/confirm-gate.ts
pub data ConfirmErrorCode : Type 0 where
  invalid_token token_used token_expired mismatch bad_signature : ConfirmErrorCode

-- `VigorErrorCode` of src/ssh/client.ts
pub data VigorErrorCode : Type 0 where
  connect auth timeout closed invalid unauthorized : VigorErrorCode

-- `sdkErrorCodes` of the router SDK, those that the program names
pub data SdkErrorCode : Type 0 where
  output_limit_exceeded session_closed execution_timeout : SdkErrorCode
  command_framing_rejected command_rejected : SdkErrorCode
  other : String → SdkErrorCode

-- `out_of_draws` is the model's own: the random draws handed to it ended.
pub data Error : Type 0 where
  confirm_error : ConfirmErrorCode → Text → Error
  vigor_error : VigorErrorCode → Text → Error
  sdk_error : SdkErrorCode → Text → Error
  plain_error : Option String → Text → Error
  out_of_draws : Error

pub data Result {ℓ} (A : Type ℓ) : Type ℓ where
  ok : A → Result A
  err : Error → Result A

infixl 5 ◌>>=◌
abbrev pub ◌>>=◌ {ℓ κ} : {A : Type ℓ} {B : Type κ} → Result A → (A → Result B) → Result B
ok a >>= f = f a
err e >>= f = err e

pub some-injective {ℓ} : {A : Type ℓ} {a b : A} → some a ≡ some b → a ≡ b
some-injective e = cc

pub ok-injective {ℓ} : {A : Type ℓ} {a b : A} → ok a ≡ ok b → a ≡ b
ok-injective e = cc

-- A chain of results that ends well went through each of its steps.
pub bind-ok :
    {A B : Type 0} (r : Result A) (f : A → Result B) (b : B)
    → r >>= f ≡ ok b
    → (a : A) × (r ≡ ok a) × (f a ≡ ok b)
bind-ok (err e) f b h = cc
bind-ok (ok a) f b h = (a, refl, h)

abbrev pub is_ok {ℓ} : {A : Type ℓ} → Result A → Bool
is_ok (ok a) = true
is_ok (err e) = false
