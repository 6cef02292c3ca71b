-- ===== src/Errors/Service.antt =====
-- The error codes of AppErrors that app/services/comfy_service.py raises, against the registry that
-- the handler of app/main.py reads.
pub mod Commands
pub mod Reads
pub mod Writes
pub mod Operations
pub mod Answer
pub mod CommandLine
use Prim.Native.String
use comfy_shell_v.Prelude.{ℕ, String, Bool, true, ◌≡◌, refl, arith, Option, some, List, [], ◌∷◌}
use comfy_shell_v.Prelude.Dict.{get}
use comfy_shell_v.Prelude.Json.{Fields, Json, object, fields, py_str}
use comfy_shell_v.Uow.{
  Env, World, Action, Result, CommandResult, ok, app_error, integrity_error, crash, continue,
  with_uow, pure, enter, on_app_error, recovered, ◌>>=◌, ◌>>◌,
}
use comfy_shell_v.Comfy.Client.{or_text}
use comfy_shell_v.Comfy.Hosts.{map_action}
use comfy_shell_v.Errors.Codes.{is_registered}

-- An AppError has a registered code; the other ends are of no interest here.
abbrev pub code_ok {ℓ} : {A : Type ℓ} → Result A → Bool
code_ok (app_error code details) = is_registered code
code_ok (ok a) = true
code_ok (integrity_error orig) = true
code_ok crash = true

-- The code that an answer of the command line gives for its failure
abbrev pub code_of : (Json → String) → Fields → String
code_of repr payload = py_str repr (or_text (get (fields payload) "error_code") "COMFYCTL_FAILED")

-- The command line prints registered codes only (the error codes of comfyctl/cli.py are).
pub record PrintsRegistered (env : Env) : Type 0 where
  pub printed :
      (t : ℕ) (args : List String) (result : CommandResult) (payload : Fields)
      → env.exec t args ≡ some result
      → env.loads result.stdout ≡ some (object payload)
      → is_registered (code_of env.repr payload) ≡ true

pub record Registered {ℓ} {A : Type ℓ} (m : Action A) : Type ℓ where
  pub at : (env : Env) (w : World) → PrintsRegistered env → code_ok (m env w).0 ≡ true

module _ {ℓ κ} {A : Type ℓ} {B : Type κ} where
  continue-code_ok :
      (r : Result A) (f : A → Action B) (env : Env) (w : World)
      → code_ok r ≡ true
      → ((a : A) → r ≡ ok a → code_ok (f a env w).0 ≡ true)
      → code_ok (continue r f env w).0 ≡ true
  continue-code_ok (ok a) f env w h k = k a refl
  continue-code_ok (app_error code details) f env w h k = h
  continue-code_ok (integrity_error orig) f env w h k = refl
  continue-code_ok crash f env w h k = refl

  -- A sequence, where the second part may use what the first has returned.
  pub bind-code_ok :
      (m : Action A) (f : A → Action B) (env : Env) (w : World)
      → code_ok (m env w).0 ≡ true
      → ((a : A) → (m env w).0 ≡ ok a → code_ok (f a env (m env w).1).0 ≡ true)
      → code_ok ((m >>= f) env w).0 ≡ true
  bind-code_ok m f env w h k = let (r, w') = m env w in continue-code_ok r f env w' h k

  pub bind-Registered :
      (m : Action A) (f : A → Action B)
      → Registered m
      → ((a : A) → Registered (f a))
      → Registered (m >>= f)
  bind-Registered m f h k = record {
    at = λ env w prints.
        bind-code_ok m f env w (h.at env w prints) (λ a e. (k a).at env (m env w).1 prints);
  }

module _ {ℓ} {A : Type ℓ} where
  pub uow-Registered : (m : Action A) → Registered m → Registered (with_uow m)
  uow-Registered m h = record { at = λ env w prints. h.at env (enter env w).1 prints }

  pub pure-Registered : (a : A) → Registered (pure a)
  pure-Registered a = record { at = λ env w prints. refl }

module _ {ℓ κ} {A : Type ℓ} {B : Type κ} where
  pub map_action-Registered :
      (f : A → Action B)
      → ((a : A) → Registered (f a))
      → (xs : List A) → Registered (map_action f xs)
  map_action-Registered f h [] = pure-Registered []
  map_action-Registered f h (x ∷ xs) = bind-Registered (f x) _ (h x) λ y.
      bind-Registered (map_action f xs) _ (map_action-Registered f h xs)
        λ ys. pure-Registered (y ∷ ys)
