-- ===== src/Uow/Monad.antt =====
-- An action on the database: it returns or raises, and the state comes back either way.
use comfy_shell_v.Prelude.{ℕ, String, Option, none, some, Bool, if◌then◌else◌, ⊤, suc}
use comfy_shell_v.Prelude.Json.{Fields}
use comfy_shell_v.Db.{Db}
use comfy_shell_v.Uow.Environment.{Env}

pub record World : Type 0 where
  pub committed : Db
  pub session : Db
  pub tick : ℕ

-- `app_error` is `AppError(code, details=...)`, `integrity_error` SQLAlchemy's `IntegrityError`,
-- and `crash` any other exception.
pub data Result {ℓ} (A : Type ℓ) : Type ℓ where
  ok : A → Result A
  app_error : (code : String) (details : Fields) → Result A
  integrity_error : (orig : String) → Result A
  crash : Result A

abbrev pub Action {ℓ} : Type ℓ → Type ℓ
Action A = Env → World → Result A × World

module _ {ℓ} {A : Type ℓ} where
  abbrev pub pure : A → Action A
  pure a env w = (ok a, w)

  abbrev pub raise : String → Fields → Action A
  raise code details env w = (app_error code details, w)

  abbrev pub raise_crash : Action A
  raise_crash env w = (crash, w)

  -- a read of the open session
  abbrev pub gets : (Db → A) → Action A
  gets f env w = (ok (f w.session), w)

  -- an answer of the environment, which uses up a tick
  abbrev pub ask : (Env → ℕ → A) → Action A
  ask f env w = (ok (f env w.tick), record w { tick = suc w.tick })

  -- what the environment gives without a tick
  abbrev pub asks : (Env → A) → Action A
  asks f env w = (ok (f env), w)

module _ {ℓ κ} {A : Type ℓ} {B : Type κ} where
  abbrev pub continue : Result A → (A → Action B) → Action B
  continue (ok a) f env w = f a env w
  continue (app_error code details) f env w = (app_error code details, w)
  continue (integrity_error orig) f env w = (integrity_error orig, w)
  continue crash f env w = (crash, w)

  infixl 5 ◌>>=◌ ◌>>◌
  abbrev pub ◌>>=◌ : Action A → (A → Action B) → Action B
  ◌>>=◌ m f env w = let (r, w') = m env w in continue r f env w'

  abbrev pub ◌>>◌ : Action A → Action B → Action B
  m >> k = m >>= λ _. k

-- `if condition: raise AppError(...)`
abbrev pub raise_if : Bool → String → Fields → Action ⊤
raise_if condition code details env w = (if condition then app_error code details else ok tt, w)

-- `if x is None: raise AppError(...)`
abbrev pub or_raise {ℓ} : {A : Type ℓ} → Option A → String → Fields → Action A
or_raise none code details env w = (app_error code details, w)
or_raise (some a) code details env w = (ok a, w)

-- a write to the open session
abbrev pub modify : (Db → Db) → Action ⊤
modify f env w = (ok tt, record w { session = f w.session })

-- a statement that the database refuses, with the driver's text for the constraint
abbrev pub refuse_if : Bool → String → Action ⊤
refuse_if violated constraint env w =
    (if violated then integrity_error (env.violation constraint) else ok tt, w)

-- `try: ... except IntegrityError as exc: ...`
abbrev handled {ℓ} : {A : Type ℓ} → Result A → (String → Action A) → Action A
handled (integrity_error orig) handler env w = handler orig env w
handled r handler env w = (r, w)

abbrev pub on_integrity_error {ℓ} : {A : Type ℓ} → Action A → (String → Action A) → Action A
on_integrity_error body handler env w = let (r, w') = body env w in handled r handler env w'

-- `try: ... except AppError as exc: ...`
abbrev pub recovered {ℓ} : {A : Type ℓ} → Result A → (String → Fields → Action A) → Action A
recovered (app_error code details) handler env w = handler code details env w
recovered r handler env w = (r, w)

abbrev pub on_app_error {ℓ} : {A : Type ℓ} → Action A → (String → Fields → Action A) → Action A
on_app_error body handler env w = let (r, w') = body env w in recovered r handler env w'
