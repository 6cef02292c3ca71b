-- ===== src/Uow/Rules.antt =====
-- How a call ended, and what a call leaves in the database when it fails.
use comfy_shell_v.Prelude.{ℕ, suc, Bool, true, false, ◌≡◌, refl, ◌⊎◌, inl, inr}
use comfy_shell_v.Db.{Db}
use comfy_shell_v.Uow.Environment.{Env}
use comfy_shell_v.Uow.Monad.{World, Result, ok, app_error, integrity_error, crash}

abbrev pub is_ok {ℓ} : {A : Type ℓ} → Result A → Bool
is_ok (ok a) = true
is_ok _ = false

-- The database when the call begins: the last commit and what the other requests made of it.
abbrev pub found : Env → World → Db
found env w = env.others w.tick w.committed

-- No other request commits anything.
abbrev pub IsQuiet : Env → Type 0
IsQuiet env = (t : ℕ) (db : Db) → env.others t db ≡ db

-- The world inside a unit of work, when its body begins.
abbrev pub opened : Env → World → World
opened env w = record { committed = found env w; session = found env w; tick = suc w.tick }

pub Result-cases {ℓ} : {A : Type ℓ} (r : Result A) → ((a : A) × (r ≡ ok a)) ⊎ (is_ok r ≡ false)
Result-cases (ok a) = inl (a, refl)
Result-cases (app_error code details) = inr refl
Result-cases (integrity_error orig) = inr refl
Result-cases crash = inr refl
