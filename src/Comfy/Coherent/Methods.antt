-- ===== src/Comfy/Coherent/Methods.antt =====
-- Actions that keep the guarantee, and the rules by which a method keeps it.
use comfy_shell_v.Prelude.{String, ◌≡◌, refl}
use comfy_shell_v.Prelude.Json.{Fields}
use comfy_shell_v.Uow.{
  Env, World, Result, ok, app_error, integrity_error, crash, Action, on_app_error, recovered,
  continue, ◌>>=◌,
}
use comfy_shell_v.Uow.Rules.{found}
use comfy_shell_v.Comfy.Coherent.{Guarantee, Guarantee-refl, Guarantee-trans, Rely}

pub record Keeps {ℓ} {A : Type ℓ} (m : Action A) : Type ℓ where
  pub at : (env : Env) (w : World) → Rely env → Guarantee w.committed (m env w).1.committed

pub still-Keeps {ℓ} :
    {A : Type ℓ} (m : Action A)
    → ((env : Env) (w : World) → (m env w).1.committed ≡ w.committed)
    → Keeps m
still-Keeps m h = record { at = λ env w rely. rw (h env w) (Guarantee-refl w.committed) }

-- A transaction keeps it if it does so from the database that it finds.
pub Keeps-transaction {ℓ} :
    {A : Type ℓ} (m : Action A)
    → ((env : Env) (w : World) → Guarantee (found env w) (m env w).1.committed)
    → Keeps m
Keeps-transaction m h = record {
  at = λ env w rely.
      Guarantee-trans w.committed (found env w) (m env w).1.committed
        (rely.others w.tick w.committed) (h env w);
}

module _ {ℓ κ} {A : Type ℓ} {B : Type κ} where
  Keeps-continue :
      (r : Result A) (f : A → Action B) (env : Env) (w : World)
      → ((a : A) → r ≡ ok a → Guarantee w.committed (f a env w).1.committed)
      → Guarantee w.committed (continue r f env w).1.committed
  Keeps-continue (ok a) f env w h = h a refl
  Keeps-continue (app_error code details) f env w h = Guarantee-refl w.committed
  Keeps-continue (integrity_error orig) f env w h = Guarantee-refl w.committed
  Keeps-continue crash f env w h = Guarantee-refl w.committed

  -- A sequence keeps it, where the second part may use what the first has returned.
  pub Guarantee-bind :
      (m : Action A) (f : A → Action B) (env : Env) (w : World)
      → Guarantee w.committed (m env w).1.committed
      → ((a : A)
          → (m env w).0 ≡ ok a
          → Guarantee (m env w).1.committed (f a env (m env w).1).1.committed)
      → Guarantee w.committed ((m >>= f) env w).1.committed
  Guarantee-bind m f env w first second =
      let (r, w') = m env w in
      Guarantee-trans w.committed w'.committed (continue r f env w').1.committed first
        (Keeps-continue r f env w' second)

  pub Keeps-bind :
      (m : Action A) (f : A → Action B) → Keeps m → ((a : A) → Keeps (f a)) → Keeps (m >>= f)
  Keeps-bind m f first second = record {
    at = λ env w rely.
        Guarantee-bind m f env w (first.at env w rely) (λ a e. (second a).at env (m env w).1 rely);
  }

module _ {ℓ} {A : Type ℓ} where
  recovered-Keeps :
      (r : Result A) (handler : String → Fields → Action A) (env : Env) (w : World)
      → Rely env
      → ((code : String) (details : Fields) → Keeps (handler code details))
      → Guarantee w.committed (recovered r handler env w).1.committed
  recovered-Keeps (ok a) handler env w rely h = Guarantee-refl w.committed
  recovered-Keeps (app_error code details) handler env w rely h = (h code details).at env w rely
  recovered-Keeps (integrity_error orig) handler env w rely h = Guarantee-refl w.committed
  recovered-Keeps crash handler env w rely h = Guarantee-refl w.committed

  pub Keeps-on_app_error :
      (body : Action A) (handler : String → Fields → Action A)
      → Keeps body
      → ((code : String) (details : Fields) → Keeps (handler code details))
      → Keeps (on_app_error body handler)
  Keeps-on_app_error body handler first second = record {
    at = λ env w rely.
        let (r, w') = body env w in
        Guarantee-trans w.committed w'.committed (recovered r handler env w').1.committed
          (first.at env w rely) (recovered-Keeps r handler env w' rely second);
  }
