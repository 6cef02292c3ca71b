-- ===== src/Uow.antt =====
-- app/db/unit_of_work.py: the unit of work over the database, as a monad of state and exceptions.
-- `committed` is what the database holds, `session` what the open transaction sees. `tick` numbers
-- the calls that leave the process, so that each is answered anew by the environment.
mod Environment
mod Monad
pub mod Rules
pub use Environment.*
pub use Monad.*
use comfy_shell_v.Prelude.{suc, ◌+◌, ⊤}
use comfy_shell_v.Db.{Db}

-- `__aenter__`: a new session. Other requests may have committed since the last one; `others` is
-- what they have made of the database.
abbrev pub enter : Action ⊤
enter env w =
    let db = env.others w.tick w.committed in
    (ok tt, record w { committed = db; session = db; tick = suc w.tick })

abbrev pub commit : Action ⊤
commit env w = (ok tt, record w { committed = w.session })

abbrev pub rollback : Action ⊤
rollback env w = (ok tt, record w { session = w.committed })

-- `__aexit__`: closing the session discards what was not committed.
abbrev close : World → World
close w = record w { session = w.committed }

-- `async with self._uow_factory() as uow:`, on a return and on an exception.
abbrev pub with_uow {ℓ} : {A : Type ℓ} → Action A → Action A
with_uow body env w = let (r, w') = (enter >> body) env w in (r, close w')
