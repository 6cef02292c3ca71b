-- ===== src/Comfy/Coherent.antt =====
-- What ties the instances of app/services/comfy_service.py to their model roots, and what each
-- transaction promises to the ones that run beside it.
pub mod Writes
pub mod Readers
pub mod Transactions
pub mod Creation
pub mod Methods
pub mod Steps
pub mod Launch
pub mod Additions
pub mod Queries
pub mod Run
use comfy_shell_v.Prelude.{ℕ, String, true, ◌≡◌, Option, some, List, find, elem}
use comfy_shell_v.Db.{Db, Instance, ModelRoot}
use comfy_shell_v.Uow.{Env}
use comfy_shell_v.Comfy.Repository.{instance_with_id, root_with_id, linked_ids}

-- Every id of the list is a model root of the host.
abbrev pub RootsOf : Db → String → List String → Type 0
RootsOf db host_id ids =
    (id : String)
    → elem id ids ≡ true
    → (r : ModelRoot) × (find (root_with_id id) db.model_roots ≡ some r) × (r.host_id ≡ host_id)

-- A primary root, if there is one, is in the list.
abbrev pub PrimaryIn : Option String → List String → Type 0
PrimaryIn primary ids = (p : String) → primary ≡ some p → elem p ids ≡ true

pub record RootsFit (db : Db) (id : String) (i : Instance) : Type 0 where
  pub roots : RootsOf db i.host_id (linked_ids id db.links)
  pub primary : PrimaryIn i.primary_model_root_id (linked_ids id db.links)

-- Each instance has model roots of its own host only, and its primary root is one of them.
pub record IsCoherent (db : Db) : Type 0 where
  pub at :
      (id : String) (i : Instance)
      → find (instance_with_id id) db.instances ≡ some i
      → RootsFit db id i

-- The instance is there, on the host.
abbrev pub Placed : Db → String → String → Type 0
Placed db id host_id =
    (i : Instance) × (find (instance_with_id id) db.instances ≡ some i) × (i.host_id ≡ host_id)

-- What a transaction promises: it keeps coherence, and no instance leaves its host.
pub record Guarantee (before after : Db) : Type 0 where
  pub coherent : IsCoherent before → IsCoherent after
  pub placed : (id host_id : String) → Placed before id host_id → Placed after id host_id

pub Guarantee-refl : (db : Db) → Guarantee db db
Guarantee-refl db = record { coherent = λ h. h; placed = λ id host_id h. h }

pub Guarantee-trans : (a b c : Db) → Guarantee a b → Guarantee b c → Guarantee a c
Guarantee-trans a b c g h = record {
  coherent = λ k. h.coherent (g.coherent k);
  placed = λ id host_id k. h.placed id host_id (g.placed id host_id k);
}

-- What the other requests may do between two transactions: the same.
pub record Rely (env : Env) : Type 0 where
  pub others : (t : ℕ) (db : Db) → Guarantee db (env.others t db)
