-- ===== src/Comfy/Coherent/Readers.antt =====
-- The loops inside the transactions: they read, and leave the world as it is.
use comfy_shell_v.Prelude.{
  suc, String, false, ◌≡◌, refl, arith, Option, none, some, List, [], ◌∷◌, ◌==◌, eq_iff, find,
  Option-cases, Bool-cases, inl, inr,
}
use comfy_shell_v.Db.{Db, Instance, ModelRoot}
use comfy_shell_v.Uow.{Env, World, ok, Action}
use comfy_shell_v.Comfy.Config.{Config}
use comfy_shell_v.Comfy.Repository.{root_with_id}
use comfy_shell_v.Comfy.Hosts.{map_action}
use comfy_shell_v.Comfy.Instances.{
  check_roots, present_roots, instance_rows, foreign_root, check_primary,
}
use comfy_shell_v.Comfy.Coherent.{RootsOf, PrimaryIn}

pub check_roots-world :
    (host_id : String) (ids : List String) (env : Env) (w : World)
    → (check_roots host_id ids env w).1 ≡ w
unfolding check_roots
check_roots-world host_id [] env w = refl
check_roots-world host_id (id ∷ ids) env w = ground (arith, check_roots-world host_id ids env w)

root_of_check :
    (db : Db) (host_id id : String)
    → foreign_root host_id (find (root_with_id id) db.model_roots) ≡ false
    → (r : ModelRoot) × (find (root_with_id id) db.model_roots ≡ some r) × (r.host_id ≡ host_id)
root_of_check db host_id id h = elim (Option-cases (find (root_with_id id) db.model_roots)) [
  | inl absent ↦ absurd (ground arith)
  | inr (r, found) ↦ (r, found, ground (arith, eq_iff r.host_id host_id))
]

-- The check lets pass only roots of the host.
pub check_roots-RootsOf :
    (host_id : String) (ids : List String) (env : Env) (w : World)
    → (check_roots host_id ids env w).0 ≡ ok tt
    → RootsOf w.session host_id ids
unfolding check_roots
check_roots-RootsOf host_id [] env w h = λ id m. cc
check_roots-RootsOf host_id (x ∷ ids) env w h = λ id m. elim (Bool-cases (x == id)) [
  | inl here ↦ root_of_check w.session host_id id (ground (arith, eq_iff x id))
  | inr other ↦ check_roots-RootsOf host_id ids env w (ground arith) id (ground arith)
]

pub check_primary-world :
    (primary : Option String) (ids : List String) (env : Env) (w : World)
    → (check_primary primary ids env w).1 ≡ w
check_primary-world none ids env w = refl
check_primary-world (some p) ids env w = refl

pub check_primary-PrimaryIn :
    (primary : Option String) (ids : List String) (env : Env) (w : World)
    → (check_primary primary ids env w).0 ≡ ok tt
    → PrimaryIn primary ids
check_primary-PrimaryIn none ids env w h = λ p e. cc
check_primary-PrimaryIn (some q) ids env w h = λ p e. ground arith

pub present_roots-world :
    (ids : List String) (env : Env) (w : World) → (present_roots ids env w).1 ≡ w
unfolding present_roots
present_roots-world [] env w = refl
present_roots-world (id ∷ ids) env w = ground (arith, present_roots-world ids env w)

pub map_action-world {ℓ κ} :
    {A : Type ℓ} {B : Type κ} (f : A → Action B) (xs : List A) (env : Env) (w : World)
    → ((x : A) → (f x env w).1 ≡ w)
    → (map_action f xs env w).1 ≡ w
map_action-world f [] env w h = refl
map_action-world f (x ∷ xs) env w h = ground (arith, h x, map_action-world f xs env w h)

-- `instance_rows` uses up ticks, and writes nothing.
pub instance_rows-committed :
    (cfg : Config) (rows : List Instance) (env : Env) (w : World)
    → (instance_rows cfg rows env w).1.committed ≡ w.committed
unfolding instance_rows
instance_rows-committed cfg [] env w = refl
instance_rows-committed cfg (row ∷ rows) env w =
    ground (arith, instance_rows-committed cfg rows env (record w { tick = suc w.tick }))
