-- ===== src/Comfy/Coherent/Queries.antt =====
-- The methods of app/services/comfy_service.py that only read, and run the command line.
use comfy_shell_v.Prelude.{ℕ, String, Option, List, [], ◌∷◌, ◌≡◌, refl, ap, arith, inl, inr}
use comfy_shell_v.Prelude.Json.{fields, Json}
use comfy_shell_v.Prelude.Dict.{get}
use comfy_shell_v.Uow.{Env, World, Action, with_uow, pure, ◌>>=◌}
use comfy_shell_v.Uow.Rules.{found, opened, Result-cases}
use comfy_shell_v.Comfy.Config.{Config}
use comfy_shell_v.Comfy.Client
use comfy_shell_v.Comfy.Client.{get_data, get_str}
use comfy_shell_v.Comfy.Repository
use comfy_shell_v.Comfy.Repository.Runs as RunRepository
use comfy_shell_v.Comfy.Hosts.{
  map_action, require_host, ensure_default_host, list_hosts, probe_host, list_model_roots,
  check_model_root,
}
use comfy_shell_v.Comfy.Instances.{instance_context, list_instances}
use comfy_shell_v.Comfy.Responses.{host_to_response, model_root_to_response, run_to_response}
use comfy_shell_v.Comfy.Runs.{list_runs}
use comfy_shell_v.Comfy.Operations.{status_instance, ready_instance, logs_instance, texts, list_of}
use comfy_shell_v.Comfy.Coherent.Readers.{map_action-world, instance_rows-committed}
use comfy_shell_v.Comfy.Coherent.Methods.{Keeps, Keeps-bind, still-Keeps, Keeps-transaction}
use comfy_shell_v.Comfy.Coherent.Transactions.{eq-Guarantee}
use comfy_shell_v.Comfy.Coherent.Steps.{context-Keeps, client-Keeps}
use comfy_shell_v.Comfy.Coherent.Additions.{ensure_default_host-Keeps}

-- A transaction that leaves the database as it found it
Keeps-read {ℓ} :
    {A : Type ℓ} (m : Action A)
    → ((env : Env) (w : World) → (m env w).1.committed ≡ found env w)
    → Keeps m
Keeps-read m h = Keeps-transaction m (λ env w. eq-Guarantee (found env w) _ (h env w))

map_rows-committed :
    {A B : Type 0} (query : Action (List A)) (f : A → Action B) (env : Env) (w : World)
    → ((v : World) → (query env v).1.committed ≡ v.committed)
    → ((x : A) (v : World) → (f x env v).1 ≡ v)
    → ((with_uow do rows ← query; map_action f rows) env w).1.committed ≡ found env w
map_rows-committed query f env w reads still =
    let (_, w') = query env (opened env w) in
    elim (Result-cases (query env (opened env w)).0) [
      | inl (rows, e) ↦
          ground (arith, e, reads (opened env w), map_action-world f rows env w' (λ x. still x w'))
      | inr failed ↦ ground (arith, failed, reads (opened env w))
    ]

pub list_hosts-Keeps : (cfg : Config) → Keeps (list_hosts cfg)
unfolding list_hosts
list_hosts-Keeps cfg = Keeps-bind (ensure_default_host cfg) _ (ensure_default_host-Keeps cfg) λ h.
    Keeps-read _ (λ env w.
      map_rows-committed Repository.list_hosts host_to_response env w (λ v. refl) (λ x v. refl))

pub list_model_roots-Keeps :
    (cfg : Config) (host_id : Option String) → Keeps (list_model_roots cfg host_id)
unfolding list_model_roots
list_model_roots-Keeps cfg host_id =
    Keeps-bind (ensure_default_host cfg) _ (ensure_default_host-Keeps cfg) λ h.
      Keeps-read _ (λ env w.
        map_rows-committed (Repository.list_model_roots host_id) model_root_to_response env w
          (λ v. refl) (λ x v. refl))

pub list_runs-Keeps : (instance_id : Option String) → Keeps (list_runs instance_id)
unfolding list_runs
list_runs-Keeps instance_id = Keeps-read _ (λ env w.
    map_rows-committed (RunRepository.list instance_id) run_to_response env w (λ v. refl)
      (λ x v. refl))

pub list_instances-Keeps :
    (cfg : Config) (host_id : Option String) → Keeps (list_instances cfg host_id)
unfolding list_instances
list_instances-Keeps cfg host_id =
    Keeps-bind (ensure_default_host cfg) _ (ensure_default_host-Keeps cfg)
      λ h. Keeps-read _ (λ env w. instance_rows-committed cfg _ env (opened env w))

-- Once the instance or the host is read, these methods run the command line and answer.
require_host-committed :
    (id : String) (env : Env) (w : World)
    → ((with_uow (require_host id)) env w).1.committed ≡ found env w
unfolding Repository.get_host
require_host-committed id env w = ground arith

pub probe_host-Keeps : (cfg : Config) (id : String) → Keeps (probe_host cfg id)
unfolding probe_host
probe_host-Keeps cfg id =
    Keeps-bind (with_uow (require_host id)) _ (Keeps-read _ (require_host-committed id))
      λ host. still-Keeps _ (λ env w. ground arith)

pub check_model_root-Keeps : (cfg : Config) (id : String) → Keeps (check_model_root cfg id)
unfolding check_model_root
check_model_root-Keeps cfg id = Keeps-read _ (λ env w. ground arith)

pub status_instance-Keeps : (cfg : Config) (id : String) → Keeps (status_instance cfg id)
unfolding status_instance
status_instance-Keeps cfg id =
    Keeps-bind (instance_context id) _ (context-Keeps id)
      λ ctx. still-Keeps _ (λ env w. ground arith)

pub ready_instance-Keeps : (cfg : Config) (id : String) → Keeps (ready_instance cfg id)
unfolding ready_instance
ready_instance-Keeps cfg id =
    Keeps-bind (instance_context id) _ (context-Keeps id)
      λ ctx. still-Keeps _ (λ env w. ground arith)

texts-world : (values : List Json) (env : Env) (w : World) → (texts values env w).1 ≡ w
unfolding texts
texts-world [] env w = refl
texts-world (Json.str s ∷ rest) env w = ground (arith, texts-world rest env w)
texts-world (_ ∷ rest) env w = refl

list_of-Keeps : (o : Option Json) → Keeps (list_of o)
list_of-Keeps o = still-Keeps _ (λ env w. ground arith)

texts-Keeps : (values : List Json) → Keeps (texts values)
texts-Keeps values =
    still-Keeps _ (λ env w. ap (λ (v : World). v.committed) (texts-world values env w))

pub logs_instance-Keeps :
    (cfg : Config) (id : String) (tail : ℕ) → Keeps (logs_instance cfg id tail)
unfolding logs_instance
logs_instance-Keeps cfg id tail = Keeps-bind (instance_context id) _ (context-Keeps id) λ ctx.
    Keeps-bind (Client.run cfg _) _ (client-Keeps cfg _) λ x.
      Keeps-bind (get_str x.0 "log_path" "") _ (still-Keeps _ (λ env w. refl)) λ log_path.
        Keeps-bind (list_of (get (fields x.0) "lines")) _ (list_of-Keeps _) λ values.
          Keeps-bind (texts values) _ (texts-Keeps values) λ lines.
            still-Keeps
              (pure (record { instance_id = ctx.row.id; log_path = log_path; lines = lines }))
              (λ env w. refl)
