-- ===== src/Comfy/Repository/Runs.antt =====
-- `CommandRunRepository` of app/repositories/comfy_repository.py.
use comfy_shell_v.Prelude.{
  ℕ, ℤ, String, Bool, true, false, not, Option, none, some, List, [], ◌∷◌, ◌++◌, ◌==◌, find, any,
  filterb, update_where, ⊤,
}
use comfy_shell_v.Db.{Db, CommandRun, CommandKind, Phase, running}
use comfy_shell_v.Uow.{Action, pure, gets, ask, asks, modify, refuse_if, ◌>>=◌, ◌>>◌}
use comfy_shell_v.Prelude.Order.{before, sorted_by}
use comfy_shell_v.Comfy.Repository.{host_with_id, instance_with_id}

abbrev pub run_with_id : String → CommandRun → Bool
run_with_id id r = r.id == id

-- The foreign key of `instance_id`
abbrev instance_exists : Db → Option String → Bool
instance_exists db none = true
instance_exists db (some id) = any (instance_with_id id) db.instances

unfoldable pub create : String → String → Option String → CommandKind → Action CommandRun
create request_id host_id instance_id kind = do
  id ← ask (λ env t. env.uuid t)
  started ← ask (λ env t. env.now t)
  let run : CommandRun = record {
    id = id;
    request_id = request_id;
    host_id = host_id;
    instance_id = instance_id;
    kind = kind;
    phase = running;
    started_at = started;
    ended_at = none;
    exit_code = none;
    error_code = none;
    message = none;
    log_path = none;
    stderr_tail = none;
  }
  db ← gets (λ db. db)
  refuse_if (any (run_with_id id) db.command_runs) "command_runs_pkey"
  refuse_if (not (any (host_with_id host_id) db.hosts)) "command_runs_host_id_fkey"
  refuse_if (not (instance_exists db instance_id)) "command_runs_instance_id_fkey"
  modify (λ s. record s { command_runs = db.command_runs ++ run ∷ [] })
  pure run

unfoldable pub get : String → Action (Option CommandRun)
get run_id = gets (λ db. find (run_with_id run_id) db.command_runs)

abbrev of_instance : Option String → CommandRun → Bool
of_instance none r = true
of_instance (some wanted) r = elim r.instance_id [ none ↦ false | some id ↦ id == wanted ]

-- ORDER BY started_at DESC, id DESC
unfoldable pub list : Option String → Action (List CommandRun)
list instance_id = do
  text_before ← asks (λ env. env.text_before)
  gets (λ db.
      sorted_by (λ a b. before text_before b.started_at b.id a.started_at a.id)
        (filterb (of_instance instance_id) db.command_runs))

-- What `finish` writes
pub record Ending : Type 0 where
  pub phase : Phase
  pub exit_code : ℤ
  pub error_code : Option String
  pub message : Option String
  pub log_path : Option String
  pub stderr_tail : Option String

abbrev pub ended : Ending → ℕ → CommandRun → CommandRun
ended e now r = record r {
  phase = e.phase;
  ended_at = some now;
  exit_code = some e.exit_code;
  error_code = e.error_code;
  message = e.message;
  log_path = e.log_path;
  stderr_tail = e.stderr_tail;
}

unfoldable pub finish : String → Ending → Action ⊤
finish run_id e = do
  now ← ask (λ env t. env.now t)
  modify (λ db. record db {
    command_runs = update_where (run_with_id run_id) (ended e now) db.command_runs;
  })
