-- ===== src/Comfy/Operations/Outcome.antt =====
-- What the returned run of start, stop and install of app/services/comfy_service.py says.
use comfy_shell_v.Prelude.{
  suc, String, false, ◌≡◌, refl, sym, ◌∙◌, subst, arith, Option, none, some, List, [], ◌∷◌, ◌++◌,
  find, any, eq_iff, eq_refl, Option-cases, Bool-cases, inl, inr,
}
use comfy_shell_v.Prelude.Json.{Fields, truthy, lookup}
use comfy_shell_v.Db.{Db, CommandRun, CommandKind, Phase, running, completed, start, stop}
use comfy_shell_v.Uow.{Env, World, ok}
use comfy_shell_v.Uow.Rules.{found, IsQuiet, Result-cases}
use comfy_shell_v.Comfy.Config.{Config}
use comfy_shell_v.Comfy.Repository.Runs.{run_with_id, create, get}
use comfy_shell_v.Comfy.Responses.{RunResponse}
use comfy_shell_v.Comfy.Runs.{record_run, run_recorded, get_run}
use comfy_shell_v.Comfy.Runs.Closing.{run_recorded-phase}
use comfy_shell_v.Comfy.Instances.{Context, instance_context, instance_args}
use comfy_shell_v.Comfy.Repository
use comfy_shell_v.Comfy.Repository.{instance_with_id, host_with_id}
use comfy_shell_v.Comfy.Repository.Rows.{test_of_find}
use comfy_shell_v.Comfy.Operations.{
  recorded, start_instance, start_args, stop_instance, mark_launched,
}

-- A run of the kind and the instance is in the table under the id, in the phase.
pub record RunAt (db : Db) (id : String) (kind : CommandKind) (instance_id : Option String)
    (phase : Phase) : Type 0 where
  pub run : CommandRun
  pub here : find (run_with_id id) db.command_runs ≡ some run
  pub of_kind : run.kind ≡ kind
  pub of_instance : run.instance_id ≡ instance_id
  pub in_phase : run.phase ≡ phase

find-run-append :
    (id : String) (rows : List CommandRun) (r : CommandRun)
    → r.id ≡ id
    → any (run_with_id id) rows ≡ false
    → find (run_with_id id) (rows ++ r ∷ []) ≡ some r
find-run-append id [] r e h = ground (arith, e, eq_refl id)
find-run-append id (x ∷ rows) r e h = ground (arith, find-run-append id rows r e)

-- The row that `_record_run` adds
abbrev recorded_run : String → Option String → CommandKind → Env → World → CommandRun
recorded_run host_id instance_id kind env w = record {
  id = env.uuid (suc w.tick);
  request_id = env.request_id;
  host_id = host_id;
  instance_id = instance_id;
  kind = kind;
  phase = running;
  started_at = env.now (suc (suc w.tick));
  ended_at = none;
  exit_code = none;
  error_code = none;
  message = none;
  log_path = none;
  stderr_tail = none;
}

record_run-RunAt :
    (host_id : String) (instance_id : Option String) (kind : CommandKind) (env : Env) (w : World)
    (id : String)
    → (record_run host_id instance_id kind env w).0 ≡ ok id
    → RunAt (record_run host_id instance_id kind env w).1.committed id kind instance_id running
unfolding record_run create
record_run-RunAt host_id instance_id kind env w id h =
    let rows = (found env w).command_runs in
    let row = recorded_run host_id instance_id kind env w in
    let same : row.id ≡ id = ground (arith, h) in
    let fresh : any (run_with_id row.id) rows ≡ false = ground (arith, h) in
    record {
      run = row;
      here = ground (arith, h, find-run-append id rows row same (rw (sym same) fresh));
      of_kind = refl;
      of_instance = refl;
      in_phase = refl;
    }

-- A recorded command that returns has been recorded as completed.
pub recorded-RunAt :
    (cfg : Config) (ctx : Context) (kind : CommandKind) (args : List String) (env : Env) (w : World)
    (id : String) (payload : Fields)
    → IsQuiet env
    → (recorded cfg ctx kind args env w).0 ≡ ok (id, payload)
    → RunAt (recorded cfg ctx kind args env w).1.committed id kind (some ctx.row.id) completed
recorded-RunAt cfg ctx kind args env w id payload quiet h =
    let a = record_run ctx.host.id (some ctx.row.id) kind env w in
    elim (Result-cases a.0) [
      | inr e ↦ absurd (ground arith)
      | inl (run_id, e) ↦
          let before = record_run-RunAt ctx.host.id (some ctx.row.id) kind env w run_id e in
          let b = run_recorded cfg run_id args env a.1 in
          let (r, here, phase, kept, of) =
            run_recorded-phase cfg run_id args env a.1 before.run quiet before.here
              before.in_phase in
          elim (Result-cases b.0) [
            | inr e' ↦ absurd (ground arith)
            | inl ((answer, result), e') ↦ elim (Bool-cases (truthy (lookup answer "ok"))) [
              | inr bad ↦ absurd (ground arith)
              | inl good ↦
                  let same : run_id ≡ id = ground arith in
                  record {
                    run = r;
                    here = ground (arith, same);
                    of_kind = kept ∙ before.of_kind;
                    of_instance = of ∙ before.of_instance;
                    in_phase = ground arith;
                  }
            ]
          ]
    ]

-- The run that `get_run` answers with is the row under its id.
get_run-row :
    (id : String) (env : Env) (w : World) (resp : RunResponse)
    → (get_run id env w).0 ≡ ok resp
    → (r : CommandRun) × (find (run_with_id id) (found env w).command_runs ≡ some r)
      × (resp.phase ≡ r.phase)
      × (resp.kind ≡ r.kind)
      × (resp.instance_id ≡ r.instance_id)
unfolding get_run get
get_run-row id env w resp h =
    elim (Option-cases (find (run_with_id id) (found env w).command_runs)) [
      | inl absent ↦ absurd (ground arith)
      | inr (r, here) ↦ (r, here, ground arith, ground arith, ground arith)
    ]

-- What the answer of a recorded command says: the run of the kind and the instance is completed.
pub record IsCompleted (resp : RunResponse) (kind : CommandKind) (instance_id : String)
    : Type 0 where
  pub of_kind : resp.kind ≡ kind
  pub of_instance : resp.instance_id ≡ some instance_id
  pub in_phase : resp.phase ≡ completed

pub get_run-IsCompleted :
    (id : String) (kind : CommandKind) (instance_id : String) (env : Env) (w : World)
    (resp : RunResponse)
    → IsQuiet env
    → RunAt w.committed id kind (some instance_id) completed
    → (get_run id env w).0 ≡ ok resp
    → IsCompleted resp kind instance_id
get_run-IsCompleted id kind instance_id env w resp quiet at h =
    let (r, here, phase, same_kind, same_instance) = get_run-row id env w resp h in
    let one : r ≡ at.run = ground (arith, here, at.here, quiet w.tick w.committed) in
    record {
      of_kind = ground (arith, one, same_kind, at.of_kind);
      of_instance = ground (arith, one, same_instance, at.of_instance);
      in_phase = ground (arith, one, phase, at.in_phase);
    }

-- The context that is read is that of the instance that was asked for.
pub instance_context-id :
    (id : String) (env : Env) (w : World) (ctx : Context)
    → (instance_context id env w).0 ≡ ok ctx
    → ctx.row.id ≡ id
unfolding instance_context
instance_context-id id env w ctx h =
    elim (Option-cases (find (instance_with_id id) (found env w).instances)) [
      | inl absent ↦ absurd (ground arith)
      | inr (row, here) ↦
          elim (Option-cases (find (host_with_id row.host_id) (found env w).hosts)) [
            | inl absent ↦ absurd (ground arith)
            | inr (host, there) ↦
                let same_row : ctx.row ≡ row = ground (arith, here, there) in
                ground (
                  arith,
                  same_row,
                  eq_iff row.id id,
                  test_of_find (instance_with_id id) (found env w).instances row here,
                )
          ]
    ]

mark_launched-RunAt :
    (instance_id id : String) (kind : CommandKind) (of : Option String) (phase : Phase) (env : Env)
    (w : World)
    → IsQuiet env
    → RunAt w.committed id kind of phase
    → RunAt (mark_launched instance_id env w).1.committed id kind of phase
unfolding Repository.mark_launched
mark_launched-RunAt instance_id id kind of phase env w quiet at = record {
  run = at.run;
  here = ground (arith, at.here, quiet w.tick w.committed);
  of_kind = at.of_kind;
  of_instance = at.of_instance;
  in_phase = at.in_phase;
}

-- When no other request commits, a stop that returns answers with a completed run of a stop of the
-- instance.
pub stop_instance-IsCompleted :
    (cfg : Config) (id : String) (env : Env) (w : World) (resp : RunResponse)
    → IsQuiet env
    → (stop_instance cfg id env w).0 ≡ ok resp
    → IsCompleted resp stop id
unfolding stop_instance
stop_instance-IsCompleted cfg id env w resp quiet h =
    let a = instance_context id env w in
    elim (Result-cases a.0) [
      | inr e ↦ absurd (ground arith)
      | inl (ctx, e) ↦
          let args = instance_args "stop" ctx.host ctx.row ("--json" ∷ []) in
          let b = recorded cfg ctx stop args env a.1 in
          elim (Result-cases b.0) [
            | inr e' ↦ absurd (ground arith)
            | inl ((run_id, payload), e') ↦
                let at = recorded-RunAt cfg ctx stop args env a.1 run_id payload quiet e' in
                subst (IsCompleted resp stop) (instance_context-id id env w ctx e)
                  (get_run-IsCompleted run_id stop ctx.row.id env b.1 resp quiet at (ground arith))
          ]
    ]

-- When no other request commits, a start that returns answers with a completed run of a start of
-- the instance.
pub start_instance-IsCompleted :
    (cfg : Config) (id : String) (env : Env) (w : World) (resp : RunResponse)
    → IsQuiet env
    → (start_instance cfg id env w).0 ≡ ok resp
    → IsCompleted resp start id
unfolding start_instance
start_instance-IsCompleted cfg id env w resp quiet h =
    let a = instance_context id env w in
    elim (Result-cases a.0) [
      | inr e ↦ absurd (ground arith)
      | inl (ctx, e) ↦
          let args = start_args cfg ctx in
          let b = recorded cfg ctx start args env a.1 in
          elim (Result-cases b.0) [
            | inr e' ↦ absurd (ground arith)
            | inl ((run_id, payload), e') ↦
                let at = recorded-RunAt cfg ctx start args env a.1 run_id payload quiet e' in
                let c = mark_launched ctx.row.id env b.1 in
                elim (Result-cases c.0) [
                  | inr e'' ↦ absurd (ground arith)
                  | inl (u, e'') ↦
                      let at' =
                        mark_launched-RunAt ctx.row.id run_id start (some ctx.row.id) completed env
                          b.1 quiet at in
                      subst (IsCompleted resp start) (instance_context-id id env w ctx e) (
                        get_run-IsCompleted run_id start ctx.row.id env c.1 resp quiet at'
                          (ground arith))
                ]
          ]
    ]
