-- ===== src/Uow/Environment.antt =====
-- What the process gets from outside, each answer numbered by the call's tick.
use comfy_shell_v.Prelude.{ℕ, ℤ, String, Option, List, Bool}
use comfy_shell_v.Prelude.Json.{Json, Fields}
use comfy_shell_v.Db.{Db}

pub record CommandResult : Type 0 where
  pub exit_code : ℤ
  pub stdout : String
  pub stderr : String

pub record Env : Type 0 where
  -- `uuid.uuid4()` and `datetime.now(timezone.utc)`
  pub uuid : ℕ → String
  pub now : ℕ → ℕ
  -- what the other requests have committed when a transaction begins
  pub others : ℕ → Db → Db
  -- the order in which a query without ORDER BY returns its rows
  pub unordered : ℕ → List String → List String
  -- `Executor.run`; `none` is an exception of the operating system
  pub exec : ℕ → List String → Option CommandResult
  -- the text of a driver's error for the violated constraint, `str(exc.orig)`
  pub violation : String → String
  -- `json.loads`, and `repr` of a list or a dict
  pub loads : String → Option Json
  pub repr : Json → String
  -- `datetime.isoformat` and `datetime.fromisoformat`
  pub isoformat : ℕ → String
  pub fromisoformat : String → Option ℕ
  -- `json.dumps` with sorted keys, `base64.urlsafe_b64encode` and its inverse
  pub dumps : Fields → String
  pub b64encode : String → String
  pub b64decode : String → Option String
  -- the request id of the context
  pub request_id : String
  -- the order of texts in ORDER BY
  pub text_before : String → String → Bool
