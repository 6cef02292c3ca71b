-- ===== src/Items/Cursor.antt =====
-- The cursors of app/db/pagination.py.
use comfy_shell_v.Prelude.{ℕ, String, ◌≡◌, arith, Option, none, some, List, ◌==◌, false}
use comfy_shell_v.Prelude.Dict.{get}
use comfy_shell_v.Prelude.Json.{Json, str, object, Fields, end, field, fields, py_str}
use comfy_shell_v.Uow.{Env, World, Action, pure, raise, asks, ok, ◌>>=◌}

pub record Page (A : Type 0) : Type 0 where
  pub rows : List A
  pub next_cursor : Option String
  pub limit : ℕ

abbrev pub payload : (ℕ → String) → ℕ → String → Fields
payload isoformat created_at item_id =
    field "created_at" (str (isoformat created_at)) (field "id" (str item_id) end)

abbrev pub encoded : Env → ℕ → String → String
encoded env created_at item_id =
    env.b64encode (env.dumps (payload env.isoformat created_at item_id))

-- `payload["created_at"]`, which has to be a text, and `payload["id"]`
abbrev created_of : Env → Option Json → Option ℕ
created_of env (some (str s)) = env.fromisoformat s
created_of env _ = none

abbrev id_of : Env → Option Json → Option String
id_of env none = none
id_of env (some v) = some (py_str env.repr v)

abbrev both : Option ℕ → Option String → Option (ℕ × String)
both (some t) (some id) = some (t, id)
both _ _ = none

abbrev read_payload : Env → Option Json → Option (ℕ × String)
read_payload env (some (object fs)) =
    both (created_of env (get (fields fs) "created_at")) (id_of env (get (fields fs) "id"))
read_payload env _ = none

abbrev read_text : Env → Option String → Option (ℕ × String)
read_text env none = none
read_text env (some text) = read_payload env (env.loads text)

-- The body of the `try` of `decode_cursor`, with `none` for an exception
abbrev pub decoded : Env → String → Option (ℕ × String)
decoded env cursor = read_text env (env.b64decode cursor)

abbrev or_invalid : Option (ℕ × String) → Action (ℕ × String)
or_invalid none = raise "REQUEST_INVALID" (field "cursor" (str "invalid") end)
or_invalid (some position) = pure position

unfoldable pub encode_cursor : ℕ → String → Action String
encode_cursor created_at item_id = asks (λ env. encoded env created_at item_id)

unfoldable pub decode_cursor : String → Action (ℕ × String)
decode_cursor cursor = do position ← asks (λ env. decoded env cursor); or_invalid position

-- What the codecs of the standard library do on the dicts of cursors: base64, JSON and the times of
-- ISO 8601 are undone, and no dict becomes an empty text.
pub record IsCodec (env : Env) : Type 0 where
  pub base64 : (s : String) → env.b64decode (env.b64encode s) ≡ some s
  pub json :
      (t : ℕ) (id : String)
      → env.loads (env.dumps (payload env.isoformat t id))
        ≡ some (object (payload env.isoformat t id))
  pub not_empty :
      (t : ℕ) (id : String) → (env.b64encode (env.dumps (payload env.isoformat t id)) == "") ≡ false
  pub iso : (t : ℕ) → env.fromisoformat (env.isoformat t) ≡ some t

pub decoded-encoded :
    (env : Env) (created_at : ℕ) (item_id : String)
    → IsCodec env
    → decoded env (encoded env created_at item_id) ≡ some (created_at, item_id)
decoded-encoded env created_at item_id codec =
    let fs = payload env.isoformat created_at item_id in
    ground (arith, codec.base64 (env.dumps fs), codec.json created_at item_id, codec.iso created_at)

-- A cursor that was encoded is decoded to the time and the id that it was made of.
pub decode_cursor-encode_cursor :
    (env : Env) (w : World) (created_at : ℕ) (item_id : String)
    → IsCodec env
    → (do cursor ← encode_cursor created_at item_id; decode_cursor cursor) env w
      ≡ (ok (created_at, item_id), w)
unfolding encode_cursor decode_cursor
decode_cursor-encode_cursor env w created_at item_id codec =
    ground (arith, decoded-encoded env created_at item_id codec)
