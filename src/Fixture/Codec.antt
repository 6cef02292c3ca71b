-- ===== src/Fixture/Codec.antt =====
-- Codecs of cursors that undo each other, for the tests: a time is written in unary, a dict as a
-- brace and its two values with a colon between them.
use Prim.Native.String
use Prim.Native.Char.{code}
use comfy_shell_v.Prelude.{
  ℕ, zero, suc, String, ◌≡◌, refl, arith, ap, Option, none, some, eqb, if◌then◌else◌,
}
use comfy_shell_v.Prelude.Json.{Json, str, object, Fields, end, field}
use comfy_shell_v.Uow.{Env}
use comfy_shell_v.Items.Cursor.{IsCodec}
use comfy_shell_v.Fixture.{quiet_env}
use comfy_shell_v.Fixture.TextOrder.{text_lt}

abbrev unary : ℕ → String
unary zero = ""
unary (suc n) = String.◌∷◌ "1" (unary n)

abbrev counted : String → ℕ
counted String.[] = 0
counted (String.◌∷◌ c s) = suc (counted s)

abbrev joined : String → String → String
joined String.[] t = String.◌∷◌ ":" t
joined (String.◌∷◌ c s) t = String.◌∷◌ c (joined s t)

abbrev parts : String → String × String
parts String.[] = ("", "")
parts (String.◌∷◌ c s) =
    let (a, b) = parts s in if eqb (code c) 58 then ("", s) else (String.◌∷◌ c a, b)

abbrev dumped : Fields → String
dumped (field _ (str a) (field _ (str b) end)) = String.◌∷◌ "{" (joined a b)
dumped _ = "{"

abbrev loaded : String → Option Json
loaded String.[] = none
loaded (String.◌∷◌ c s) =
    let (a, b) = parts s in some (object (field "created_at" (str a) (field "id" (str b) end)))

counted-unary : (n : ℕ) → counted (unary n) ≡ n
counted-unary zero = refl
counted-unary (suc n) = ap suc (counted-unary n)

parts-joined : (n : ℕ) (id : String) → parts (joined (unary n) id) ≡ (unary n, id)
parts-joined zero id = refl
parts-joined (suc n) id =
    ap (λ (x : String × String). (String.◌∷◌ "1" x.0, x.1)) (parts-joined n id)

abbrev pub codec_env : Env
codec_env = record quiet_env {
  isoformat = unary;
  fromisoformat = λ s. some (counted s);
  dumps = dumped;
  loads = loaded;
  text_before = text_lt;
}

pub codec_env-IsCodec : IsCodec codec_env
codec_env-IsCodec = record {
  base64 = λ s. refl;
  json = λ t id.
      ap
        (λ (x : String × String).
          some (object (field "created_at" (str x.0) (field "id" (str x.1) end))))
        (parts-joined t id);
  not_empty = λ t id. ground (arith, String.compare.cons-nil "{" (joined (unary t) id));
  iso = λ t. ap some (counted-unary t);
}
