-- ===== src/Prelude/Json.antt =====
-- Parsed JSON, as `json.loads` returns it, with Python's truth and `str` of a value.
use Prim.Native.String.{String}
use mathlib.Core.Bool.{Bool, true, false, not}
use mathlib.Core.List.{List, [], ◌∷◌}
use text.Mathlib.Text.{◌==◌}
use comfy_shell_v.Prelude.Tests.{get_or}
use comfy_shell_v.Prelude.Dict.{get}

-- A number carries its `str` and whether it is zero; nothing else of it is used.
mutual
  pub data Json : Type 0 where
    null : Json
    bool : Bool → Json
    number : (text : String) (is_zero : Bool) → Json
    str : String → Json
    array : Items → Json
    object : Fields → Json

  pub data Items : Type 0 where
    nil : Items
    cons : Json → Items → Items

  pub data Fields : Type 0 where
    end : Fields
    field : String → Json → Fields → Fields

abbrev pub items : Items → List Json
items nil = []
items (cons v vs) = v ∷ items vs

abbrev pub fields : Fields → List (String × Json)
fields end = []
fields (field k v rest) = (k, v) ∷ fields rest

-- `bool(value)`
abbrev pub truthy : Json → Bool
truthy null = false
truthy (bool b) = b
truthy (number _ is_zero) = not is_zero
truthy (str s) = not (s == "")
truthy (array nil) = false
truthy (array (cons _ _)) = true
truthy (object end) = false
truthy (object (field _ _ _)) = true

-- `payload.get(key)`, where a missing key is `None`
abbrev pub lookup : Fields → String → Json
lookup fs k = get_or (get (fields fs) k) null

-- `str(value)`; the `repr` of a list or a dict is the argument's.
abbrev pub py_str : (Json → String) → Json → String
py_str repr null = "None"
py_str repr (bool true) = "True"
py_str repr (bool false) = "False"
py_str repr (number s _) = s
py_str repr (str s) = s
py_str repr v = repr v
