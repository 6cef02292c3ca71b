-- ===== src/Fixture/TextOrder.antt =====
-- A comparison of texts by the numbers of their characters, for the tests.

use Prim.Native.Char.{code}
use text.Mathlib.TextEquality.{Char-path}
use comfy_shell_v.Prelude.{
  String, Bool, true, false, ◌≡◌, refl, arith, inl, inr, eq_refl, ltb, eqb, if◌then◌else◌,
  Bool-cases,
}
use comfy_shell_v.Items.Rank.{IsTextOrder}

abbrev pub text_lt : String → String → Bool
text_lt String.[] String.[] = false
text_lt String.[] (String.◌∷◌ d t) = true
text_lt (String.◌∷◌ c s) String.[] = false
text_lt (String.◌∷◌ c s) (String.◌∷◌ d t) =
    if eqb (code c) (code d) then text_lt s t else ltb (code c) (code d)

text_lt_irrefl : (s : String) → text_lt s s ≡ false
text_lt_irrefl String.[] = refl
text_lt_irrefl (String.◌∷◌ c s) = ground (arith, text_lt_irrefl s)

text_lt_trans : (s t u : String) → text_lt s t ≡ true → text_lt t u ≡ true → text_lt s u ≡ true
text_lt_trans String.[] String.[] u h k = absurd (ground arith)
text_lt_trans String.[] (String.◌∷◌ d t) String.[] h k = absurd (ground arith)
text_lt_trans String.[] (String.◌∷◌ d t) (String.◌∷◌ e u) h k = refl
text_lt_trans (String.◌∷◌ c s) String.[] u h k = absurd (ground arith)
text_lt_trans (String.◌∷◌ c s) (String.◌∷◌ d t) String.[] h k = absurd (ground arith)
text_lt_trans (String.◌∷◌ c s) (String.◌∷◌ d t) (String.◌∷◌ e u) h k =
    ground (arith, text_lt_trans s t u)

-- Texts of which neither is before the other are equal.
text_lt_antisym : (s t : String) → text_lt s t ≡ false → text_lt t s ≡ false → s ≡ t
text_lt_antisym String.[] String.[] h k = refl
text_lt_antisym String.[] (String.◌∷◌ d t) h k = absurd (ground arith)
text_lt_antisym (String.◌∷◌ c s) String.[] h k = absurd (ground arith)
text_lt_antisym (String.◌∷◌ c s) (String.◌∷◌ d t) h k =
    let same : code c ≡ code d = ground (arith, h, k) in
    let rest = text_lt_antisym s t (ground (arith, h, k)) (ground (arith, h, k)) in
    λ i. String.◌∷◌ (Char-path c d same i) (rest i)

pub text_lt-IsTextOrder : IsTextOrder text_lt
text_lt-IsTextOrder = record {
  irreflexive = text_lt_irrefl;
  transitive = text_lt_trans;
  total = λ s t h. elim (Bool-cases (text_lt s t)) [
    | inl first ↦ inl first
    | inr no_first ↦ elim (Bool-cases (text_lt t s)) [
      | inl second ↦ inr second
      | inr no_second ↦
          absurd (ground (arith, h, text_lt_antisym s t no_first no_second, eq_refl t))
    ]
  ];
}
