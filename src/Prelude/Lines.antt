-- ===== src/Prelude/Lines.antt =====
-- Python's `str` methods that take a text apart: `strip`, `split`, `splitlines`, and `join`.
use Prim.Native.Nat.{ℕ}
use Prim.Native.Char.{Char, code}
use Prim.Native.String
use Prim.Native.String.{String}
use mathlib.Core.Path.{◌≡◌, refl, ◌∙◌, ap, sym}
use mathlib.Core.Logic.{inl, inr}
use mathlib.Core.Bool.{Bool, false, not, ◌&&◌, ◌||◌}
use mathlib.Core.List.{List, [], ◌∷◌}
use native.Mathlib.Omega.{arith}
use text.Mathlib.TextLemmas.{nil-append, cons-append, append-nil, append_assoc}
use comfy_shell_v.Prelude.Tests.{leb, eqb, if◌then◌else◌, Bool-cases, ⊤}
use comfy_shell_v.Prelude.Lists.{All}
use comfy_shell_v.Prelude.Text.{is_space, is_blank}

-- `s.lstrip()` and `s.rstrip()`
unfoldable pub lstrip : String → String
unfolding is_space
lstrip String.[] = ""
lstrip (String.◌∷◌ c s) = let rest = lstrip s in if is_space (code c) then rest else String.◌∷◌ c s

unfoldable pub rstrip : String → String
unfolding is_space is_blank
rstrip String.[] = ""
rstrip (String.◌∷◌ c s) =
    let rest = rstrip s in if is_space (code c) && is_blank s then "" else String.◌∷◌ c rest

unfoldable pub strip : String → String
unfolding lstrip rstrip
strip s = rstrip (lstrip s)

-- `s.split(c, 1)[0]` for a character
unfoldable pub before_char : ℕ → String → String
before_char mark String.[] = ""
before_char mark (String.◌∷◌ c s) =
    let rest = before_char mark s in if eqb (code c) mark then "" else String.◌∷◌ c rest

-- the character at the head of the first text
abbrev pub onto_first : Char → List String → List String
onto_first c [] = String.◌∷◌ c "" ∷ []
onto_first c (l ∷ ls) = String.◌∷◌ c l ∷ ls

-- `s.split(c)` for a character
unfoldable pub split_at : ℕ → String → List String
split_at mark String.[] = "" ∷ []
split_at mark (String.◌∷◌ c s) =
    let rest = split_at mark s in if eqb (code c) mark then "" ∷ rest else onto_first c rest

-- The characters that end a line for `splitlines`
abbrev pub is_break : ℕ → Bool
is_break c = leb 10 c && leb c 13 || leb 28 c && leb c 30 || eqb c 133 || eqb c 8232 || eqb c 8233

abbrev starts_with_newline : String → Bool
starts_with_newline String.[] = false
starts_with_newline (String.◌∷◌ c s) = eqb (code c) 10

-- `s.splitlines()`: a carriage return before a newline ends no line of its own.
unfoldable pub split_lines : String → List String
split_lines String.[] = []
split_lines (String.◌∷◌ c s) =
    let rest = split_lines s in
    if eqb (code c) 13 && starts_with_newline s
    then rest
    else (if is_break (code c) then "" ∷ rest else onto_first c rest)

-- `s.split()`, and the rest of the word that the text begins with
abbrev starts_word : String → Bool
starts_word String.[] = false
starts_word (String.◌∷◌ c s) = not (is_space (code c))

unfoldable pub split_words : String → List String
unfolding is_space
split_words String.[] = []
split_words (String.◌∷◌ c s) =
    let rest = split_words s in
    if is_space (code c)
    then rest
    else (if starts_word s then onto_first c rest else String.◌∷◌ c "" ∷ rest)

-- `separator.join(parts)`
unfoldable pub join : String → List String → String
join separator [] = ""
join separator (s ∷ []) = s
join separator (s ∷ t ∷ parts) = String.◌++◌ s (String.◌++◌ separator (join separator (t ∷ parts)))

abbrev newline_char : Char
newline_char = "\n"

abbrev pub newline : String
newline = String.◌∷◌ newline_char ""

-- A text that is one line.
abbrev pub IsLine : String → Type 0
IsLine String.[] = ⊤
IsLine (String.◌∷◌ c s) = (is_break (code c) ≡ false) × IsLine s

onto_first-IsLine :
    (c : Char) (ls : List String)
    → is_break (code c) ≡ false
    → All IsLine ls
    → All IsLine (onto_first c ls)
onto_first-IsLine c [] h a = ((h, tt), tt)
onto_first-IsLine c (l ∷ ls) h a = ((h, a.0), a.1)

pub split_lines-IsLine : (s : String) → All IsLine (split_lines s)
unfolding split_lines
split_lines-IsLine String.[] = tt
split_lines-IsLine (String.◌∷◌ c s) = elim (Bool-cases (eqb (code c) 13 && starts_with_newline s)) [
  | inl joined ↦ rw joined (split_lines-IsLine s)
  | inr apart ↦ elim (Bool-cases (is_break (code c))) [
    | inl ends ↦ rw (apart, ends) (tt, split_lines-IsLine s)
    | inr more ↦ rw (apart, more) (onto_first-IsLine c _ more (split_lines-IsLine s))
  ]
]

not_return : (c : ℕ) → is_break c ≡ false → eqb c 13 ≡ false
not_return c h = ground arith

newline_append : (s : String) → String.◌++◌ newline s ≡ String.◌∷◌ newline_char s
newline_append s = rw (cons-append, nil-append)

-- A line, its end and what follows.
split_lines-append :
    (l s : String)
    → IsLine l
    → split_lines (String.◌++◌ l (String.◌++◌ newline s)) ≡ l ∷ split_lines s
unfolding split_lines
split_lines-append String.[] s h = rw (nil-append, newline_append) refl
split_lines-append (String.◌∷◌ c l) s h =
    rw (cons-append, not_return (code c) h.0, h.0, split_lines-append l s h.1)

-- The lines of a text are the lines that it has been joined of.
pub split_lines-join :
    (l : String) (ls : List String)
    → All IsLine (l ∷ ls)
    → split_lines (String.◌++◌ (join newline (l ∷ ls)) newline) ≡ l ∷ ls
unfolding join split_lines
split_lines-join l [] h =
    ap (λ t. split_lines (String.◌++◌ l t)) (sym (append-nil newline)) ∙ split_lines-append l "" h.0
split_lines-join l (k ∷ ls) h =
    rw (append_assoc, append_assoc)
      (split_lines-append l _ h.0 ∙ ap (λ t. l ∷ t) (split_lines-join k ls h.1))
