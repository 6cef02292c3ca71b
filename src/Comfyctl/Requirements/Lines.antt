-- ===== src/Comfyctl/Requirements/Lines.antt =====
-- What the requirement file without torch holds, line by line.
use Prim.Native.String
use comfy_shell_v.Prelude.{
  String, Bool, not, ◌≡◌, refl, ◌∙◌, ap, arith, List, [], ◌∷◌, All, filterb, Bool-cases, inl, inr,
}
use comfy_shell_v.Prelude.Lines.{
  split_lines, join, newline, IsLine, split_lines-IsLine, split_lines-join,
}
use comfy_shell_v.Comfyctl.Requirements.{is_torch_requirement, requirements_without_torch}

abbrev is_kept : String → Bool
is_kept line = not (is_torch_requirement line)

-- A file is never without a line: an empty list is written as one empty line.
abbrev pub or_blank : List String → List String
or_blank [] = "" ∷ []
or_blank (line ∷ lines) = line ∷ lines

filterb-All :
    (P : String → Type 0) (test : String → Bool) (xs : List String)
    → All P xs
    → All P (filterb test xs)
filterb-All P test [] a = tt
filterb-All P test (x ∷ xs) a = elim (Bool-cases (test x)) [
  | inl keeps ↦ rw keeps (a.0, filterb-All P test xs a.1)
  | inr drops ↦ rw drops (filterb-All P test xs a.1)
]

filterb-filterb :
    (test : String → Bool) (xs : List String) → filterb test (filterb test xs) ≡ filterb test xs
filterb-filterb test [] = refl
filterb-filterb test (x ∷ xs) = ground (arith, filterb-filterb test xs)

written_lines :
    (lines : List String)
    → All IsLine lines
    → split_lines (String.◌++◌ (join newline lines) newline) ≡ or_blank lines
unfolding join split_lines
written_lines [] a = refl
written_lines (l ∷ ls) a = split_lines-join l ls a

filterb-or_blank :
    (lines : List String)
    → filterb is_kept lines ≡ lines
    → filterb is_kept (or_blank lines) ≡ or_blank lines
unfolding is_torch_requirement
filterb-or_blank [] h = refl
filterb-or_blank (l ∷ ls) h = h

join-or_blank : (lines : List String) → join newline (or_blank lines) ≡ join newline lines
unfolding join
join-or_blank [] = refl
join-or_blank (l ∷ ls) = refl

kept_lines : String → List String
kept_lines text = filterb is_kept (split_lines text)

split_lines-written :
    (text : String) → split_lines (requirements_without_torch text) ≡ or_blank (kept_lines text)
unfolding requirements_without_torch kept_lines
split_lines-written text =
    written_lines _ (filterb-All IsLine is_kept (split_lines text) (split_lines-IsLine text))

-- The lines of the file without torch are the lines of the requirement file that do not name
-- a torch package, in their order, or one empty line if there are none; and leaving torch out
-- a second time changes nothing.
pub requirements_without_torch_lem :
    (text : String)
    → (split_lines (requirements_without_torch text)
        ≡ or_blank (filterb (λ line. not (is_torch_requirement line)) (split_lines text)))
      × (requirements_without_torch (requirements_without_torch text)
          ≡ requirements_without_torch text)
unfolding requirements_without_torch kept_lines
requirements_without_torch_lem text = (split_lines-written text, again)
  where
    kept_again :
        filterb is_kept (split_lines (requirements_without_torch text)) ≡ or_blank (kept_lines text)
    kept_again =
        ap (filterb is_kept) (split_lines-written text)
        ∙ filterb-or_blank (kept_lines text) (filterb-filterb is_kept (split_lines text))

    again :
        requirements_without_torch (requirements_without_torch text)
        ≡ requirements_without_torch text
    again =
        ap (λ lines. String.◌++◌ (join newline lines) newline) kept_again
        ∙ ap (λ s. String.◌++◌ s newline) (join-or_blank (kept_lines text))
