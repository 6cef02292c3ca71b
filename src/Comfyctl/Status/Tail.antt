-- ===== src/Comfyctl/Status/Tail.antt =====
-- `lines[-tail:]` in `command_instance_logs` of comfyctl/cli.py.
use comfy_shell_v.Prelude.{
  ℕ, pos, zero, suc, ◌-◌, ◌≤◌, ◌≡◌, refl, ap, arith, String, List, [], ◌∷◌, ◌++◌, length, leb,
  false, Bool-cases, inl, inr,
}
use comfy_shell_v.Comfyctl.Status.{drop, last_lines}

-- The last lines of a text, as many as asked for where it has them
pub data LogTail (n : ℕ) (lines : List String) : List String → Type 0 where
  all_lines : length lines ≤ n → LogTail n lines lines
  last_only :
      (earlier shown : List String)
      → lines ≡ earlier ++ shown
      → length shown ≡ n
      → LogTail n lines shown

drop-append :
    (n : ℕ) (lines : List String) → (earlier : List String) × (lines ≡ earlier ++ drop n lines)
drop-append zero lines = ([], refl)
drop-append (suc n) [] = ([], refl)
drop-append (suc n) (x ∷ lines) =
    let (earlier, e) = drop-append n lines in (x ∷ earlier, ap (λ l. x ∷ l) e)

length-drop : (n : ℕ) (lines : List String) → length (drop n lines) ≡ length lines - n
length-drop zero lines = omega arith
length-drop (suc n) [] = omega arith
length-drop (suc n) (x ∷ lines) = omega (arith, length-drop n lines)

pub last_lines-LogTail :
    (n : ℕ) (lines : List String) → LogTail (suc n) lines (last_lines (pos (suc n)) lines)
unfolding last_lines
last_lines-LogTail n lines = elim (Bool-cases (leb (length lines) (suc n))) [
  | inl few ↦ rw (few_dropped (ground arith)) (all_lines (ground arith))
  | inr many ↦
      let (earlier, e) = drop-append (length lines - suc n) lines in
      last_only earlier _ e (omega (arith, length-drop (length lines - suc n) lines, more many))
]
  where
    few_dropped : length lines ≤ suc n → length lines - suc n ≡ 0
    few_dropped h = omega arith

    more : leb (length lines) (suc n) ≡ false → suc n ≤ length lines
    more h = ground arith
