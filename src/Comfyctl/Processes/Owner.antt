-- ===== src/Comfyctl/Processes/Owner.antt =====
-- What `process_owned_by_instance` of comfyctl/cli.py has found out where it says yes.
use comfy_shell_v.Prelude.{
  ℕ, ℤ, String, Bool, true, false, ◌≡◌, refl, ◌∙◌, sym, ap, inl, inr, Option, none, some, List, [],
  ◌∷◌, arith, ◌&&◌, eq_iff, Option-cases,
}
use comfy_shell_v.Comfyctl.Paths.{AbsolutePath, InstancePaths}
use comfy_shell_v.Comfyctl.Machine.{Platform, Machine, ok, same_path}
use comfy_shell_v.Comfyctl.Processes.{
  process_alive, process_owned_by_instance, has_main, process_cwd, process_cmdline, compared,
  owned_if_alive,
}
use comfy_shell_v.Comfyctl.Tools.{path_text}
use comfy_shell_v.Comfyctl.Contract.{bind-ok}

-- Two moments of the run and what the process was found to be then: it works in the instance's checkout
-- and runs a main.py.
pub record IsInstance (env : Platform) (pid : ℤ) (paths : InstancePaths) : Type 0 where
  pub cwd_asked : Machine
  pub cmdline_asked : Machine
  pub tick : ℕ
  pub checkout : AbsolutePath
  pub cmdline : List String
  pub works_there : (process_cwd pid env cwd_asked).0 ≡ ok (some checkout)
  pub is_the_checkout : env.resolve_strict tick (path_text paths.checkout) ≡ some checkout
  pub has_cmdline : (process_cmdline pid env cmdline_asked).0 ≡ ok (some cmdline)
  pub runs_main : has_main cmdline ≡ true

same_path-eq : (p q : AbsolutePath) → same_path p q ≡ true → p ≡ q
same_path-eq [] [] h = refl
same_path-eq [] (n ∷ q) h = cc
same_path-eq (n ∷ p) [] h = cc
same_path-eq (n ∷ p) (k ∷ q) h = ground (arith, eq_iff n k, same_path-eq p q)

and_parts : (a b : Bool) → (a && b) ≡ true → (a ≡ true) × (b ≡ true)
and_parts a b h = (ground arith, ground arith)

compared-ok :
    (paths : InstancePaths) (cwd : Option AbsolutePath) (cmdline : Option (List String))
    (env : Platform) (m : Machine)
    → (compared paths cwd cmdline env m).0 ≡ ok true
    → (c : AbsolutePath) × (words : List String) × (cwd ≡ some c)
      × (cmdline ≡ some words)
      × (env.resolve_strict m.tick (path_text paths.checkout) ≡ some c)
      × (has_main words ≡ true)
compared-ok paths none cmdline env m h = cc
compared-ok paths (some c) none env m h = cc
compared-ok paths (some c) (some words) env m h =
    elim (Option-cases (env.resolve_strict m.tick (path_text paths.checkout))) [
      | inl missing ↦ absurd (ground (arith, missing))
      | inr (checkout, found) ↦
          let (same, runs) =
            and_parts (same_path c checkout) (has_main words) (ground (arith, found)) in
          (
            c,
            words,
            refl,
            refl,
            found ∙ ap (λ p. some p) (sym (same_path-eq c checkout same)),
            runs,
          )
    ]

owned_if_alive-IsInstance :
    (pid : ℤ) (paths : InstancePaths) (is_alive : Bool) (env : Platform) (m : Machine)
    → (owned_if_alive pid paths is_alive env m).0 ≡ ok true
    → IsInstance env pid paths
owned_if_alive-IsInstance pid paths false env m h = cc
owned_if_alive-IsInstance pid paths true env m h =
    let (cwd, at_cwd, h1) = bind-ok (process_cwd pid) _ env m true h in
    let m1 = (process_cwd pid env m).1 in
    let (cmdline, at_cmdline, h2) = bind-ok (process_cmdline pid) _ env m1 true h1 in
    let m2 = (process_cmdline pid env m1).1 in
    let (c, words, is_c, is_words, found, runs) = compared-ok paths cwd cmdline env m2 h2 in
    record {
      cwd_asked = m;
      cmdline_asked = m1;
      tick = m2.tick;
      checkout = c;
      cmdline = words;
      works_there = at_cwd ∙ ap (λ o. ok o) is_c;
      is_the_checkout = found;
      has_cmdline = at_cmdline ∙ ap (λ o. ok o) is_words;
      runs_main = runs;
    }

pub process_owned-IsInstance :
    (pid : ℤ) (paths : InstancePaths) (env : Platform) (m : Machine)
    → (process_owned_by_instance pid paths env m).0 ≡ ok true
    → IsInstance env pid paths
unfolding process_owned_by_instance
process_owned-IsInstance pid paths env m h =
    let (is_alive, _, h1) = bind-ok (process_alive pid) _ env m true h in
    owned_if_alive-IsInstance pid paths is_alive env _ h1
