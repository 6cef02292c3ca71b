-- ===== src/Comfyctl/Contract.antt =====
-- How the actions of comfyctl/cli.py end, and what they print: rules for the parts of a command.
pub mod Leaves
pub mod Directories
pub mod Processes
pub mod Prepare
pub mod Install
pub mod Stop
pub mod Start
pub mod Reports
pub mod Rounds
pub mod Exit
use comfy_shell_v.Prelude.{
  ℕ, String, Bool, true, false, ◌≡◌, ap, refl, ◌∙◌, subst, arith, Option, none, some, List, [], ◌∷◌,
  ◌&&◌, leb, ◌⊎◌, inl, if◌then◌else◌, ⊤,
}
use comfy_shell_v.Prelude.Json.{Json, Fields, str, bool, field, fields}
use comfy_shell_v.Prelude.Dict.{get}
use comfy_shell_v.Comfyctl.Machine.{
  Platform, Machine, CommandFailure, Result, ok, failed, value_error, crash, exhausted, Action,
  raise, continue, success, emit, finally_do, ◌>>=◌, ◌>>◌,
}
use comfy_shell_v.Errors.Codes.{is_registered}
use comfy_shell_v.Comfyctl.Machine.Printed.{sorted_fields, map_sorted, get-sorted_fields}

-- A failure has one of the four exit codes, and a code of the service's error registry.
abbrev pub is_known : CommandFailure → Bool
is_known e = leb 2 e.exit_code && leb e.exit_code 5 && is_registered e.error_code

-- The end of a part of a command: no unknown failure, and no loop without its end
abbrev pub ends_well {ℓ} : {A : Type ℓ} → Result A → Bool
ends_well (ok a) = true
ends_well (failed e) = is_known e
ends_well (value_error text) = true
ends_well crash = true
ends_well exhausted = false

-- A part of a command that prints nothing
pub record Silent {ℓ} {A : Type ℓ} (part : Action A) : Type ℓ where
  pub ends : (env : Platform) (m : Machine) → ends_well (part env m).0 ≡ true
  pub prints_nothing : (env : Platform) (m : Machine) → (part env m).1.printed ≡ m.printed

-- One that sends no signal either
pub record Quiet {ℓ} {A : Type ℓ} (part : Action A) : Type ℓ where
  pub ends : (env : Platform) (m : Machine) → ends_well (part env m).0 ≡ true
  pub prints_nothing : (env : Platform) (m : Machine) → (part env m).1.printed ≡ m.printed
  pub sends_nothing : (env : Platform) (m : Machine) → (part env m).1.signals ≡ m.signals

pub Quiet-Silent {ℓ} : {A : Type ℓ} {part : Action A} → Quiet part → Silent part
Quiet-Silent h = record { ends = h.ends; prints_nothing = h.prints_nothing }

-- The value of a key of a printed object
abbrev pub value : String → Fields → Option Json
value key payload = get (fields payload) key

-- A text or a truth value under a key is printed as it is.
pub value-sorted_fields :
    (key : String) (payload : Fields) (v : Option Json)
    → value key payload ≡ v
    → value key (sorted_fields payload) ≡ map_sorted v
value-sorted_fields key payload v h = get-sorted_fields payload key ∙ ap map_sorted h

-- One object has been printed, which says `ok` and has no error code.
abbrev pub SucceededIn : List Fields → List Fields → Type 0
SucceededIn before after =
    (ts : String) × (rest : Fields) × (after
      ≡ sorted_fields (field "ok" (bool true) (field "ts" (str ts) rest)) ∷ before)
    × (value "error_code" rest ≡ none)

-- What has been printed when a command ends: one object that says `ok` where it returns, and nothing
-- where it fails. A crash may come after the object.
abbrev pub Finished : Result ℕ → List Fields → List Fields → Type 0
Finished (ok n) before after = (n ≡ 0) × SucceededIn before after
Finished (failed e) before after = (is_known e ≡ true) × (after ≡ before)
Finished (value_error text) before after = after ≡ before
Finished crash before after = (after ≡ before) ⊎ SucceededIn before after
Finished exhausted before after = ⊥

pub record Finishes (command : Action ℕ) : Type 0 where
  pub at :
      (env : Platform) (m : Machine)
      → Finished (command env m).0 m.printed (command env m).1.printed

module _ {ℓ κ} {A : Type ℓ} {B : Type κ} where
  continue-ends :
      (r : Result A) (f : A → Action B) (env : Platform) (m : Machine)
      → ends_well r ≡ true
      → ((a : A) → ends_well (f a env m).0 ≡ true)
      → ends_well (continue r f env m).0 ≡ true
  continue-ends (ok a) f env m h k = k a
  continue-ends (failed e) f env m h k = h
  continue-ends (value_error text) f env m h k = refl
  continue-ends crash f env m h k = refl
  continue-ends exhausted f env m h k = h

  continue-ok :
      (r : Result A) (f : A → Action B) (env : Platform) (m : Machine) (b : B)
      → (continue r f env m).0 ≡ ok b
      → (a : A) × (r ≡ ok a) × ((f a env m).0 ≡ ok b)
  continue-ok (ok a) f env m b h = (a, refl, h)
  continue-ok (failed e) f env m b h = cc
  continue-ok (value_error text) f env m b h = cc
  continue-ok crash f env m b h = cc
  continue-ok exhausted f env m b h = cc

  -- Where a sequence returns, both parts have returned.
  pub bind-ok :
      (part : Action A) (f : A → Action B) (env : Platform) (m : Machine) (b : B)
      → ((part >>= f) env m).0 ≡ ok b
      → (a : A) × ((part env m).0 ≡ ok a) × ((f a env (part env m).1).0 ≡ ok b)
  bind-ok part f env m b h = let (r, m') = part env m in continue-ok r f env m' b h

  continue-returns :
      (r : Result A) (f : A → Action B) (env : Platform) (m : Machine) (b : B)
      → (continue r f env m).0 ≡ ok b
      → (a : A) × (r ≡ ok a) × (continue r f env m ≡ f a env m)
  continue-returns (ok a) f env m b h = (a, refl, refl)
  continue-returns (failed e) f env m b h = cc
  continue-returns (value_error text) f env m b h = cc
  continue-returns crash f env m b h = cc
  continue-returns exhausted f env m b h = cc

  -- The same, with what the sequence has done.
  pub bind-returns :
      (part : Action A) (f : A → Action B) (env : Platform) (m : Machine) (b : B)
      → ((part >>= f) env m).0 ≡ ok b
      → (a : A) × ((part env m).0 ≡ ok a) × ((part >>= f) env m ≡ f a env (part env m).1)
  bind-returns part f env m b h = let (r, m') = part env m in continue-returns r f env m' b h

  continue-printed :
      (r : Result A) (f : A → Action B) (env : Platform) (m : Machine)
      → ((a : A) → (f a env m).1.printed ≡ m.printed)
      → (continue r f env m).1.printed ≡ m.printed
  continue-printed (ok a) f env m k = k a
  continue-printed (failed e) f env m k = refl
  continue-printed (value_error text) f env m k = refl
  continue-printed crash f env m k = refl
  continue-printed exhausted f env m k = refl

  continue-signals :
      (r : Result A) (f : A → Action B) (env : Platform) (m : Machine)
      → ((a : A) → (f a env m).1.signals ≡ m.signals)
      → (continue r f env m).1.signals ≡ m.signals
  continue-signals (ok a) f env m k = k a
  continue-signals (failed e) f env m k = refl
  continue-signals (value_error text) f env m k = refl
  continue-signals crash f env m k = refl
  continue-signals exhausted f env m k = refl

  pub bind-Silent :
      (part : Action A) (f : A → Action B)
      → Silent part
      → ((a : A) → Silent (f a))
      → Silent (part >>= f)
  bind-Silent part f h k = record {
    ends = λ env m.
        let (r, m') = part env m in
        continue-ends r f env m' (h.ends env m) (λ a. (k a).ends env m');
    prints_nothing = λ env m.
        let (r, m') = part env m in
        continue-printed r f env m' (λ a. (k a).prints_nothing env m') ∙ h.prints_nothing env m;
  }

  pub bind-Quiet :
      (part : Action A) (f : A → Action B)
      → Quiet part
      → ((a : A) → Quiet (f a))
      → Quiet (part >>= f)
  bind-Quiet part f h k = record {
    ends = λ env m.
        let (r, m') = part env m in
        continue-ends r f env m' (h.ends env m) (λ a. (k a).ends env m');
    prints_nothing = λ env m.
        let (r, m') = part env m in
        continue-printed r f env m' (λ a. (k a).prints_nothing env m') ∙ h.prints_nothing env m;
    sends_nothing = λ env m.
        let (r, m') = part env m in
        continue-signals r f env m' (λ a. (k a).sends_nothing env m') ∙ h.sends_nothing env m;
  }

continue-Finished :
    {A : Type 0} (r : Result A) (f : A → Action ℕ) (env : Platform) (m : Machine)
    (before : List Fields)
    → ends_well r ≡ true
    → m.printed ≡ before
    → ((a : A) → r ≡ ok a → Finished (f a env m).0 m.printed (f a env m).1.printed)
    → Finished (continue r f env m).0 before (continue r f env m).1.printed
continue-Finished (ok a) f env m before h p k =
    subst (λ b. Finished (f a env m).0 b (f a env m).1.printed) p (k a refl)
continue-Finished (failed e) f env m before h p k = (h, p)
continue-Finished (value_error text) f env m before h p k = p
continue-Finished crash f env m before h p k = inl p
continue-Finished exhausted f env m before h p k = absurd (ground arith)

-- A sequence whose second part is known only where the first has ended.
pub bind-Finished :
    {A : Type 0} (part : Action A) (f : A → Action ℕ) (env : Platform) (m : Machine)
    → Silent part
    → ((a : A)
        → (part env m).0 ≡ ok a
        → Finished
            (f a env (part env m).1).0
            (part env m).1.printed
            (f a env (part env m).1).1.printed)
    → Finished ((part >>= f) env m).0 m.printed ((part >>= f) env m).1.printed
bind-Finished part f env m h k =
    let (r, m') = part env m in
    continue-Finished r f env m' m.printed (h.ends env m) (h.prints_nothing env m) k

pub if-Finished :
    (b : Bool) (p q : Action ℕ) (env : Platform) (m : Machine)
    → (b ≡ true → Finished (p env m).0 m.printed (p env m).1.printed)
    → (b ≡ false → Finished (q env m).0 m.printed (q env m).1.printed)
    → let (r, m') = (if b then p else q) env m in Finished r m.printed m'.printed
if-Finished true p q env m h k = h refl
if-Finished false p q env m h k = k refl

pub raise-Finishes : (e : CommandFailure) → is_known e ≡ true → Finishes (raise e)
raise-Finishes e h = record { at = λ env m. (h, refl) }

pub bind-Finishes-Silent :
    {A : Type 0} (part : Action A) (f : A → Action ℕ)
    → Silent part
    → ((a : A) → Finishes (f a))
    → Finishes (part >>= f)
bind-Finishes-Silent part f h k = record {
  at = λ env m. bind-Finished part f env m h (λ a e. (k a).at env (part env m).1);
}

pub bind-Finishes :
    {A : Type 0} (part : Action A) (f : A → Action ℕ)
    → Quiet part
    → ((a : A) → Finishes (f a))
    → Finishes (part >>= f)
bind-Finishes part f h k = record {
  at = λ env m. bind-Finished part f env m (Quiet-Silent h) (λ a e. (k a).at env (part env m).1);
}

pub success-Finishes : (rest : Fields) → value "error_code" rest ≡ none → Finishes (success rest)
unfolding success
success-Finishes rest h = record { at = λ env m. (refl, (env.utc_now m.tick, rest, refl, h)) }
