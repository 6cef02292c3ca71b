-- ===== src/Comfyctl/Processes/PidText.antt =====
-- The text of a process id, as `command_instance_start` of comfyctl/cli.py writes it and `read_pid` reads it.
use Prim.Native.Char.{Char, code}
use Prim.Native.String
use text.Mathlib.TextLemmas.{nil-append, cons-append, append-nil, append_assoc}
use comfy_shell_v.Prelude.{
  ℕ, ℤ, pos, negsuc, zero, suc, ◌+◌, ◌-◌, ◌*◌, ◌/◌, ◌%◌, ◌≤◌, ◌<◌, String, Bool, true, false, ◌&&◌,
  ◌≡◌, refl, ◌∙◌, sym, ap, arith, some, leb, eqb,
}
use comfy_shell_v.Prelude.Decimal.{digit, show_ℕ, show_ℕ_lem}
use comfy_shell_v.Prelude.Text.{is_space}
use comfy_shell_v.Prelude.Lines.{lstrip, rstrip, strip}
use comfy_shell_v.Comfyctl.Tools.{show_ℤ}
use comfy_shell_v.Comfyctl.Processes.{digits_value, negated, map_option, parse_int}

digit-char : (d : ℕ) → d < 10 → (c : Char) × (digit d ≡ String.◌∷◌ c "") × (code c ≡ 48 + d)
unfolding digit
digit-char zero h = ("0", refl, refl)
digit-char (suc zero) h = ("1", refl, refl)
digit-char (suc (suc zero)) h = ("2", refl, refl)
digit-char (suc (suc (suc zero))) h = ("3", refl, refl)
digit-char (suc (suc (suc (suc zero)))) h = ("4", refl, refl)
digit-char (suc (suc (suc (suc (suc zero))))) h = ("5", refl, refl)
digit-char (suc (suc (suc (suc (suc (suc zero)))))) h = ("6", refl, refl)
digit-char (suc (suc (suc (suc (suc (suc (suc zero))))))) h = ("7", refl, refl)
digit-char (suc (suc (suc (suc (suc (suc (suc (suc zero)))))))) h = ("8", refl, refl)
digit-char (suc (suc (suc (suc (suc (suc (suc (suc (suc zero))))))))) h = ("9", refl, refl)
digit-char (suc (suc (suc (suc (suc (suc (suc (suc (suc (suc n)))))))))) h = absurd (omega arith)

-- Digits and signs
abbrev is_plain : String → Bool
is_plain String.[] = true
is_plain (String.◌∷◌ c s) = (leb 45 (code c) && leb (code c) 57) && is_plain s

-- A text of a number that begins with a digit, and from which `int` goes on with the number
record Digits (n : ℕ) (s : String) : Type 0 where
  first : Char
  rest : String
  begins : s ≡ String.◌∷◌ first rest
  is_digit : 48 ≤ code first
  plain : is_plain s ≡ true
  reads : (t : String) → digits_value 0 false (String.◌++◌ s t) ≡ digits_value n true t

cons_eq : (c : Char) (t : String) → String.◌++◌ (String.◌∷◌ c "") t ≡ String.◌∷◌ c t
cons_eq c t = cons-append c "" t ∙ ap (λ s. String.◌∷◌ c s) (nil-append t)

digit_value :
    (acc d : ℕ) (after : Bool) (c : Char) (t : String)
    → d < 10
    → code c ≡ 48 + d
    → digits_value acc after (String.◌∷◌ c t) ≡ digits_value (acc * 10 + d) true t
unfolding digits_value
digit_value acc d after c t h at_code =
    let low : leb 48 (code c) ≡ true = ground arith in
    let high : leb (code c) 57 ≡ true = ground arith in
    let value : acc * 10 + (code c - 48) ≡ acc * 10 + d = omega arith in
    rw low (rw high (ap (λ v. digits_value v true t) value))

value_step :
    (acc d : ℕ) (after : Bool) (t : String)
    → d < 10
    → digits_value acc after (String.◌++◌ (digit d) t) ≡ digits_value (acc * 10 + d) true t
value_step acc d after t h =
    let (c, e, at_code) = digit-char d h in
    ap (λ s. digits_value acc after (String.◌++◌ s t)) e
    ∙ ap (digits_value acc after) (cons_eq c t)
    ∙ digit_value acc d after c t h at_code

plain_digit : (d : ℕ) → d < 10 → is_plain (digit d) ≡ true
plain_digit d h = let (c, e, at_code) = digit-char d h in ap is_plain e ∙ ground arith

is_plain-append :
    (s t : String) → is_plain s ≡ true → is_plain t ≡ true → is_plain (String.◌++◌ s t) ≡ true
is_plain-append String.[] t h k = ap is_plain (nil-append t) ∙ k
is_plain-append (String.◌∷◌ c s) t h k =
    ap is_plain (cons-append c s t) ∙ ground (arith, is_plain-append s t, h, k)

digit-Digits : (n : ℕ) → n < 10 → Digits n (digit n)
digit-Digits n h =
    let (c, e, at_code) = digit-char n h in
    record {
      first = c;
      rest = "";
      begins = e;
      is_digit = omega arith;
      plain = plain_digit n h;
      reads = λ t. value_step 0 n false t h ∙ ap (λ v. digits_value v true t) (omega arith);
    }

more-Digits :
    (n : ℕ) (high : String)
    → 10 ≤ n
    → Digits (n / 10) high
    → Digits n (String.◌++◌ high (digit (n % 10)))
more-Digits n high h d =
    let low = digit (n % 10) in
    let small : n % 10 < 10 = omega arith in
    record {
      first = d.first;
      rest = String.◌++◌ d.rest low;
      begins = ap (λ s. String.◌++◌ s low) d.begins ∙ cons-append d.first d.rest low;
      is_digit = d.is_digit;
      plain = is_plain-append high low d.plain (plain_digit (n % 10) small);
      reads = λ t.
          ap (digits_value 0 false) (append_assoc high low t)
          ∙ d.reads (String.◌++◌ low t)
          ∙ value_step (n / 10) (n % 10) true t small
          ∙ ap (λ v. digits_value v true t) (omega arith);
    }

show_ℕ-Digits : (n : ℕ) → Digits n (show_ℕ n)
show_ℕ-Digits n = show_ℕ_lem Digits digit-Digits more-Digits n

read_digits : (n : ℕ) → digits_value 0 false (show_ℕ n) ≡ some n
unfolding digits_value
read_digits n = ap (digits_value 0 false) (sym (append-nil (show_ℕ n))) ∙ (show_ℕ-Digits n).reads ""

no_space : (n : ℕ) → (leb 45 n && leb n 57) ≡ true → is_space n ≡ false
unfolding is_space
no_space n h = ground arith

lstrip-plain : (s : String) → is_plain s ≡ true → lstrip s ≡ s
unfolding lstrip
lstrip-plain String.[] h = refl
lstrip-plain (String.◌∷◌ c s) h = rw (no_space (code c) (ground arith)) refl

rstrip-plain : (s : String) → is_plain s ≡ true → rstrip s ≡ s
unfolding rstrip
rstrip-plain String.[] h = refl
rstrip-plain (String.◌∷◌ c s) h =
    rw (no_space (code c) (ground arith)) (ap (λ r. String.◌∷◌ c r) (rstrip-plain s (ground arith)))

strip-plain : (s : String) → is_plain s ≡ true → strip s ≡ s
unfolding strip
strip-plain s h = ap rstrip (lstrip-plain s h) ∙ rstrip-plain s h

signed : (n : ℕ) → String.◌++◌ "-" (show_ℕ n) ≡ String.◌∷◌ "-" (show_ℕ n)
signed n = cons_eq "-" (show_ℕ n)

show_ℤ-plain : (pid : ℤ) → is_plain (show_ℤ pid) ≡ true
unfolding show_ℤ
show_ℤ-plain (pos n) = (show_ℕ-Digits n).plain
show_ℤ-plain (negsuc n) = ap is_plain (signed (suc n)) ∙ (show_ℕ-Digits (suc n)).plain

parse_unsigned :
    (n : ℕ) (s rest : String) (c : Char)
    → s ≡ String.◌∷◌ c rest
    → 48 ≤ code c
    → digits_value 0 false s ≡ some n
    → parse_int s ≡ some (pos n)
unfolding parse_int
parse_unsigned n s rest c e h k =
    let no_minus : eqb (code c) 45 ≡ false = ground arith in
    let no_plus : eqb (code c) 43 ≡ false = ground arith in
    ap parse_int e
    ∙ rw no_minus (rw no_plus (ap (map_option pos) (sym (ap (digits_value 0 false) e) ∙ k)))

parse_int-show_ℤ : (pid : ℤ) → parse_int (show_ℤ pid) ≡ some pid
unfolding show_ℤ parse_int
parse_int-show_ℤ (pos n) =
    let d = show_ℕ-Digits n in
    parse_unsigned n (show_ℕ n) d.rest d.first d.begins d.is_digit (read_digits n)
parse_int-show_ℤ (negsuc n) =
    ap parse_int (signed (suc n)) ∙ ap (map_option negated) (read_digits (suc n))

pub parse_int-strip-show_ℤ : (pid : ℤ) → parse_int (strip (show_ℤ pid)) ≡ some pid
parse_int-strip-show_ℤ pid =
    ap parse_int (strip-plain (show_ℤ pid) (show_ℤ-plain pid)) ∙ parse_int-show_ℤ pid
