-- ===== src/Prelude/Taking.antt =====
-- The first entries of a list, and what stands behind them.
use Prim.Native.Nat.{ℕ, zero, suc}
use mathlib.Core.Path.{◌≡◌, refl}
use mathlib.Core.Bool.{true, false}
use mathlib.Core.Option.{some}
use mathlib.Core.List.{List, [], ◌∷◌, ◌++◌}
use native.Mathlib.Omega.{arith}
use comfy_shell_v.Prelude.Tests.{ltb}
use comfy_shell_v.Prelude.Lists.{length, take, get_last?}

module _ {A : Type 0} where
  pub take-all : (n : ℕ) (xs : List A) → ltb n (length xs) ≡ false → take n xs ≡ xs
  take-all zero [] h = refl
  take-all zero (x ∷ xs) h = absurd (ground arith)
  take-all (suc n) [] h = refl
  take-all (suc n) (x ∷ xs) h = ground (arith, take-all n xs)

  pub take-take-suc : (n : ℕ) (xs : List A) → take n (take (suc n) xs) ≡ take n xs
  take-take-suc zero xs = refl
  take-take-suc (suc n) [] = refl
  take-take-suc (suc n) (x ∷ xs) = ground (arith, take-take-suc n xs)

  -- One entry more than the limit tells whether there are more.
  pub length-take-suc : (n : ℕ) (xs : List A) → ltb n (length (take (suc n) xs)) ≡ ltb n (length xs)
  length-take-suc zero [] = refl
  length-take-suc zero (x ∷ xs) = ground arith
  length-take-suc (suc n) [] = refl
  length-take-suc (suc n) (x ∷ xs) = ground (arith, length-take-suc n xs)

  -- A list that is longer than the limit, cut at the last entry within it.
  pub record Cut (n : ℕ) (xs : List A) : Type 0 where
    pub earlier : List A
    pub last : A
    pub later : List A
    pub whole : xs ≡ earlier ++ last ∷ later
    pub taken : take n xs ≡ earlier ++ last ∷ []
    pub last_taken : get_last? (take n xs) ≡ some last
    pub shorter : ltb (length later) (length xs) ≡ true

  pub cut : (n : ℕ) (xs : List A) → ltb (suc n) (length xs) ≡ true → Cut (suc n) xs
  cut n [] h = absurd (ground arith)
  cut zero (x ∷ xs) h = record {
    earlier = [];
    last = x;
    later = xs;
    whole = refl;
    taken = refl;
    last_taken = refl;
    shorter = ground arith;
  }
  cut (suc n) (x ∷ []) h = absurd (ground arith)
  cut (suc n) (x ∷ y ∷ xs) h =
      let c = cut n (y ∷ xs) (ground (arith, h)) in
      record {
        earlier = x ∷ c.earlier;
        last = c.last;
        later = c.later;
        whole = ground (arith, c.whole);
        taken = ground (arith, c.taken);
        last_taken = c.last_taken;
        shorter = ground (arith, c.shorter);
      }
