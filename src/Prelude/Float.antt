-- ===== src/Prelude/Float.antt =====
-- Python's `float` as an interface: the operations that the code uses, and the laws of IEEE
-- arithmetic on numbers that are finite and not NaN. Addition is not assumed associative, and no
-- result is assumed exact beyond what rounding leaves true. `sum` is what the database makes of
-- `COALESCE(SUM(amount), 0.0)` over rows with these amounts, in the order of their insertion: engines
-- differ in how they add, so it is any function, and a theorem that needs a law of it says so.
use Prim.Native.Nat.{ℕ, suc, ◌≤◌, ◌<◌, ◌+◌, ◌-◌, ◌*◌, ◌/◌}
use mathlib.Core.Path.{◌≡◌}
use mathlib.Core.Logic.{◌⊎◌}
use mathlib.Core.List.{List, [], ◌∷◌, ◌++◌}
use mathlib.Core.Bool.{Bool, true, false, not, ◌&&◌}
use native.Mathlib.Omega.{arith}
use routing.Prelude.Tests.{if◌then◌else◌, leb, le→leb}
use routing.Prelude.Lists.{All}

-- `dec n` is the literal of value n / 10000.
pub record Float (F : Type 0) : Type 0 where
  pub dec : ℕ → F
  pub add : F → F → F
  pub sub : F → F → F
  pub mul : F → F → F
  pub le : F → F → Bool
  pub sum : List F → F

module _ {F : Type 0} ⦃f : Float F⦄ where
  abbrev pub nought : F
  nought = f.dec 0

  abbrev pub one : F
  one = f.dec 10_000

  abbrev pub lt : F → F → Bool
  lt x y = not (f.le y x)

  -- `x == y`
  abbrev pub eq : F → F → Bool
  eq x y = f.le x y && f.le y x

  -- `min(x, y)` and `max(x, y)`: the first argument unless the second is strictly better.
  abbrev pub min : F → F → F
  min x y = if lt y x then y else x

  abbrev pub max : F → F → F
  max x y = if lt x y then y else x

  infix 4 ◌≼◌
  abbrev pub ◌≼◌ : F → F → Type 0
  x ≼ y = f.le x y ≡ true

pub record IsFloat (F : Type 0) ⦃f : Float F⦄ : Type 0 where
  pub le_refl : (x : F) → x ≼ x
  pub le_trans : (x y z : F) → x ≼ y → y ≼ z → x ≼ z
  pub le_total : (x y : F) → (x ≼ y) ⊎ (y ≼ x)
  pub le_dec : (m n : ℕ) → m ≤ n → f.dec m ≼ f.dec n
  pub add_mono : (x y u v : F) → x ≼ y → u ≼ v → f.add x u ≼ f.add y v
  pub add_nought : (x : F) → f.add x nought ≡ x
  pub add_comm : (x y : F) → f.add x y ≡ f.add y x
  pub sub_mono : (x y u : F) → x ≼ y → f.sub x u ≼ f.sub y u
  pub sub_anti : (x u v : F) → u ≼ v → f.sub x v ≼ f.sub x u
  pub sub_nought : (x : F) → f.sub x nought ≡ x
  pub sub_self : (x : F) → f.sub x x ≡ nought
  pub mul_nonneg : (x y : F) → nought ≼ x → nought ≼ y → nought ≼ f.mul x y
  pub mul_nought : (x : F) → f.mul nought x ≡ nought
  -- whole numbers up to 2 ^ 53 are exact: (n + 1) - 1 is n, and they are told apart
  pub sub_whole :
      (n : ℕ)
      → suc n ≤ 9_007_199_254_740_992
      → f.sub (f.dec (suc n * 10_000)) one ≡ f.dec (n * 10_000)
  pub lt_whole :
      (m n : ℕ)
      → m < n
      → n ≤ 9_007_199_254_740_992
      → f.le (f.dec (n * 10_000)) (f.dec (m * 10_000)) ≡ false

-- What every way of adding has: where no amount is below nought, the sum is at least each of them.
pub record IsSum (F : Type 0) ⦃f : Float F⦄ : Type 0 where
  pub le_sum :
      (xs : List F) (x : F) (ys : List F)
      → All (λ y. nought ≼ y) (xs ++ (x ∷ ys))
      → x ≼ f.sum (xs ++ (x ∷ ys))

-- The engine adds the rows one after the other as they were inserted (SQLite before 3.43, which scans
-- by row id).
pub record AddsInOrder (F : Type 0) ⦃f : Float F⦄ : Type 0 where
  pub sum-append : (xs : List F) (x : F) → f.sum (xs ++ (x ∷ [])) ≡ f.add (f.sum xs) x

abbrev pub total : List ℕ → ℕ → ℕ
total [] n = n
total (x ∷ xs) n = total xs (n + x)

-- The laws can be met: whole numbers of ten-thousandths.
instance abbrev pub ticks : Float ℕ
ticks = record {
  dec = λ n. n;
  add = ◌+◌;
  sub = ◌-◌;
  mul = λ x y. x * y / 10_000;
  le = leb;
  sum = λ xs. total xs 0;
}

total_above : (xs : List ℕ) (n : ℕ) → n ≤ total xs n
total_above [] n = omega arith
total_above (x ∷ xs) n = omega (arith, total_above xs (n + x))

total-le : (xs : List ℕ) (x : ℕ) (ys : List ℕ) (n : ℕ) → x ≤ total (xs ++ (x ∷ ys)) n
total-le [] x ys n = omega (arith, total_above ys (n + x))
total-le (y ∷ xs) x ys n = total-le xs x ys (n + y)

total-append : (xs : List ℕ) (x n : ℕ) → total (xs ++ (x ∷ [])) n ≡ total xs n + x
total-append [] x n = omega arith
total-append (y ∷ xs) x n = total-append xs x (n + y)

pub ticks-IsSum : IsSum ℕ
ticks-IsSum = record { le_sum = λ xs x ys h. le→leb _ _ (total-le xs x ys 0) }

pub ticks-AddsInOrder : AddsInOrder ℕ
ticks-AddsInOrder = record { sum-append = λ xs x. total-append xs x 0 }

pub ticks-IsFloat : IsFloat ℕ
ticks-IsFloat = record {
  le_refl = λ x. ground arith;
  le_trans = λ x y z p q. ground arith;
  le_total = λ x y. ground arith;
  le_dec = λ m n p. ground arith;
  add_mono = λ x y u v p q. ground arith;
  add_nought = λ x. omega arith;
  add_comm = λ x y. omega arith;
  sub_mono = λ x y u p. ground arith;
  sub_anti = λ x u v p. ground arith;
  sub_nought = λ x. omega arith;
  sub_self = λ x. omega arith;
  mul_nonneg = λ x y p q. ground arith;
  mul_nought = λ x. omega arith;
  sub_whole = λ n h. omega arith;
  lt_whole = λ m n h k. ground arith;
}

-- What follows from the laws alone.
module _ {F : Type 0} ⦃f : Float F⦄ (laws : IsFloat F) where
  open laws use {le_refl, add_mono, add_nought, add_comm, sub_anti, sub_nought}

  pub add-le_left : (x y : F) → nought ≼ y → x ≼ f.add x y
  add-le_left x y h = rw add_nought at (add_mono x x nought y (le_refl x) h)

  pub add-le_right : (x y : F) → nought ≼ x → y ≼ f.add x y
  add-le_right x y h = rw add_comm (add-le_left y x h)

  pub add_nonneg : (x y : F) → nought ≼ x → nought ≼ y → nought ≼ f.add x y
  add_nonneg x y hx hy = laws.le_trans _ _ _ hx (add-le_left x y hy)

  pub sub-le : (x y : F) → nought ≼ y → f.sub x y ≼ x
  sub-le x y h = rw sub_nought at (sub_anti x nought y h)
