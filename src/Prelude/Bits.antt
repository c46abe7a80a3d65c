-- ===== src/Prelude/Bits.antt =====
-- `bit_and` and `bit_or` at variables: both work on the digits above and below any position
-- separately, and a mask of ones takes a remainder.
use Prim.Native.Nat.{
  ℕ, zero, suc, ◌+◌, ◌-◌, ◌*◌, ◌/◌, ◌%◌, ◌^◌, ◌≤◌, ◌<◌, min, max, bit_and, bit_or, digits, bitwise,
  bit_and-bitwise, bit_or-bitwise,
}
use mathlib.Core.Path.{◌≡◌, refl, sym, ap, ◌∙◌}
use native.Mathlib.Omega.{arith}
use native.Mathlib.Nat.{
  div-div-eq-div-mul, one-le-pow, two-pow-succ, div-add-mod, div-one, mod-one, div-eq_of_lt,
  mod-eq_of_lt, add-mul-div_right, add-mul-mod_self_right, mod-mod,
}

module _ (z : ℕ → ℕ) (f : ℕ → ℕ → ℕ) (halve : (b : ℕ) → z b ≡ z (b / 2) * 2 + f 0 (b % 2)) where
  ended : (fuel b : ℕ) → digits z f (suc fuel) 0 b ≡ digits z f fuel 0 b
  ended zero b = refl
  ended (suc fuel) b = refl

  one_more : (fuel a b : ℕ) → a ≤ fuel → digits z f (suc fuel) a b ≡ digits z f fuel a b
  one_more fuel zero b enough = ended fuel b
  one_more zero (suc a) b enough = absurd (omega arith)
  one_more (suc fuel) (suc a) b enough =
      ap (λ d. d * 2 + f (suc a % 2) (b % 2)) (one_more fuel (suc a / 2) (b / 2) (omega arith))

  spare_fuel : (k a b fuel : ℕ) → a ≤ fuel → digits z f (k + fuel) a b ≡ digits z f fuel a b
  spare_fuel zero a b fuel enough = ap (λ n. digits z f n a b) (omega arith)
  spare_fuel (suc k) a b fuel enough =
      let e : suc k + fuel ≡ suc (k + fuel) = omega arith in
      rw e (one_more (k + fuel) a b (omega arith) ∙ spare_fuel k a b fuel enough)

  bitwise_step : (x y : ℕ) → bitwise z f x y ≡ bitwise z f (x / 2) (y / 2) * 2 + f (x % 2) (y % 2)
  bitwise_step zero y = halve y
  bitwise_step (suc n) y =
      let half = suc n / 2 in
      let split : n ≡ n - half + half = omega arith in
      let same = spare_fuel (n - half) half (y / 2) half (omega arith) in
      omega (arith, ap (λ k. digits z f k half (y / 2)) split, same)

bit_and_step : (a b : ℕ) → bit_and a b ≡ bit_and (a / 2) (b / 2) * 2 + min (a % 2) (b % 2)
bit_and_step a b = omega (
  arith,
  bit_and-bitwise a b,
  bit_and-bitwise (a / 2) (b / 2),
  bitwise_step (λ b. zero) min (λ b. omega arith) a b,
)

bit_or_step : (a b : ℕ) → bit_or a b ≡ bit_or (a / 2) (b / 2) * 2 + max (a % 2) (b % 2)
bit_or_step a b = omega (
  arith,
  bit_or-bitwise a b,
  bit_or-bitwise (a / 2) (b / 2),
  bitwise_step (λ b. b) max (λ b. omega arith) a b,
)

half_div : (a d : ℕ) → a / (d + d) ≡ a / 2 / d
half_div a d = let e : d + d ≡ 2 * d = omega arith in rw e (sym (div-div-eq-div-mul a 2 d))

half_mod : (a d : ℕ) → 0 < d → (a % (d + d) / 2 ≡ a / 2 % d) × (a % (d + d) % 2 ≡ a % 2)
half_mod a d h =
    let whole = div-add-mod a (d + d) in
    let half = div-add-mod (a / 2) d in
    let quotient = ap (λ (q : ℕ). d * q) (half_div a d) in
    (omega (arith, whole, half, quotient), omega (arith, whole, half, quotient))

-- An operation on binary digits acts on the digits from `p` up and on those below separately.
module _ (op f : ℕ → ℕ → ℕ) (empty : op 0 0 ≡ 0) where
  module _ (step : (a b : ℕ) → op a b ≡ op (a / 2) (b / 2) * 2 + f (a % 2) (b % 2)) where
    split_at :
        (p a b : ℕ) → op a b ≡ op (a / 2 ^ p) (b / 2 ^ p) * 2 ^ p + op (a % 2 ^ p) (b % 2 ^ p)
    split_at zero a b = simp (div-one, mod-one, empty) (omega arith)
    split_at (suc p) a b =
        let d = 2 ^ p in
        let positive : 0 < d = one-le-pow p 2 (omega arith) in
        let (ha, ra) = half_mod a d positive in
        let (hb, rb) = half_mod b d positive in
        let low : op (a % (d + d)) (b % (d + d))
            ≡ op (a / 2 % d) (b / 2 % d) * 2 + f (a % 2) (b % 2) =
          step _ _ ∙ rw (ha, hb, ra, rb) refl in
        rw (two-pow-succ p, half_div a d, half_div b d, low)
          (omega (arith, step a b, split_at p (a / 2) (b / 2)))

pub bit_and-split :
    (p a b : ℕ)
    → bit_and a b ≡ bit_and (a / 2 ^ p) (b / 2 ^ p) * 2 ^ p + bit_and (a % 2 ^ p) (b % 2 ^ p)
bit_and-split = split_at bit_and min refl bit_and_step

pub bit_or-split :
    (p a b : ℕ)
    → bit_or a b ≡ bit_or (a / 2 ^ p) (b / 2 ^ p) * 2 ^ p + bit_or (a % 2 ^ p) (b % 2 ^ p)
bit_or-split = split_at bit_or max refl bit_or_step

zero-bit_and : (b : ℕ) → bit_and 0 b ≡ 0
zero-bit_and b = bit_and-bitwise 0 b

pub zero-bit_or : (b : ℕ) → bit_or 0 b ≡ b
zero-bit_or b = bit_or-bitwise 0 b

zeros_fuel : (n a : ℕ) → a ≤ n → (bit_and a 0 ≡ 0) × (bit_or a 0 ≡ a)
zeros_fuel n zero h = (refl, refl)
zeros_fuel zero (suc a) h = absurd (omega arith)
zeros_fuel (suc n) (suc a) h =
    let (x, y) = zeros_fuel n (suc a / 2) (omega arith) in
    (omega (arith, bit_and_step (suc a) 0, x), omega (arith, bit_or_step (suc a) 0, y))

pub bit_and-zero : (a : ℕ) → bit_and a 0 ≡ 0
bit_and-zero a = (zeros_fuel a a (omega arith)).0

pub bit_or-zero : (a : ℕ) → bit_or a 0 ≡ a
bit_or-zero a = (zeros_fuel a a (omega arith)).1

-- A mask of `p` ones keeps the `p` lowest digits.
pub bit_and-ones : (p a : ℕ) → bit_and a (2 ^ p - 1) ≡ a % 2 ^ p
bit_and-ones zero a = simp mod-one (bit_and-zero a)
bit_and-ones (suc p) a =
    let d = 2 ^ p in
    let positive : 0 < d = one-le-pow p 2 (omega arith) in
    let ones : (d + d - 1) / 2 ≡ d - 1 = omega arith in
    let odd : (d + d - 1) % 2 ≡ 1 = omega arith in
    let (half, low) = half_mod a d positive in
    let step = rw (ones, odd, bit_and-ones p (a / 2)) at (bit_and_step a (d + d - 1)) in
    rw (two-pow-succ p) (omega (arith, step, half, low))

-- A number from its parts above and below `d`.
parts : (d x y : ℕ) → y < d → ((x * d + y) / d ≡ x) × ((x * d + y) % d ≡ y)
parts d x y h =
    let swap : x * d + y ≡ y + x * d = omega arith in
    rw swap (
      add-mul-div_right y x (omega arith) ∙ rw (div-eq_of_lt h) (omega arith),
      add-mul-mod_self_right y x d ∙ mod-eq_of_lt h,
    )

above : (d x : ℕ) → 0 < d → (x * d / d ≡ x) × (x * d % d ≡ 0)
above d x h = let e : x * d ≡ x * d + 0 = omega arith in rw e (parts d x 0 h)

-- A mask with zeros below position `p`, and one with ones there.
pub bit_and-shifted : (p a m : ℕ) → bit_and a (m * 2 ^ p) ≡ bit_and (a / 2 ^ p) m * 2 ^ p
bit_and-shifted p a m =
    let (high, low) = above (2 ^ p) m (one-le-pow p 2 (omega arith)) in
    rw (high, low, bit_and-zero) at (bit_and-split p a (m * 2 ^ p)) ∙ omega arith

pub bit_and-shifted_ones :
    (p a m : ℕ) → bit_and a (m * 2 ^ p + (2 ^ p - 1)) ≡ bit_and (a / 2 ^ p) m * 2 ^ p + a % 2 ^ p
bit_and-shifted_ones p a m =
    let positive : 0 < 2 ^ p = one-le-pow p 2 (omega arith) in
    let (high, low) = parts (2 ^ p) m (2 ^ p - 1) (omega arith) in
    rw (high, low, bit_and-ones, mod-mod) at (bit_and-split p a (m * 2 ^ p + (2 ^ p - 1)))

-- Numbers with no digit in common: `or` adds them.
pub bit_or-low : (p x y : ℕ) → y < 2 ^ p → bit_or (x * 2 ^ p) y ≡ x * 2 ^ p + y
bit_or-low p x y h =
    let (high, low) = above (2 ^ p) x (omega arith) in
    rw (high, low, div-eq_of_lt h, mod-eq_of_lt h, bit_or-zero, zero-bit_or) at
      (bit_or-split p (x * 2 ^ p) y)

pub bit_or-high :
    (p x y low : ℕ) → low < 2 ^ p → bit_or (x * 2 ^ p + low) (y * 2 ^ p) ≡ bit_or x y * 2 ^ p + low
bit_or-high p x y low h =
    let (hx, lx) = parts (2 ^ p) x low h in
    let (hy, ly) = above (2 ^ p) y (omega arith) in
    rw (hx, lx, hy, ly, bit_or-zero) at (bit_or-split p (x * 2 ^ p + low) (y * 2 ^ p))

pub bit_or-low_left : (p x y : ℕ) → y < 2 ^ p → bit_or y (x * 2 ^ p) ≡ x * 2 ^ p + y
bit_or-low_left p x y h =
    let e : y ≡ 0 * 2 ^ p + y = omega arith in
    rw (e, bit_or-high p 0 x y h, zero-bit_or) (omega arith)
