-- ===== src/FloatByte.antt =====
-- src/lobject.c: an int as a "floating point byte" eeeeexxx, and back. Table sizes are kept so in
-- instructions.
use lua_reading.Prelude.{
  ℕ, zero, suc, ◌+◌, ◌-◌, ◌*◌, ◌/◌, ◌%◌, ◌^◌, ◌≤◌, ◌<◌, true, false, ltb, leb, ◌==◌, if◌then◌else◌,
  ◌≡◌, refl, arith, Option, none, some, Bool-cases, inl, inr, ◌⊎◌, ◌∙◌, lt→ltb, ltb→lt,
}
use lua_reading.Prelude.Bits.{bit_and-ones, bit_or-low}
use Prim.Native.Nat.{bit_and, bit_or}
use native.Mathlib.Nat.{two-pow-succ, mul-le-mul_right, pow-le-pow_right}

-- `while (x >= 16) { x = (x+1) >> 1; e++; }`: `x` and `e` when it ends. `x` halves in each round. The
-- sum is taken on unsigned ints of 32 bits.
unfoldable pub round_up : ℕ → ℕ → ℕ → ℕ × ℕ
round_up zero x e = (x, e)
round_up (suc fuel) x e =
    let rest = round_up fuel ((x + 1) % 2 ^ 32 / 2) (e + 1) in if leb 16 x then rest else (x, e)

pack : ℕ × ℕ → ℕ
pack (x, e) = if ltb x 8 then x else bit_or ((e + 1) * 2 ^ 3) (x - 8)

-- `luaO_int2fb`
unfoldable pub int2fb : ℕ → ℕ
unfolding pack
int2fb x = pack (round_up 32 x 0)

-- `luaO_fb2int`, on an int that is not negative; `none` where the shift leaves the range of int, which
-- C does not define.
unfoldable pub fb2int : ℕ → Option ℕ
fb2int x =
    let e = bit_and (x / 8) 31 in
    let m = (bit_and x 7 + 8) * 2 ^ (e - 1) in
    if e == 0 then some x else if ltb m (2 ^ 31) then some m else none

-- What the loop keeps: the value does not fall below what it began with.
record Rounds (x n : ℕ) (r : ℕ × ℕ) (e : ℕ) : Type 0 where
  small : r.0 < 16
  above : x * 2 ^ e ≤ r.0 * 2 ^ r.1
  least : ((r.0 ≡ x) × (r.1 ≡ e)) ⊎ (8 ≤ r.0)
  short : r.1 ≤ e + n

scaled : (x y d : ℕ) → x ≤ y * 2 → x * d ≤ y * (d + d)
scaled x y d h = let e : y * (d + d) ≡ y * 2 * d = omega arith in rw e (mul-le-mul_right d h)

round_up-Rounds :
    (fuel n x e : ℕ) → n ≤ fuel → x < 2 ^ 32 - 1 → x ≤ 15 * 2 ^ n → Rounds x n (round_up fuel x e) e
unfolding round_up
round_up-Rounds zero zero x e le h k = record {
  small = omega arith;
  above = omega arith;
  least = inl (refl, refl);
  short = omega arith;
}
round_up-Rounds zero (suc n) x e le h k = absurd (omega arith)
round_up-Rounds (suc fuel) zero x e le h k =
    let little : leb 16 x ≡ false = ground arith in
    rw little (record {
      small = omega arith;
      above = omega arith;
      least = inl (refl, refl);
      short = omega arith;
    })
round_up-Rounds (suc fuel) (suc n) x e le h k = elim (Bool-cases (leb 16 x)) [
  | inr little ↦ rw little (record {
    small = ground arith;
    above = omega arith;
    least = inl (refl, refl);
    short = omega arith;
  })
  | inl big ↦
      let large : 16 ≤ x = ground arith in
      let y = (x + 1) % 2 ^ 32 / 2 in
      let half : y ≤ 15 * 2 ^ n = omega (arith, two-pow-succ n) in
      let r = round_up-Rounds fuel n y (e + 1) (omega arith) (omega arith) half in
      let s : e + 1 ≡ suc e = omega arith in
      let up : y * 2 ^ (e + 1) ≡ y * (2 ^ e + 2 ^ e) = rw (s, two-pow-succ e) refl in
      let grown = scaled x y (2 ^ e) (omega arith) in
      rw big (record {
        small = r.small;
        above = omega (arith, r.above, grown, up);
        least = inr (elim r.least [ inl (same, _) ↦ omega (arith, same) | inr l ↦ l ]);
        short = omega (arith, r.short);
      })
]

in_range : (y p : ℕ) → y < 16 → p ≤ 2 ^ 27 → y * p < 2 ^ 31
in_range y p small h =
    let above : y * p ≤ 15 * p = mul-le-mul_right p (omega arith) in omega (arith, above)

-- A packed number with its leading digit.
fb2int-pack :
    (y e : ℕ)
    → 8 ≤ y
    → y < 16
    → e ≤ 27
    → (fb2int (pack (y, e)) ≡ some (y * 2 ^ e)) × (pack (y, e) < 256)
unfolding fb2int pack
fb2int-pack y e low small short =
    let big : ltb y 8 ≡ false = ground arith in
    let w = (e + 1) * 8 + (y - 8) in
    let joined : bit_or ((e + 1) * 2 ^ 3) (y - 8) ≡ w =
      bit_or-low 3 (e + 1) (y - 8) (omega arith) in
    let exponent : bit_and (w / 8) 31 ≡ e + 1 = bit_and-ones 5 (w / 8) ∙ omega arith in
    let mantissa : bit_and w 7 ≡ y - 8 = bit_and-ones 3 w ∙ omega arith in
    let nonzero : (e + 1 == 0) ≡ false = ground arith in
    let back : y - 8 + 8 ≡ y = omega arith in
    let less : e + 1 - 1 ≡ e = omega arith in
    let power : 2 ^ e ≤ 2 ^ 27 = pow-le-pow_right (omega arith) short in
    let fits : ltb (y * 2 ^ e) (2 ^ 31) ≡ true = lt→ltb _ _ (in_range y (2 ^ e) small power) in
    rw (big, joined, exponent, mantissa, nonzero, back, less, fits) (refl, omega arith)

fb2int-small : (y e : ℕ) → y < 8 → (fb2int (pack (y, e)) ≡ some y) × (pack (y, e) < 256)
unfolding fb2int pack
fb2int-small y e h =
    let little : ltb y 8 ≡ true = lt→ltb y 8 h in
    let exponent : bit_and (y / 8) 31 ≡ 0 = bit_and-ones 5 (y / 8) ∙ omega arith in
    rw (little, exponent) (refl, omega arith)

-- For an unsigned int up to 15 * 2^27, the byte of `luaO_int2fb` fits eight bits, and `luaO_fb2int`
-- makes of it, without overflow of its int, a number that is not below the one it began with.
pub fb2int-int2fb :
    (x : ℕ) → x ≤ 15 * 2 ^ 27 → (int2fb x < 256) × (v : ℕ) × (fb2int (int2fb x) ≡ some v) × (x ≤ v)
unfolding int2fb
fb2int-int2fb x h =
    let r = round_up-Rounds 32 27 x 0 (omega arith) (omega arith) h in
    let (y, e) = round_up 32 x 0 in
    elim (Bool-cases (ltb y 8)) [
      | inr big ↦
          let (value, byte) = fb2int-pack y e (ground arith) r.small r.short in
          (byte, y * 2 ^ e, value, omega (arith, r.above))
      | inl little ↦ elim r.least [
        | inl (same, none_added) ↦
            let (value, byte) = fb2int-small y e (ltb→lt y 8 little) in
            (byte, y, value, omega (arith, same))
        | inr l ↦ absurd (omega (arith, ltb→lt y 8 little))
      ]
    ]
