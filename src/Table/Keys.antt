-- ===== src/Table/Keys.antt =====
-- Main positions of keys: they are nodes, and equal keys have the same.
use lua_reading.Prelude.{ℕ, zero, suc, ◌+◌, ◌-◌, ◌%◌, ◌^◌, ◌<◌, true, false, ◌≡◌, ◌∙◌, ◌⊎◌, arith}
use Prim.Native.Nat.{bit_or, ◌/◌}
use native.Mathlib.Nat.{one-le-pow, two-pow-succ}
use lua_reading.Prelude.Bits.{bit_and-ones, bit_or-split, bit_or-zero}
use lua_reading.Table.{
  Value, nil, boolean, number, pointer, string, object, Host, is_nil, rawequal, hashpow2, hashmod,
  hashpointer, hashnum, mainposition,
}

-- What the code relies on of the host's comparison of doubles: it is symmetric, two different
-- doubles are equal only if both are zeros, and zeros are equal.
pub record ComparesNumbers (host : Host) : Type 0 where
  pub swap : (x y : ℕ) → Host.numeq host x y ≡ Host.numeq host y x
  pub zeros :
      (x y : ℕ)
      → Host.numeq host x y ≡ true
      → (x ≡ y) ⊎ ((Host.numeq host x 0 ≡ true) × (Host.numeq host y 0 ≡ true))
  pub zero :
      (x y : ℕ)
      → Host.numeq host x 0 ≡ true
      → Host.numeq host y 0 ≡ true
      → Host.numeq host x y ≡ true

module _ (host : Host) (law : ComparesNumbers host) where
  pub rawequal_swap : (a b : Value) → rawequal host a b ≡ rawequal host b a
  unfolding rawequal
  rawequal_swap (number x) (number y) = law.swap x y
  rawequal_swap a b = ground arith

  pub mainposition-eq :
      (size : ℕ) (a b : Value)
      → rawequal host a b ≡ true
      → mainposition host size a ≡ mainposition host size b
  unfolding rawequal mainposition hashnum
  mainposition-eq size (number x) (number y) e = ground (arith, law.zeros x y e)
  mainposition-eq size a b e = ground arith

  pub used_key : (a b : Value) → is_nil b ≡ false → rawequal host a b ≡ true → is_nil a ≡ false
  unfolding rawequal
  used_key a b u e = ground arith

  pub same_key :
      (a b c : Value)
      → rawequal host a c ≡ true
      → rawequal host b c ≡ true
      → rawequal host a b ≡ true
  unfolding rawequal
  same_key (number x) (number y) (number z) e e' =
      ground (arith, law.zeros x z e, law.zeros y z e', law.zero x y, law.swap y z, e, e')
  same_key a b c e e' = ground arith

module _ (host : Host) where
  hashpow2-lt : (n x : ℕ) → hashpow2 host (2 ^ n) x < 2 ^ n
  unfolding hashpow2
  hashpow2-lt n x = rw (bit_and-ones n x) (omega (arith, one-le-pow n 2 (omega arith)))

  odd_mask : (n : ℕ) → bit_or (2 ^ suc n - 1) 1 ≡ 2 ^ suc n - 1
  odd_mask n =
      let positive = one-le-pow n 2 (omega arith) in
      let half : (2 ^ suc n - 1) / 2 ^ 1 ≡ 2 ^ n - 1 = rw (two-pow-succ n) (omega arith) in
      let low : (2 ^ suc n - 1) % 2 ^ 1 ≡ 1 = rw (two-pow-succ n) (omega arith) in
      rw (half, low, bit_or-zero) at (bit_or-split 1 (2 ^ suc n - 1) 1)
      ∙ rw (two-pow-succ n) (omega (arith, positive))

  hashmod-lt : (n x : ℕ) → hashmod host (2 ^ n) x < 2 ^ n
  unfolding hashmod
  hashmod-lt zero x = omega arith
  hashmod-lt (suc n) x =
      rw (odd_mask n) (rw (two-pow-succ n) (omega (arith, one-le-pow n 2 (omega arith))))

  pub mainposition-lt : (n : ℕ) (key : Value) → mainposition host (2 ^ n) key < 2 ^ n
  unfolding mainposition hashnum hashpointer
  mainposition-lt n (number x) = ground (
    arith,
    one-le-pow n 2 (omega arith),
    hashmod-lt n ((x % 2 ^ 32 + x / 2 ^ 32 % 2 ^ 32) % 2 ^ 32),
  )
  mainposition-lt n (string s) = hashpow2-lt n _
  mainposition-lt n (boolean b) = hashpow2-lt n b
  mainposition-lt n (pointer p) = hashmod-lt n _
  mainposition-lt n (object p) = hashmod-lt n _
  mainposition-lt n nil = hashmod-lt n _
