-- ===== src/Table/Sizes.antt =====
-- src/ltable.c: the size of the array part, from the numbers of keys between powers of 2. `nums i` is
-- the number of integer keys in (2 ^ (i - 1), 2 ^ i].
use lua_reading.Prelude.{
  ℕ, zero, suc, ◌+◌, ◌*◌, ◌/◌, ◌^◌, ◌<◌, ltb, ◌==◌, if◌then◌else◌, ◌≡◌, refl, ◌⊎◌, inl, inr, arith,
  Bool-cases,
}
use native.Mathlib.Nat.{two-pow-succ}

-- The locals of `computesizes` but for `i` and `twotoi`, which is `2 ^ i`.
pub record Counts : Type 0 where
  pub a : ℕ
  pub na : ℕ
  pub n : ℕ

-- The body of the loop up to the `break`.
unfoldable pub count_slice : (ℕ → ℕ) → ℕ → ℕ → Counts → Counts
count_slice nums i twotoi c =
    let a = c.a + nums i in
    if ltb 0 (nums i)
    then (if ltb (twotoi / 2) a then record { a = a; na = a; n = twotoi } else record c { a = a })
    else c

-- `2 ^ i` reaches any `narray` below 2 ^ 31 in 32 rounds.
unfoldable pub count_slices : ℕ → (ℕ → ℕ) → ℕ → ℕ → ℕ → Counts → Counts
count_slices zero nums narray i twotoi c = c
count_slices (suc fuel) nums narray i twotoi c =
    let c' = count_slice nums i twotoi c in
    let rest = count_slices fuel nums narray (i + 1) (twotoi * 2) c' in
    if ltb (twotoi / 2) narray then (if c'.a == narray then c' else rest) else c

-- `computesizes`: the new `*narray` and what it returns.
unfoldable pub computesizes : (ℕ → ℕ) → ℕ → ℕ × ℕ
computesizes nums narray =
    let c = count_slices 32 nums narray 0 1 (record { a = 0; na = 0; n = 0 }) in (c.n, c.na)

-- The number of keys up to `2 ^ i`, less those in its last slice.
abbrev pub keys_below : (ℕ → ℕ) → ℕ → ℕ
keys_below nums zero = 0
keys_below nums (suc i) = keys_below nums i + nums i

-- A size is 0 without a key, or a power of 2 of which more than half is in use.
pub record IsUsedByHalf (nums : ℕ → ℕ) (n na : ℕ) : Type 0 where
  pub half :
      ((n ≡ 0) × (na ≡ 0)) ⊎ ((k : ℕ) × (n ≡ 2 ^ k) × (n / 2 < na) × (na ≡ keys_below nums (suc k)))

count_slice-half :
    (nums : ℕ → ℕ) (i : ℕ) (c : Counts)
    → c.a ≡ keys_below nums i
    → IsUsedByHalf nums c.n c.na
    → let c' = count_slice nums i (2 ^ i) c in
      (c'.a ≡ keys_below nums (suc i)) × IsUsedByHalf nums c'.n c'.na
unfolding count_slice
count_slice-half nums i c e h = elim (Bool-cases (ltb 0 (nums i))) [
  | inr none ↦ rw none (ground (arith, none, e), h)
  | inl some ↦ elim (Bool-cases (ltb (2 ^ i / 2) (c.a + nums i))) [
    | inl over ↦
        rw (some, over)
          (
            omega (arith, e),
            record { half = inr (i, refl, ground (arith, over), omega (arith, e)) },
          )
    | inr under ↦ rw (some, under) (omega (arith, e), h)
  ]
]

count_slices-half :
    (fuel : ℕ) (nums : ℕ → ℕ) (narray i : ℕ) (c : Counts)
    → c.a ≡ keys_below nums i
    → IsUsedByHalf nums c.n c.na
    → let r = count_slices fuel nums narray i (2 ^ i) c in IsUsedByHalf nums r.n r.na
unfolding count_slices
count_slices-half zero nums narray i c e h = h
count_slices-half (suc fuel) nums narray i c e h =
    let (e', h') = count_slice-half nums i c e h in
    let c' = count_slice nums i (2 ^ i) c in
    let s : i + 1 ≡ suc i = omega arith in
    let twice : 2 ^ i * 2 ≡ 2 ^ (suc i) = omega (arith, two-pow-succ i) in
    elim (Bool-cases (ltb (2 ^ i / 2) narray)) [
      | inr done ↦ rw done h
      | inl more ↦ elim (Bool-cases (c'.a == narray)) [
        | inl all ↦ rw (more, all) h'
        | inr some ↦ rw (more, some, s, twice) (count_slices-half fuel nums narray (suc i) c' e' h')
      ]
    ]

-- The size of the array part that `computesizes` chooses is 0, with no key to go there, or a power of 2
-- of which more than half is in use by the keys up to it, whose number it returns.
pub computesizes-IsUsedByHalf :
    (nums : ℕ → ℕ) (narray : ℕ)
    → IsUsedByHalf nums (computesizes nums narray).0 (computesizes nums narray).1
unfolding computesizes
computesizes-IsUsedByHalf nums narray =
    count_slices-half 32 nums narray 0 _ refl (record { half = inl (refl, refl) })
