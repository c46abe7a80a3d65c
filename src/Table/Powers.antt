-- ===== src/Table/Powers.antt =====
-- The macro `ceillog2` of src/lobject.h, by which `rehash` and `setnodevector` of src/ltable.c measure.
use lua_reading.Prelude.{
  ℕ, suc, ◌-◌, ◌^◌, ◌≤◌, ◌<◌, leb, ◌≡◌, refl, ◌↔◌, inl, inr, arith, Bool-cases,
}
use native.Mathlib.Nat.{pow-le-pow_right}
use lua_reading.Logarithm.{IsLog, log2, log2_loop, log2-IsLog}
use lua_reading.Table.Counting.{ceillog2}

pub two-pow_mono : (i j : ℕ) → i ≤ j → 2 ^ i ≤ 2 ^ j
two-pow_mono i j h = pow-le-pow_right (omega arith) h

ceillog2_one : ceillog2 1 ≡ 0
unfolding ceillog2 log2 log2_loop
ceillog2_one = refl

ceillog2_more : (x : ℕ) → 2 ≤ x → x ≤ 2 ^ 32 → (n : ℕ) × (ceillog2 x ≡ suc n) × IsLog (x - 1) n
unfolding ceillog2
ceillog2_more x h small =
    let (n, e, bounds) = log2-IsLog (x - 1) (omega arith) (omega arith) in
    (n, rw e (ground arith), bounds)

-- It is the least power of 2 that is not below.
pub ceillog2-le : (x k : ℕ) → 1 ≤ x → x ≤ 2 ^ 32 → (ceillog2 x ≤ k) ↔ (x ≤ 2 ^ k)
ceillog2-le x k low high = elim (Bool-cases (leb 2 x)) [
  | inr one ↦
      let e : x ≡ 1 = ground (arith, one) in
      (
        λ h. rw e (omega (arith, two-pow_mono 0 k (omega arith))),
        λ h. rw (e, ceillog2_one) (omega arith),
      )
  | inl more ↦
      let (n, e, (above, below)) = ceillog2_more x (ground (arith, more)) high in
      (
        λ h. omega (arith, below, two-pow_mono (suc n) k (omega (arith, e, h))),
        λ h. elim (Bool-cases (leb k n)) [
          | inl out ↦ absurd (omega (arith, above, h, two-pow_mono k n (ground (arith, out))))
          | inr fits ↦ omega (arith, e, (let fits' : n < k = ground (arith, fits) in fits'))
        ],
      )
]
