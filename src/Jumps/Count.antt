-- ===== src/Jumps/Count.antt =====
-- A function has no more distinct jumps than instructions, so the fuel of the loops is enough.
use lua_reading.Prelude.{
  ℕ, zero, suc, ◌≤◌, ◌<◌, ◌≡◌, refl, sym, ap, inl, inr, List, [], ◌∷◌, arith, ◌==◌, if◌then◌else◌,
  ==_iff, Bool-cases, length, All,
}
use lua_reading.Jumps.Lists.{IsIn, AreDistinct}

abbrev without : ℕ → List ℕ → List ℕ
without n [] = []
without n (j ∷ js) = let further = without n js in if j == n then further else j ∷ further

without-IsIn : (n k : ℕ) (js : List ℕ) → IsIn k (without n js) → IsIn k js
without-IsIn n k [] h = h
without-IsIn n k (j ∷ js) h = elim (Bool-cases (j == n)) [
  | inl e ↦ inr (without-IsIn n k js (rw e at h))
  | inr e ↦ elim (rw e at h) [ inl here ↦ inl here | inr i ↦ inr (without-IsIn n k js i) ]
]

without-AreDistinct : (n : ℕ) (js : List ℕ) → AreDistinct js → AreDistinct (without n js)
without-AreDistinct n [] h = tt
without-AreDistinct n (j ∷ js) h = elim (Bool-cases (j == n)) [
  | inl e ↦ rw e (without-AreDistinct n js h.1)
  | inr e ↦ rw e ((λ i. h.0 (without-IsIn n j js i)), without-AreDistinct n js h.1)
]

without_below : (n : ℕ) (js : List ℕ) → All (λ j. j < suc n) js → All (λ j. j < n) (without n js)
without_below n [] h = tt
without_below n (j ∷ js) h = elim (Bool-cases (j == n)) [
  | inl e ↦ rw e (without_below n js h.1)
  | inr e ↦ rw e (ground (arith, e, h.0), without_below n js h.1)
]

length-without_same : (n : ℕ) (js : List ℕ) → ¬ IsIn n js → length (without n js) ≡ length js
length-without_same n [] out = refl
length-without_same n (j ∷ js) out = elim (Bool-cases (j == n)) [
  | inl e ↦ absurd (out (inl (sym ((==_iff j n).0 e))))
  | inr e ↦ rw e (ap (λ k. suc k) (length-without_same n js (λ i. out (inr i))))
]

length-without : (n : ℕ) (js : List ℕ) → AreDistinct js → length js ≤ suc (length (without n js))
length-without n [] h = omega arith
length-without n (j ∷ js) h = elim (Bool-cases (j == n)) [
  | inl e ↦
      let same : j ≡ n = (==_iff j n).0 e in
      let out : ¬ IsIn n js = rw same at h.0 in rw e (omega (arith, length-without_same n js out))
  | inr e ↦ rw e (omega (arith, length-without n js h.1))
]

pub length_below : (n : ℕ) (js : List ℕ) → All (λ j. j < n) js → AreDistinct js → length js ≤ n
length_below zero [] below h = omega arith
length_below zero (j ∷ js) below h = absurd (omega (arith, below.0))
length_below (suc n) js below h = omega (
  arith,
  length-without n js h,
  length_below n (without n js) (without_below n js below) (without-AreDistinct n js h),
)
