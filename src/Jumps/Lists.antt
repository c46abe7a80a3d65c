-- ===== src/Jumps/Lists.antt =====
-- Which jumps a list has, and what one `fixjump` changes.
use lua_reading.Prelude.{
  ℕ, ◌+◌, ◌-◌, ◌≤◌, ◌<◌, ◌≡◌, refl, ap, ◌≢◌, ◌⊎◌, inl, inr, false, none, some, List, [], ◌∷◌, arith,
  ltb, leb, ◌==◌, ==_iff, Bool-cases,
}
use lua_reading.Prelude.Int.{pos, negsuc, pos_part, neg_part, sub_ℕ, ◌≤ℤ◌}
use lua_reading.Opcodes.{word, maxarg_sbx, get_opcode, getarg_sbx, setarg_sbx}
use lua_reading.Opcodes.Fields.{get-setarg_sbx, setarg_sbx-word}
use lua_reading.Jumps.{Code, store, JumpList, getjump, fixjump}

-- The list from `l` has the jumps `js`, in this order.
abbrev pub IsJumpList : Code → List ℕ → JumpList → Type 0
IsJumpList code [] l = l ≡ none
IsJumpList code (j ∷ js) l = (l ≡ some j) × IsJumpList code js (getjump code j)

abbrev pub IsIn : ℕ → List ℕ → Type 0
IsIn k [] = ⊥
IsIn k (j ∷ js) = (k ≡ j) ⊎ IsIn k js

abbrev pub AreDistinct : List ℕ → Type 0
AreDistinct [] = Unit {0}
AreDistinct (j ∷ js) = (¬ IsIn j js) × AreDistinct js

-- Every instruction is a word.
abbrev pub AreWords : Code → Type 0
AreWords code = (k : ℕ) → code k < word

-- Only the offset of `j` has changed, and leads to `dest`.
abbrev pub Leads : Code → ℕ → ℕ → Code → Type 0
Leads code j dest code' =
    (getarg_sbx (code' j) ≡ sub_ℕ dest (j + 1))
    × (get_opcode (code' j) ≡ get_opcode (code j))
    × (code' j < word)
    × ((k : ℕ) → k ≢ j → code' k ≡ code k)

-- An offset between two positions of a function.
offset_fits :
    (j dest : ℕ)
    → j < maxarg_sbx
    → dest ≤ maxarg_sbx
    → (ltb maxarg_sbx (pos_part (sub_ℕ dest (j + 1)) + neg_part (sub_ℕ dest (j + 1))) ≡ false)
      × (negsuc (maxarg_sbx - 1) ≤ℤ sub_ℕ dest (j + 1))
      × (sub_ℕ dest (j + 1) ≤ℤ pos maxarg_sbx)
offset_fits j dest h k = elim (Bool-cases (leb (j + 1) dest)) [
  | inl e ↦ rw e (ground (arith, e), omega arith, omega (arith, k))
  | inr e ↦ rw e (ground (arith, e), omega (arith, h), omega arith)
]

pub fixjump-Leads :
    (code : Code) (j dest : ℕ)
    → code j < word
    → j < maxarg_sbx
    → dest ≤ maxarg_sbx
    → (code' : Code) × (fixjump code j dest ≡ some code') × Leads code j dest code'
unfolding fixjump
fixjump-Leads code j dest word_j fits fits' =
    let (test, low, high) = offset_fits j dest fits fits' in
    let i = setarg_sbx (code j) (sub_ℕ dest (j + 1)) in
    let (offset, op, _) = get-setarg_sbx (code j) (sub_ℕ dest (j + 1)) word_j low high in
    let itself : store code j i j ≡ i = ground arith in
    (
      store code j i,
      rw test refl,
      (
        rw itself offset,
        rw itself op,
        rw itself (setarg_sbx-word (code j) (sub_ℕ dest (j + 1)) word_j),
        λ k other. ground (arith, other),
      ),
    )

pub getjump-Leads :
    (code code' : Code) (j dest : ℕ)
    → Leads code j dest code'
    → j ≢ dest
    → getjump code' j ≡ some dest
unfolding getjump
getjump-Leads code code' j dest h other = elim (Bool-cases (leb (j + 1) dest)) [
  | inl e ↦ rw h.0 (rw e (ap some (ground (arith, e))))
  | inr e ↦ rw h.0 (rw e (ground (arith, e, other)))
]

pub Leads-get_opcode :
    (code code' : Code) (j dest : ℕ)
    → Leads code j dest code'
    → (k : ℕ) → get_opcode (code' k) ≡ get_opcode (code k)
Leads-get_opcode code code' j dest h k = elim (Bool-cases (k == j)) [
  | inl e ↦ let same : k ≡ j = (==_iff _ _).0 e in rw same h.1
  | inr e ↦ rw (h.3 k (λ same. ground (arith, e, same))) refl
]

-- A list stays if its jumps do.
pub IsJumpList-same :
    (code code' : Code) (js : List ℕ) (l : JumpList)
    → ((k : ℕ) → IsIn k js → code' k ≡ code k)
    → IsJumpList code js l
    → IsJumpList code' js l
unfolding getjump
IsJumpList-same code code' [] l same h = h
IsJumpList-same code code' (j ∷ js) l same h = (
  h.0,
  rw (same j (inl refl))
      (IsJumpList-same code code' js (getjump code j) (λ k i. same k (inr i)) h.1),
)
