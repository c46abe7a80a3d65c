-- ===== src/Jumps/Concat.antt =====
-- `luaK_concat` appends one list of jumps to another.
use lua_reading.Prelude.{
  ℕ, zero, suc, ◌≤◌, ◌<◌, ◌≡◌, refl, sym, ap, ◌≢◌, inl, inr, some, List, [], ◌∷◌, ◌++◌, arith, ◌==◌,
  ==_iff, Bool-cases, length,
}
use mathlib.Core.Path.{subst}
use lua_reading.Opcodes.{maxarg_sbx, get_opcode}
use lua_reading.Jumps.{Code, JumpList, getjump, Listed, listed, last_jump, concat}
use lua_reading.Jumps.Lists.{
  IsJumpList, IsIn, AreDistinct, AreWords, Leads, fixjump-Leads, getjump-Leads, Leads-get_opcode,
  IsJumpList-same,
}

-- The last jump of a list that begins with `j`.
abbrev last : ℕ → List ℕ → ℕ
last j [] = j
last j (k ∷ ks) = last k ks

last-IsIn : (j : ℕ) (js : List ℕ) → IsIn (last j js) (j ∷ js)
last-IsIn j [] = inl refl
last-IsIn j (k ∷ ks) = inr (last-IsIn k ks)

last_jump-last :
    (fuel : ℕ) (code : Code) (j : ℕ) (js : List ℕ)
    → IsJumpList code js (getjump code j)
    → length js ≤ fuel
    → last_jump fuel code j (getjump code j) ≡ some (last j js)
unfolding last_jump
last_jump-last fuel code j [] h enough = rw h refl
last_jump-last zero code j (k ∷ ks) h enough = absurd (omega arith)
last_jump-last (suc fuel) code j (k ∷ ks) h enough =
    rw h.0 (last_jump-last fuel code k ks h.1 (omega arith))

-- The list from `j`, when its last jump leads to the list `d ∷ ds`.
appended-IsJumpList :
    (code code' : Code) (j : ℕ) (js : List ℕ) (d : ℕ) (ds : List ℕ)
    → IsJumpList code js (getjump code j)
    → AreDistinct (j ∷ js)
    → Leads code (last j js) d code'
    → ((k : ℕ) → IsIn k (j ∷ js) → ¬ IsIn k (d ∷ ds))
    → IsJumpList code ds (getjump code d)
    → IsJumpList code' (js ++ (d ∷ ds)) (getjump code' j)
unfolding getjump
appended-IsJumpList code code' j [] d ds h distinct leads apart h' = (
  getjump-Leads code code' j d leads (λ e. apart j (inl refl) (inl e)),
  (IsJumpList-same code code' (d ∷ ds) (some d) (λ k i. leads.3 k (λ e. apart k (inl e) i))
      (refl, h')).1,
)
appended-IsJumpList code code' j (k ∷ ks) d ds h distinct leads apart h' =
    let other : j ≢ last k ks =
      (λ e. distinct.0 (subst (λ x. IsIn x (k ∷ ks)) (sym e) (last-IsIn k ks))) in
    (
      rw (leads.3 j other) h.0,
      appended-IsJumpList code code' k ks d ds h.1 distinct.1 leads (λ m i. apart m (inr i)) h',
    )

append-nil : (js : List ℕ) → js ++ [] ≡ js
append-nil [] = refl
append-nil (j ∷ js) = ap (λ ks. j ∷ ks) (append-nil js)

IsIn-++ : (k : ℕ) (js ks : List ℕ) → IsIn k js → IsIn k (js ++ ks)
IsIn-++ k [] ks h = absurd h
IsIn-++ k (j ∷ js) ks (inl e) = inl e
IsIn-++ k (j ∷ js) ks (inr i) = inr (IsIn-++ k js ks i)

IsIn-++_right : (k : ℕ) (js ks : List ℕ) → IsIn k ks → IsIn k (js ++ ks)
IsIn-++_right k [] ks h = h
IsIn-++_right k (j ∷ js) ks h = inr (IsIn-++_right k js ks h)

Leads-AreWords :
    (code code' : Code) (j dest : ℕ) → Leads code j dest code' → AreWords code → AreWords code'
Leads-AreWords code code' j dest h words k = elim (Bool-cases (k == j)) [
  | inl e ↦ let same : k ≡ j = (==_iff _ _).0 e in rw same h.2
  | inr e ↦ rw (h.3 k (λ same. ground (arith, e, same))) (words k)
]

-- The code after a list was appended: the list, and all else as it was.
abbrev pub Appends : Code → List ℕ → Listed → Type 0
Appends code js (listed l code') =
    IsJumpList code' js l
    × AreWords code'
    × ((k : ℕ) → get_opcode (code' k) ≡ get_opcode (code k))
    × ((k : ℕ) → ¬ IsIn k js → code' k ≡ code k)
Appends code js _ = ⊥

-- Of two lists of jumps in a code of 32-bit words, at positions below MAXARG_sBx, the first without
-- repetition and none of its jumps in the second, `luaK_concat` makes the list of the jumps of the
-- first and then those of the second. It changes no instruction outside of the lists and no opcode.
-- As many rounds as the first list has jumps are enough.
pub concat-Appends :
    (fuel : ℕ) (code : Code) (js ks : List ℕ) (l1 l2 : JumpList)
    → AreWords code
    → IsJumpList code js l1
    → IsJumpList code ks l2
    → AreDistinct js
    → ((k : ℕ) → IsIn k js → ¬ IsIn k ks)
    → ((k : ℕ) → IsIn k (js ++ ks) → k < maxarg_sbx)
    → length js ≤ fuel
    → Appends code (js ++ ks) (concat fuel code l1 l2)
unfolding concat
concat-Appends fuel code js [] l1 l2 words h h' distinct apart low enough =
    rw (h', append-nil js) (h, words, (λ k. refl), λ k other. refl)
concat-Appends fuel code [] (d ∷ ds) l1 l2 words h h' distinct apart low enough =
    rw (h, h'.0) ((refl, h'.1), words, (λ k. refl), λ k other. refl)
concat-Appends fuel code (j ∷ js) (d ∷ ds) l1 l2 words h h' distinct apart low enough =
    let m = last j js in
    let inside : IsIn m (j ∷ (js ++ (d ∷ ds))) = IsIn-++ m (j ∷ js) (d ∷ ds) (last-IsIn j js) in
    let target : IsIn d (j ∷ (js ++ (d ∷ ds))) = IsIn-++_right d (j ∷ js) (d ∷ ds) (inl refl) in
    let (code', fixed, leads) =
      fixjump-Leads code m d (words m) (low m inside) (omega (arith, low d target)) in
    rw (h.0, h'.0, last_jump-last fuel code j js h.1 (omega (arith, enough)), fixed)
      (
        (refl, appended-IsJumpList code code' j js d ds h.1 distinct leads apart h'.1),
        Leads-AreWords code code' m d leads words,
        Leads-get_opcode code code' m d leads,
        λ k other.
            leads.3 k (λ e. other (subst (λ x. IsIn x (j ∷ (js ++ (d ∷ ds)))) (sym e) inside)),
      )
