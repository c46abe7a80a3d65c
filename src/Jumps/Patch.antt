-- ===== src/Jumps/Patch.antt =====
-- `patchlistaux` sends every jump of a list to its target.
use lua_reading.Prelude.{
  ℕ, zero, suc, ◌+◌, ◌-◌, ◌≤◌, ◌<◌, ◌≡◌, refl, sym, ap, ◌∙◌, ◌≢◌, ◌⊎◌, inl, inr, Bool, true, false,
  none, List, [], ◌∷◌, arith, if◌then◌else◌, length, All,
}
use lua_reading.Prelude.Int.{sub_ℕ}
use lua_reading.Opcodes.{word, maxarg_sbx, get_opcode, getarg_sbx}
use lua_reading.Opcodes.Modes.{number}
use lua_reading.Jumps.{
  Code, JumpList, getjump, getjumpcontrol, patchtestreg, Listed, listed, too_long, ran_out,
  patchlistaux,
}
use lua_reading.Jumps.Lists.{
  IsJumpList, IsIn, AreDistinct, Leads, fixjump-Leads, Leads-get_opcode, IsJumpList-same,
}
use mathlib.Core.Path.{subst}
use lua_reading.Jumps.Control.{
  IsJump, has_value, SameOpcodes, getjumpcontrol-same, has_value-same, getjumpcontrol-IsJump,
  has_value-before, Tests, patchtestreg-Tests,
}

-- The instructions that control the jumps.
abbrev pub IsControl : Code → ℕ → List ℕ → Type 0
IsControl code k [] = ⊥
IsControl code k (j ∷ js) = (k ≡ getjumpcontrol code j) ⊎ IsControl code k js

-- Each of the jumps leads to `vtarget` if it has a value, else to `dtarget`.
abbrev pub AllLead : Code → Code → ℕ → ℕ → List ℕ → Type 0
AllLead code code' vtarget dtarget =
    All (λ j. getarg_sbx (code' j) ≡ sub_ℕ (if has_value code j then vtarget else dtarget) (j + 1))

abbrev pub Patches : Code → ℕ → ℕ → List ℕ → Listed → Type 0
Patches code vtarget dtarget js (listed l code') =
    (l ≡ none)
    × AllLead code code' vtarget dtarget js
    × ((k : ℕ) → ¬ IsIn k js → ¬ IsControl code k js → code' k ≡ code k)
Patches code vtarget dtarget js _ = ⊥

-- The jumps of a list: JMP instructions at positions below MAXARG_sBx.
abbrev pub AreJumps : Code → List ℕ → Type 0
AreJumps code = All (λ j. IsJump code j × (code j < word) × (j < maxarg_sbx))

-- A TESTSET is no jump, so `patchtestreg` changes no jump, and nothing before another one.
untouched :
    (code code' : Code) (j k : ℕ) (value : Bool)
    → IsJump code j
    → IsJump code k
    → Tests code j (value, code')
    → (code' k ≡ code k) × (k ≢ j → code' (k - 1) ≡ code (k - 1))
unfolding number
untouched code code' j k false jump jump' tests =
    (rw (tests.2 refl) refl, λ other. rw (tests.2 refl) refl)
untouched code code' j k true jump jump' tests =
    let (control, positive, testset) = has_value-before code j jump (sym tests.0) in
    let apart : k ≢ j - 1 = (λ e.
      let clash : get_opcode (code (j - 1)) ≡ 22 = (rw e at jump') in
      absurd (omega (arith, clash, testset))) in
    (
      tests.1 k (λ e. apart (e ∙ control)),
      λ other. tests.1 (k - 1) (λ e.
          let same : k - 1 ≡ j - 1 = e ∙ control in ground (arith, same, positive, other, apart)),
    )

-- One round changes no instruction and no control of the jumps further on.
abbrev Spares : Code → Code → List ℕ → Type 0
Spares code code' js = (k : ℕ) → IsIn k js → SameOpcodes code code' k × (code' k ≡ code k)

AreJumps-IsIn : (code : Code) (k : ℕ) (js : List ℕ) → AreJumps code js → IsIn k js → IsJump code k
AreJumps-IsIn code k [] h i = absurd i
AreJumps-IsIn code k (j ∷ js) h (inl e) = rw e h.0.0
AreJumps-IsIn code k (j ∷ js) h (inr i) = AreJumps-IsIn code k js h.1 i

round-Spares :
    (code code' code'' : Code) (j dest : ℕ) (js : List ℕ) (value : Bool)
    → AreJumps code (j ∷ js)
    → AreDistinct (j ∷ js)
    → Tests code j (value, code')
    → Leads code' j dest code''
    → Spares code code'' js
round-Spares code code' code'' j dest js value jumps distinct tests leads k i =
    let other : k ≢ j = (λ e. distinct.0 (subst (λ x. IsIn x js) e i)) in
    let (at, before) =
      untouched code code' j k value jumps.0.0 (AreJumps-IsIn code k js jumps.1 i) tests in
    (
      (
        Leads-get_opcode code' code'' j dest leads (k - 1) ∙ ap get_opcode (before other),
        Leads-get_opcode code' code'' j dest leads k ∙ ap get_opcode at,
      ),
      leads.3 k other ∙ at,
    )

AreJumps-Spares :
    (code code' : Code) (js : List ℕ) → Spares code code' js → AreJumps code js → AreJumps code' js
AreJumps-Spares code code' [] h jumps = tt
AreJumps-Spares code code' (j ∷ js) h jumps =
    let (same, at) = h j (inl refl) in
    (
      (same.1 ∙ jumps.0.0, (rw at jumps.0.1), jumps.0.2),
      AreJumps-Spares code code' js (λ k i. h k (inr i)) jumps.1,
    )

AllLead-Spares :
    (code code' code₃ : Code) (v d : ℕ) (js : List ℕ)
    → Spares code code' js
    → AllLead code' code₃ v d js
    → AllLead code code₃ v d js
AllLead-Spares code code' code₃ v d [] h all = tt
AllLead-Spares code code' code₃ v d (j ∷ js) h all = (
  all.0
      ∙ ap (λ value. sub_ℕ (if value then v else d) (j + 1))
          (has_value-same code code' j (h j (inl refl)).0),
  AllLead-Spares code code' code₃ v d js (λ k i. h k (inr i)) all.1,
)

IsControl-Spares :
    (code code' : Code) (m : ℕ) (js : List ℕ)
    → Spares code code' js
    → IsControl code' m js
    → IsControl code m js
IsControl-Spares code code' m [] h c = absurd c
IsControl-Spares code code' m (j ∷ js) h (inl e) =
    inl (e ∙ getjumpcontrol-same code code' j (h j (inl refl)).0)
IsControl-Spares code code' m (j ∷ js) h (inr c) =
    inr (IsControl-Spares code code' m js (λ k i. h k (inr i)) c)

-- A jump outside of a list controls no jump of it.
IsJump-IsControl :
    (code : Code) (j : ℕ) (js : List ℕ) → IsJump code j → ¬ IsIn j js → ¬ IsControl code j js
IsJump-IsControl code j [] jump out c = absurd c
IsJump-IsControl code j (k ∷ ks) jump out (inl e) =
    out (inl (sym (getjumpcontrol-IsJump code j k jump (sym e))))
IsJump-IsControl code j (k ∷ ks) jump out (inr c) =
    IsJump-IsControl code j ks jump (λ i. out (inr i)) c

Patches-step :
    (code code' code'' : Code) (j dest : ℕ) (js : List ℕ) (value : Bool) (vtarget dtarget : ℕ)
    (o : Listed)
    → AreJumps code (j ∷ js)
    → AreDistinct (j ∷ js)
    → Tests code j (value, code')
    → dest ≡ (if value then vtarget else dtarget)
    → Leads code' j dest code''
    → Patches code'' vtarget dtarget js o
    → Patches code vtarget dtarget (j ∷ js) o
Patches-step code code' code'' j dest js value vtarget dtarget (listed l code₃) jumps distinct tests
      same leads (empty, all, kept) =
    let spares = round-Spares code code' code'' j dest js value jumps distinct tests leads in
    let (at, _) = untouched code code' j j value jumps.0.0 jumps.0.0 tests in
    let jump : IsJump code'' j = leads.1 ∙ ap get_opcode at ∙ jumps.0.0 in
    let target = same ∙ ap (λ x. if x then vtarget else dtarget) tests.0 in
    (
      empty,
      (
        ap getarg_sbx (kept j distinct.0 (IsJump-IsControl code'' j js jump distinct.0))
            ∙ leads.0
            ∙ ap (λ x. sub_ℕ x (j + 1)) target,
        AllLead-Spares code code'' code₃ vtarget dtarget js spares all,
      ),
      λ k out free.
          kept k (λ i. out (inr i)) (λ c. free (inr (IsControl-Spares code code'' k js spares c)))
          ∙ leads.3 k (λ e. out (inl e))
          ∙ tests.1 k (λ e. free (inl e)),
    )
Patches-step code code' code'' j dest js value vtarget dtarget too_long jumps distinct tests same
      leads h =
    h
Patches-step code code' code'' j dest js value vtarget dtarget ran_out jumps distinct tests same
      leads h =
    h

chosen : (b : Bool) (v d : ℕ) → v ≤ maxarg_sbx → d ≤ maxarg_sbx → (if b then v else d) ≤ maxarg_sbx
chosen true v d h k = h
chosen false v d h k = k

-- On a list of distinct JMP instructions at positions below MAXARG_sBx, for targets up to it,
-- `patchlistaux` sends every jump that has a value to `vtarget` and every other one to `dtarget`.
-- Apart from these jumps and the instructions that control them, it changes nothing. As many rounds
-- as jumps are enough.
pub patchlistaux-Patches :
    (fuel : ℕ) (code : Code) (js : List ℕ) (l : JumpList) (vtarget reg dtarget : ℕ)
    → IsJumpList code js l
    → AreJumps code js
    → AreDistinct js
    → vtarget ≤ maxarg_sbx
    → dtarget ≤ maxarg_sbx
    → length js ≤ fuel
    → Patches code vtarget dtarget js (patchlistaux fuel code l vtarget reg dtarget)
unfolding patchlistaux
patchlistaux-Patches fuel code [] l vtarget reg dtarget list jumps distinct v d enough =
    rw list (refl, tt, λ k out free. refl)
patchlistaux-Patches zero code (j ∷ js) l vtarget reg dtarget list jumps distinct v d enough =
    absurd (omega arith)
patchlistaux-Patches (suc fuel) code (j ∷ js) l vtarget reg dtarget list jumps distinct v d enough =
    let (value, code') = patchtestreg code j reg in
    let tests = patchtestreg-Tests code j reg in
    let dest = if value then vtarget else dtarget in
    let (at, _) = untouched code code' j j value jumps.0.0 jumps.0.0 tests in
    let word_j : code' j < word = rw at jumps.0.1 in
    let fits : dest ≤ maxarg_sbx = chosen value vtarget dtarget v d in
    let (code'', fixed, leads) = fixjump-Leads code' j dest word_j jumps.0.2 fits in
    let spares = round-Spares code code' code'' j dest js value jumps distinct tests leads in
    rw (list.0, fixed)
      (Patches-step code code' code'' j dest js value vtarget dtarget _ jumps distinct tests refl
        leads
        (patchlistaux-Patches fuel code'' js (getjump code j) vtarget reg dtarget
          (IsJumpList-same code code'' js _ (λ k i. (spares k i).1) list.1)
          (AreJumps-Spares code code'' js spares jumps.1) distinct.1 v d (omega arith)))
