-- ===== src/Jumps/Pending.antt =====
-- The jumps that wait for the next instruction land there, and LOADNIL instructions are merged.
use lua_reading.Prelude.{
  ℕ, ◌+◌, ◌-◌, ◌^◌, ◌≤◌, ◌<◌, ◌≡◌, refl, ap, ◌∙◌, ◌≢◌, inl, inr, Bool, true, false, ◌&&◌, ◌||◌,
  none, some, List, [], ◌∷◌, arith, ltb, leb, ◌==◌, if◌then◌else◌, ltb→lt, Bool-cases, All,
}
use lua_reading.Prelude.Int.{sub_ℕ}
use mathlib.Core.Path.{subst}
use lua_reading.Opcodes.{
  word, maxarg_sbx, get_opcode, getarg_a, getarg_b, getarg_c, getarg_bx, getarg_sbx, create_abx,
  size_b,
}
use lua_reading.Opcodes.Fields.{HasFields, set-HasFields}
use lua_reading.Opcodes.Modes.{number}
use lua_reading.Checker.Checks.{no_reg}
use lua_reading.Jumps.{
  Code, store, JumpList, getjump, Listed, listed, too_long, ran_out, patchlistaux,
}
use lua_reading.Jumps.Lists.{IsJumpList, IsIn, AreDistinct, AreWords, IsJumpList-same}
use lua_reading.Jumps.Concat.{Appends, concat-Appends}
use lua_reading.Jumps.Control.{has_value}
use lua_reading.Jumps.Patch.{IsControl, AllLead, Patches, AreJumps, patchlistaux-Patches}
use lua_reading.Jumps.Count.{length_below}
use lua_reading.Jumps.Emit.{
  FuncState, Emitted, emitted, failed, after_list, emit, jump_to_nowhere, emit_jump, widen,
  connects,
}

-- Each of the jumps leads to `dest`.
abbrev pub LeadTo : Code → ℕ → List ℕ → Type 0
LeadTo code dest = All (λ j. getarg_sbx (code j) ≡ sub_ℕ dest (j + 1))

-- The jumps `js` wait for the next instruction.
pub record IsPending (fs : FuncState) (js : List ℕ) : Type 0 where
  pub list : IsJumpList fs.code js fs.jpc
  pub jumps : AreJumps fs.code js
  pub distinct : AreDistinct js
  pub below : All (λ j. j < fs.pc) js
  pub short : fs.pc < maxarg_sbx

-- The instruction `i` is the next one, with nothing waiting, and the jumps lead to it.
abbrev pub Lands : ℕ → FuncState → List ℕ → Emitted ℕ → Type 0
Lands i fs js (failed x) = ⊥
Lands i fs js (emitted at fs') =
    (at ≡ fs.pc)
    × (FuncState.pc fs' ≡ fs.pc + 1)
    × (FuncState.jpc fs' ≡ none)
    × (FuncState.code fs' fs.pc ≡ i)
    × LeadTo (FuncState.code fs') fs.pc js
    × ((k : ℕ)
        → k ≢ fs.pc
        → ¬ IsIn k js
        → ¬ IsControl fs.code k js
        → FuncState.code fs' k ≡ fs.code k)

same_either : (b : Bool) (d : ℕ) → (if b then d else d) ≡ d
same_either true d = refl
same_either false d = refl

AllLead-LeadTo :
    (code code' : Code) (d i : ℕ) (js : List ℕ)
    → All (λ j. j < d) js
    → AllLead code code' d d js
    → LeadTo (store code' d i) d js
AllLead-LeadTo code code' d i [] below all = tt
AllLead-LeadTo code code' d i (j ∷ js) below all =
    let same : store code' d i j ≡ code' j = ground (arith, below.0) in
    let either : (if has_value code j then d else d) ≡ d = same_either (has_value code j) d in
    (
      rw same (all.0 ∙ ap (λ x. sub_ℕ x (j + 1)) either),
      AllLead-LeadTo code code' d i js below.1 all.1,
    )

discharged-Lands :
    (i : ℕ) (fs : FuncState) (js : List ℕ) (o : Listed)
    → All (λ j. j < fs.pc) js
    → Patches fs.code fs.pc fs.pc js o
    → Lands i fs js (
        after_list o (λ l code. emitted fs.pc (record fs {
          code = store code fs.pc i;
          lineinfo = store fs.lineinfo fs.pc fs.lastline;
          pc = fs.pc + 1;
          jpc = l;
        })))
discharged-Lands i fs js (listed l code) below (empty, all, kept) = (
  refl,
  refl,
  empty,
  ground arith,
  AllLead-LeadTo fs.code code fs.pc i js below all,
  λ k other out free.
      let same : store code fs.pc i k ≡ code k = ground (arith, other) in same ∙ kept k out free,
)
discharged-Lands i fs js too_long below h = h
discharged-Lands i fs js ran_out below h = h

-- If the distinct jumps `js`, all before `pc`, wait for the next instruction, and `pc` is below
-- MAXARG_sBx, `luaK_code` appends the instruction, every one of the jumps leads to it, and nothing
-- waits any more.
pub emit-Lands :
    (i : ℕ) (fs : FuncState) (js : List ℕ) → IsPending fs js → Lands i fs js (emit i fs)
unfolding emit
emit-Lands i fs js h = discharged-Lands i fs js _ h.below (
    patchlistaux-Patches fs.pc fs.code js fs.jpc fs.pc no_reg fs.pc h.list h.jumps h.distinct
      (omega (arith, h.short)) (omega (arith, h.short)) (length_below fs.pc js h.below h.distinct))

-- A jump that is the newest of the list, with nothing left to wait.
abbrev pub Holds : FuncState → List ℕ → Emitted JumpList → Type 0
Holds fs js (failed x) = ⊥
Holds fs js (emitted l fs') =
    IsJumpList (FuncState.code fs') (fs.pc ∷ js) l
    × (FuncState.jpc fs' ≡ none)
    × (FuncState.pc fs' ≡ fs.pc + 1)

held-Holds :
    (fs fs' : FuncState) (js : List ℕ) (code : Code) (o : Listed)
    → FuncState.jpc fs' ≡ none
    → FuncState.pc fs' ≡ fs.pc + 1
    → Appends code (fs.pc ∷ js) o
    → Holds fs js (after_list o (λ l code'. emitted l (record fs' { code = code' })))
held-Holds fs fs' js code (listed l code') none_left next (list, _, _, _) = (list, none_left, next)
held-Holds fs fs' js code too_long none_left next h = h
held-Holds fs fs' js code ran_out none_left next h = h

nowhere-word : jump_to_nowhere < word
unfolding create_abx number
nowhere-word = omega arith

getjump-nowhere : (code : Code) (pc : ℕ) → getjump (store code pc jump_to_nowhere) pc ≡ none
unfolding getjump getarg_sbx getarg_bx create_abx number
getjump-nowhere code pc =
    let itself : store code pc jump_to_nowhere pc ≡ jump_to_nowhere = ground arith in rw itself refl

below-IsIn : (d : ℕ) (js : List ℕ) → All (λ j. j < d) js → ¬ IsIn d js
below-IsIn d [] below i = i
below-IsIn d (j ∷ js) below (inl e) = omega (arith, below.0, e)
below-IsIn d (j ∷ js) below (inr i) = below-IsIn d js below.1 i

under : (d : ℕ) (js : List ℕ) → All (λ j. j < d) js → (k : ℕ) → IsIn k js → k < d
under d [] below k i = absurd i
under d (j ∷ js) below k (inl e) = omega (arith, below.0, e)
under d (j ∷ js) below k (inr i) = under d js below.1 k i

-- In a code of 32-bit words with `pc` below MAXARG_sBx, `luaK_jump` appends a jump, and the
-- distinct jumps that would lead to it are held behind it in its list.
pub emit_jump-Holds :
    (fs : FuncState) (js : List ℕ) → AreWords fs.code → IsPending fs js → Holds fs js (emit_jump fs)
unfolding emit_jump emit patchlistaux
emit_jump-Holds fs js words h =
    let code = store fs.code fs.pc jump_to_nowhere in
    let same : (k : ℕ) → IsIn k js → code k ≡ fs.code k =
      (λ k i. let less = under fs.pc js h.below k i in ground (arith, less)) in
    let words' : AreWords code = (λ k. elim (Bool-cases (k == fs.pc)) [
      | inl e ↦ rw e nowhere-word
      | inr e ↦ rw e (words k)
    ]) in
    let fs' : FuncState = record fs {
      code = code;
      lineinfo = store fs.lineinfo fs.pc fs.lastline;
      pc = fs.pc + 1;
      jpc = none;
    } in
    held-Holds fs fs' js code _ refl refl (
      concat-Appends (fs.pc + 1) code (fs.pc ∷ []) js (some fs.pc) fs.jpc words'
        (refl, getjump-nowhere fs.code fs.pc) (IsJumpList-same fs.code code js fs.jpc same h.list)
        ((λ i. i), tt)
        (λ k i i'. elim i [
          | inl e ↦ below-IsIn fs.pc js h.below (subst (λ x. IsIn x js) e i')
          | inr x ↦ x
        ])
        (λ k i. elim i [
          | inl e ↦ omega (arith, e, h.short)
          | inr x ↦ omega (arith, under fs.pc js h.below k x, h.short)
        ])
        (omega arith))

-- The registers that a LOADNIL clears.
abbrev pub clears : ℕ → ℕ → Bool
clears i r = leb (getarg_a i) r && leb r (getarg_b i)

both_ranges :
    (a b from n r : ℕ)
    → a ≤ from
    → from ≤ b + 1
    → 1 ≤ n
    → b < from + n - 1
    → (leb a r && leb r (from + n - 1)) ≡ ((leb a r && leb r b) || (leb from r && ltb r (from + n)))
both_ranges a b from n r h k some_regs wider = ground arith

one_range :
    (a b from n r : ℕ)
    → a ≤ from
    → from + n ≤ b + 1
    → (leb a r && leb r b) ≡ ((leb a r && leb r b) || (leb from r && ltb r (from + n)))
one_range a b from n r h k = ground arith

-- For a LOADNIL that `luaK_nil` can connect and registers that fit the field B: widened, it clears
-- the registers that it did and the `n` from `from` on, and no others.
pub widen-clears :
    (i from n r : ℕ)
    → i < word
    → connects i from ≡ true
    → 1 ≤ n
    → from + n ≤ 2 ^ size_b
    → clears (widen i from n) r ≡ (clears i r || (leb from r && ltb r (from + n)))
widen-clears i from n r h joined some_regs fits =
    let start : getarg_a i ≤ from = ground (arith, joined) in
    let close : from ≤ getarg_b i + 1 = ground (arith, joined) in
    elim (Bool-cases (ltb (getarg_b i) (from + n - 1))) [
      | inl e ↦
          let same : HasFields i (get_opcode i) (getarg_a i) (getarg_b i) (getarg_c i) = record {
            in_word = h;
            opcode = refl;
            arg_a = refl;
            arg_b = refl;
            arg_c = refl;
          } in
          let (_, _, wide, _) =
            set-HasFields i _ _ _ _ 0 0 (from + n - 1) 0 same (omega arith) (omega arith)
              (omega arith) (omega arith) in
          rw (e, wide.arg_a, wide.arg_b)
            (both_ranges (getarg_a i) (getarg_b i) from n r start close some_regs (ltb→lt _ _ e))
      | inr e ↦
          rw e (one_range (getarg_a i) (getarg_b i) from n r start (ground (arith, e, some_regs)))
    ]
