-- ===== src/Jumps/Control.antt =====
-- The instruction that controls a jump, and what `patchtestreg` makes of it.
use lua_reading.Prelude.{
  ℕ, ◌-◌, ◌≤◌, ◌≡◌, refl, ◌≢◌, inl, inr, Bool, true, false, not, ◌&&◌, arith, leb, ◌==◌, ==_iff,
  Bool-cases,
}
use lua_reading.Opcodes.{get_opcode, getarg_b}
use lua_reading.Opcodes.Modes.{OpCode, opcode?, test_t_mode, number}
use lua_reading.Checker.Checks.{no_reg}
use lua_reading.Jumps.{Code, store, getjumpcontrol, patchtestreg, is_test}

-- A jump is a JMP instruction.
abbrev pub IsJump : Code → ℕ → Type 0
IsJump code j = get_opcode (code j) ≡ number OpCode.op_jmp

-- Whether a jump produces a value: the instruction that controls it is a TESTSET.
abbrev pub has_value : Code → ℕ → Bool
has_value code j = get_opcode (code (getjumpcontrol code j)) == number OpCode.op_testset

-- Instructions with the same opcodes at a jump and before it.
abbrev pub SameOpcodes : Code → Code → ℕ → Type 0
SameOpcodes code code' k =
    (get_opcode (code' (k - 1)) ≡ get_opcode (code (k - 1)))
    × (get_opcode (code' k) ≡ get_opcode (code k))

pub getjumpcontrol-same :
    (code code' : Code) (k : ℕ)
    → SameOpcodes code code' k
    → getjumpcontrol code' k ≡ getjumpcontrol code k
unfolding getjumpcontrol
getjumpcontrol-same code code' k (before, at) = rw before refl

pub has_value-same :
    (code code' : Code) (k : ℕ) → SameOpcodes code code' k → has_value code' k ≡ has_value code k
unfolding getjumpcontrol
has_value-same code code' k (before, at) =
    elim (Bool-cases (leb 1 k && is_test (opcode? (get_opcode (code (k - 1)))))) [
      | inl e ↦ rw (before, e, before) refl
      | inr e ↦ rw (before, e, at) refl
    ]

-- Only the jump itself is controlled by a jump.
pub getjumpcontrol-IsJump :
    (code : Code) (j k : ℕ) → IsJump code j → getjumpcontrol code k ≡ j → k ≡ j
unfolding getjumpcontrol test_t_mode opcode?
getjumpcontrol-IsJump code j k jump e =
    elim (Bool-cases (leb 1 k && is_test (opcode? (get_opcode (code (k - 1)))))) [
      | inl t ↦
          let here : k - 1 ≡ j = (rw t at e) in
          let no_test : is_test (opcode? (get_opcode (code (k - 1)))) ≡ false =
            (rw (here, jump) refl) in
          ground (arith, t, no_test)
      | inr f ↦ (rw f at e)
    ]

-- A jump with a value is behind its TESTSET.
pub has_value-before :
    (code : Code) (j : ℕ)
    → IsJump code j
    → has_value code j ≡ true
    → (getjumpcontrol code j ≡ j - 1)
      × (1 ≤ j)
      × (get_opcode (code (j - 1)) ≡ number OpCode.op_testset)
unfolding getjumpcontrol number
has_value-before code j jump h =
    elim (Bool-cases (leb 1 j && is_test (opcode? (get_opcode (code (j - 1)))))) [
      | inl t ↦
          let same : get_opcode (code (j - 1)) ≡ number OpCode.op_testset =
            (==_iff _ _).0 (rw t at h) in
          (rw t refl, ground (arith, t), same)
      | inr f ↦
          let clash : (number OpCode.op_jmp == number OpCode.op_testset) ≡ true =
            (rw (f, jump) at h) in
          absurd (ground (arith, clash))
    ]

store-other : (code : Code) (pc i k : ℕ) → k ≢ pc → store code pc i k ≡ code k
store-other code pc i k other = ground (arith, other)

-- What `patchtestreg` does for a jump: it tells whether there is a value, and changes at most the
-- instruction that controls the jump, and that only if there is one.
abbrev pub Tests : Code → ℕ → Bool × Code → Type 0
Tests code j (value, code') =
    (value ≡ has_value code j)
    × ((k : ℕ) → k ≢ getjumpcontrol code j → code' k ≡ code k)
    × (value ≡ false → code' ≡ code)

pub patchtestreg-Tests : (code : Code) (j reg : ℕ) → Tests code j (patchtestreg code j reg)
unfolding patchtestreg
patchtestreg-Tests code j reg = elim (Bool-cases (has_value code j)) [
  | inr f ↦ rw f (refl, (λ k other. refl), λ e. refl)
  | inl t ↦
      rw t
        (elim (Bool-cases
          (not (reg == no_reg) && not (reg == getarg_b (code (getjumpcontrol code j))))) [
            | inl u ↦ rw u (refl, (λ k other. store-other code _ _ k other), λ e. cc)
            | inr u ↦ rw u (refl, (λ k other. store-other code _ _ k other), λ e. cc)
          ])
]
