-- ===== src/Checker/Operands.antt =====
-- The operands that the checks of src/ldebug.c let through, by the format of the instruction.

use lua_reading.Prelude.{ℕ, ◌+◌, ◌≤◌, ◌<◌, true, ltb, length, ◌≡◌, refl, arith}
use lua_reading.Prelude.Int.{ℤ, pos, negsuc, ◌+ℤ◌}
use lua_reading.Opcodes.{getarg_b, getarg_c, getarg_bx, getarg_sbx}
use lua_reading.Opcodes.Modes.{
  OpMode, iabc, iabx, iasbx, OpArgMask, op_arg_n, op_arg_u, op_arg_r, op_arg_k, OpCode, get_b_mode,
  get_c_mode,
}
use lua_reading.Proto.{FuncInfo}
use lua_reading.Checker.Checks.{
  Outcome, pass, reject, fault, ◌>>◌, check, checkreg, check_arg_mode, check_index, check_jump,
  checkdest, Operands, operands, setlists_before,
}
use lua_reading.Checker.Switch.{check_call}
use lua_reading.Checker.Starts.{setlists_before-Start}
use lua_reading.Checker.Skips.{>>=-eq-pass}
use lua_reading.Checker.Spec.{ArgIsSafe, TargetIsSafe, IndexIsSafe, JumpIsSafe, OperandsAreSafe}

check_arg_mode-ArgIsSafe :
    (pt : FuncInfo) (r : ℕ) (mode : OpArgMask)
    → check_arg_mode pt r mode ≡ pass tt
    → ArgIsSafe pt r mode
unfolding check_arg_mode checkreg
check_arg_mode-ArgIsSafe pt r op_arg_n e = ground arith
check_arg_mode-ArgIsSafe pt r op_arg_u e = tt
check_arg_mode-ArgIsSafe pt r op_arg_r e = ground arith
check_arg_mode-ArgIsSafe pt r op_arg_k e = ground arith

checkdest-TargetIsSafe : (pt : FuncInfo) (d : ℤ) → checkdest pt d ≡ pass tt → TargetIsSafe pt d
unfolding checkdest
checkdest-TargetIsSafe pt (negsuc n) e = cc
checkdest-TargetIsSafe pt (pos dest) e =
    let (_, inside, e1) = >>=-eq-pass (check (ltb dest (length pt.code))) _ e in
    let (even, parity, e2) = >>=-eq-pass (setlists_before pt.code dest true) _ e1 in
    let inside' : dest < length pt.code = ground arith in
    let is_even : even ≡ true = ground arith in
    (dest, refl, inside', setlists_before-Start pt.code dest (omega arith) (rw is_even at parity))

check_index-IndexIsSafe :
    (pt : FuncInfo) (bx : ℕ) (mode : OpArgMask)
    → check_index pt bx mode ≡ pass tt
    → IndexIsSafe pt bx mode
unfolding check_index
check_index-IndexIsSafe pt bx op_arg_k e = ground arith
check_index-IndexIsSafe pt bx op_arg_n e = tt
check_index-IndexIsSafe pt bx op_arg_u e = tt
check_index-IndexIsSafe pt bx op_arg_r e = tt

check_jump-JumpIsSafe :
    (pt : FuncInfo) (dest : ℤ) (mode : OpArgMask)
    → check_jump pt dest mode ≡ pass tt
    → JumpIsSafe pt dest mode
unfolding check_jump
check_jump-JumpIsSafe pt dest op_arg_r e = checkdest-TargetIsSafe pt dest e
check_jump-JumpIsSafe pt dest op_arg_n e = tt
check_jump-JumpIsSafe pt dest op_arg_u e = tt
check_jump-JumpIsSafe pt dest op_arg_k e = tt

pub operands-OperandsAreSafe :
    (pt : FuncInfo) (pc : ℕ) (op : OpCode) (i : ℕ) (mode : OpMode) (o : Operands)
    → operands pt pc op i mode ≡ pass o
    → OperandsAreSafe pt pc op i mode
unfolding operands
operands-OperandsAreSafe pt pc op i iabc o e =
    let (_, eb, e1) = >>=-eq-pass (check_arg_mode pt (getarg_b i) (get_b_mode op)) _ e in
    let (_, ec, _) = >>=-eq-pass (check_arg_mode pt (getarg_c i) (get_c_mode op)) _ e1 in
    (check_arg_mode-ArgIsSafe pt _ _ eb, check_arg_mode-ArgIsSafe pt _ _ ec)
operands-OperandsAreSafe pt pc op i iabx o e =
    check_index-IndexIsSafe pt _ _
      (>>=-eq-pass (check_index pt (getarg_bx i) (get_b_mode op)) _ e).1
operands-OperandsAreSafe pt pc op i iasbx o e =
    let dest = pos (pc + 1) +ℤ getarg_sbx i in
    check_jump-JumpIsSafe pt _ _ (>>=-eq-pass (check_jump pt dest (get_b_mode op)) _ e).1

-- The decoded operands are those of the opcode's format.
abbrev pub decoded : ℕ → OpMode → Operands
decoded i iabc = record { b = getarg_b i; c = getarg_c i; jump = pos 0 }
decoded i iabx = record { b = getarg_bx i; c = 0; jump = pos 0 }
decoded i iasbx = record { b = 0; c = 0; jump = getarg_sbx i }

bind_unit : {A : Type 0} (m : Outcome (Unit {0})) (x y : A) → (m >> pass x) ≡ pass y → x ≡ y
bind_unit (pass _) x y e = cc
bind_unit reject x y e = cc
bind_unit fault x y e = cc

pub operands-decoded :
    (pt : FuncInfo) (pc : ℕ) (op : OpCode) (i : ℕ) (mode : OpMode) (o : Operands)
    → operands pt pc op i mode ≡ pass o
    → decoded i mode ≡ o
unfolding operands
operands-decoded pt pc op i iabc o e =
    bind_unit _ _ o (>>=-eq-pass (check_arg_mode pt (getarg_b i) (get_b_mode op)) _ e).2
operands-decoded pt pc op i iabx o e = bind_unit _ _ o e
operands-decoded pt pc op i iasbx o e = bind_unit _ _ o e

check_call_window :
    (pt : FuncInfo) (pc a : ℕ) (o : Operands) (reg last : ℕ) (r : ℕ × ℕ)
    → check_call pt pc a o reg last ≡ pass r
    → a < pt.maxstacksize
    → (a + o.b ≤ pt.maxstacksize) × (a + o.c ≤ pt.maxstacksize + 1)
unfolding check_call checkreg
check_call_window pt pc a o reg last r e h = ground arith
