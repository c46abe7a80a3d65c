-- ===== src/Checker/Safety.antt =====
-- The checker lets only safe instructions through.

use lua_reading.Prelude.{
  ℕ, ◌<◌, ◌&&◌, ◌==◌, if◌then◌else◌, Option, none, some, get_elem?, ◌≡◌, refl, arith,
}
use lua_reading.Opcodes.{get_opcode, getarg_a}
use lua_reading.Opcodes.Modes.{OpCode, opcode?, get_op_mode, test_a_mode, test_t_mode}
use lua_reading.Proto.{Proto, info}
use lua_reading.Checker.Checks.{pass, reject, at, checkreg, check_test, operands}
use lua_reading.Checker.Switch.{check_at, step}
use lua_reading.Checker.Skips.{>>=-eq-pass, at-eq-pass, check_test-TestIsSafe}
use lua_reading.Checker.Spec.{IsSafe}
use lua_reading.Checker.Operands.{operands-OperandsAreSafe, operands-decoded}
use lua_reading.Checker.Uses.{dispatch-UseIsSafe}

check_at-IsSafe :
    (f : Proto) (lastpc reg pc last : ℕ) (op : OpCode) (i : ℕ) (r : ℕ × ℕ)
    → opcode? (get_opcode i) ≡ some op
    → check_at f lastpc reg pc last op i ≡ pass r
    → IsSafe f pc i op
unfolding check_at
check_at-IsSafe f lastpc reg pc last op i r d e =
    let (_, ea, e1) = >>=-eq-pass (checkreg (info f) (getarg_a i)) _ e in
    let (o, eo, e2) = >>=-eq-pass (operands (info f) pc op i (get_op_mode op)) _ e1 in
    let (_, tested, e3) = >>=-eq-pass (check_test (info f) pc (test_t_mode op)) _ e2 in
    let target : getarg_a i < (info f).maxstacksize = unfold checkreg in ground arith in
    record {
      decoded = d;
      target = target;
      operands = operands-OperandsAreSafe (info f) pc op i (get_op_mode op) o eo;
      test = check_test-TestIsSafe (info f) pc op tested;
      uses =
          dispatch-UseIsSafe f lastpc reg pc i
            (if test_a_mode op && getarg_a i == reg then pc else last) r op
            (rw (operands-decoded (info f) pc op i (get_op_mode op) o eo) e3) target;
    }

-- Each round of the loop that does not reject has found an instruction that is safe.
pub step-IsSafe :
    (f : Proto) (lastpc reg pc last : ℕ) (r : ℕ × ℕ)
    → step f lastpc reg pc last ≡ pass r
    → (i : ℕ) × (op : OpCode) × (get_elem? (info f).code pc ≡ some i) × IsSafe f pc i op
unfolding step
step-IsSafe f lastpc reg pc last r e =
    let (i, ei, e1) = >>=-eq-pass (at (info f).code pc) _ e in
    let (op, safe) = known i (opcode? (get_opcode i)) refl e1 in
    (i, op, at-eq-pass (info f).code pc i ei, safe)
  where
    known :
        (i : ℕ) (o : Option OpCode)
        → opcode? (get_opcode i) ≡ o
        → elim o [ none ↦ reject | some op ↦ check_at f lastpc reg pc last op i ] ≡ pass r
        → (op : OpCode) × IsSafe f pc i op
    known i none d h = cc
    known i (some op) d h = (op, check_at-IsSafe f lastpc reg pc last op i r d h)
