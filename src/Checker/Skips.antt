-- ===== src/Checker/Skips.antt =====
-- What the checks of src/ldebug.c say of the words behind an instruction.
use lua_reading.Prelude.{
  ℕ, zero, suc, ◌+◌, ◌<◌, true, ltb, ◌||◌, List, Option, some, length, get_elem?, ◌≡◌, ◌≢◌, refl,
  arith, ◌⊎◌,
}
use lua_reading.Opcodes.{get_opcode, getarg_b, getarg_c}
use lua_reading.Opcodes.Modes.{
  OpCode, opcode?, number, number-opcode?, test_t_mode, op_eq, op_lt, op_le, op_test, op_testset,
  op_tforloop, op_jmp, op_call, op_tailcall, op_return, op_setlist, op_getupval, op_move,
}
use lua_reading.Proto.{FuncInfo}
use lua_reading.Checker.Checks.{
  Outcome, pass, reject, fault, ◌>>=◌, check, at, is_op, is_setlist_zero, check_test,
  checkopenop_at, checkopenop, checkopenop_next,
}
use lua_reading.Checker.Switch.{check_pseudo, check_skip}
use lua_reading.Checker.Spec.{
  SkipsJump, TestIsSafe, SkipsOne, TakesTop, ResultsAreTaken, CapturesAreSafe,
}

pub >>=-eq-pass :
    {A B : Type 0} (m : Outcome A) (f : A → Outcome B) {b : B}
    → (m >>= f) ≡ pass b
    → (a : A) × (m ≡ pass a) × (f a ≡ pass b)
>>=-eq-pass (pass a) f e = (a, refl, e)
>>=-eq-pass reject f e = cc
>>=-eq-pass fault f e = cc

pub at-eq-pass :
    {A : Type 0} (xs : List A) (i : ℕ) (x : A) → at xs i ≡ pass x → get_elem? xs i ≡ some x
at-eq-pass xs i x e = ground arith

check_test-SkipsJump : (pt : FuncInfo) (pc : ℕ) → check_test pt pc true ≡ pass tt → SkipsJump pt pc
unfolding check_test is_op
check_test-SkipsJump pt pc e =
    let (_, inside, e1) = >>=-eq-pass (check (ltb (pc + 2) (length pt.code))) _ e in
    let (j, ej, e2) = >>=-eq-pass (at pt.code (pc + 1)) _ e1 in
    let below : pc + 2 < length pt.code = ground (arith, inside) in
    let jump : get_opcode j ≡ number op_jmp = ground (arith, e2) in
    (below, j, at-eq-pass pt.code (pc + 1) j ej, jump)

pub check_test-TestIsSafe :
    (pt : FuncInfo) (pc : ℕ) (op : OpCode)
    → check_test pt pc (test_t_mode op) ≡ pass tt
    → TestIsSafe pt pc op
unfolding test_t_mode
check_test-TestIsSafe pt pc op_eq e = check_test-SkipsJump pt pc e
check_test-TestIsSafe pt pc op_lt e = check_test-SkipsJump pt pc e
check_test-TestIsSafe pt pc op_le e = check_test-SkipsJump pt pc e
check_test-TestIsSafe pt pc op_test e = check_test-SkipsJump pt pc e
check_test-TestIsSafe pt pc op_testset e = check_test-SkipsJump pt pc e
check_test-TestIsSafe pt pc op_tforloop e = check_test-SkipsJump pt pc e
check_test-TestIsSafe pt pc _ e = tt

pub check_skip-SkipsOne : (pt : FuncInfo) (pc : ℕ) → check_skip pt pc ≡ pass tt → SkipsOne pt pc
unfolding check_skip is_setlist_zero is_op
check_skip-SkipsOne pt pc e =
    let (_, inside, e1) = >>=-eq-pass (check (ltb (pc + 2) (length pt.code))) _ e in
    let (j, ej, e2) = >>=-eq-pass (at pt.code (pc + 1)) _ e1 in
    let below : pc + 2 < length pt.code = ground (arith, inside) in
    let whole : (get_opcode j ≢ number op_setlist) ⊎ (getarg_c j ≢ 0) = ground (arith, e2) in
    (below, j, at-eq-pass pt.code (pc + 1) j ej, whole)

checkopenop-TakesTop : (j : ℕ) → checkopenop j ≡ pass tt → TakesTop j × (getarg_b j ≡ 0)
unfolding checkopenop checkopenop_at
checkopenop-TakesTop j e = known (opcode? (get_opcode j)) refl e
  where
    known :
        (o : Option OpCode)
        → opcode? (get_opcode j) ≡ o
        → checkopenop_at o j ≡ pass tt
        → TakesTop j × (getarg_b j ≡ 0)
    known (some op_call) d h = ground (arith, h, number-opcode? (get_opcode j) op_call d)
    known (some op_tailcall) d h = ground (arith, h, number-opcode? (get_opcode j) op_tailcall d)
    known (some op_return) d h = ground (arith, h, number-opcode? (get_opcode j) op_return d)
    known (some op_setlist) d h = ground (arith, h, number-opcode? (get_opcode j) op_setlist d)
    known _ d h = cc

pub checkopenop_next-ResultsAreTaken :
    (pt : FuncInfo) (pc : ℕ) → checkopenop_next pt pc ≡ pass tt → ResultsAreTaken pt pc
unfolding checkopenop_next
checkopenop_next-ResultsAreTaken pt pc e =
    let (j, ej, e1) = >>=-eq-pass (at pt.code (pc + 1)) _ e in
    let (takes, open_end) = checkopenop-TakesTop j e1 in
    (j, at-eq-pass pt.code (pc + 1) j ej, takes, open_end)

pub check_pseudo-CapturesAreSafe :
    (pt : FuncInfo) (start n : ℕ)
    → check_pseudo pt start n ≡ pass tt
    → CapturesAreSafe pt.code start n
unfolding check_pseudo is_op
check_pseudo-CapturesAreSafe pt start zero e = tt
check_pseudo-CapturesAreSafe pt start (suc n) e =
    let (j, ej, e1) = >>=-eq-pass (at pt.code start) _ e in
    let (_, kind, e2) = >>=-eq-pass (check (is_op op_getupval j || is_op op_move j)) _ e1 in
    let known : (get_opcode j ≡ number op_getupval) ⊎ (get_opcode j ≡ number op_move) =
      ground (arith, kind) in
    ((j, at-eq-pass pt.code start j ej, known), check_pseudo-CapturesAreSafe pt (start + 1) n e2)
