-- ===== src/Checker/Checks.antt =====
-- src/ldebug.c: the single checks of the code checker.
-- A read outside of `code`, `k` or `p` is the outcome `fault`; a failed `check` is `reject`.
-- The arithmetic is on `int`s far from their limits, so it is written on ℕ with a subtraction moved
-- to the other side of a comparison, and on ℤ where a value may be negative.
use lua_reading.Prelude.{
  ℕ, zero, suc, ◌+◌, ◌-◌, Bool, true, false, not, ◌&&◌, ◌||◌, ltb, leb, ◌==◌, if◌then◌else◌, List,
  Option, none, some, length, get_elem?,
}
use lua_reading.Prelude.Int.{ℤ, pos, negsuc, ◌+ℤ◌}
use lua_reading.Opcodes.{
  get_opcode, getarg_b, getarg_c, getarg_bx, getarg_sbx, isk, indexk, maxarg_a,
}
use lua_reading.Opcodes.Modes.{
  OpMode, iabc, iabx, iasbx, OpArgMask, op_arg_n, op_arg_u, op_arg_r, op_arg_k, OpCode, opcode?,
  number, get_b_mode, get_c_mode, op_jmp, op_call, op_tailcall, op_return, op_setlist,
}
use lua_reading.Proto.{FuncInfo}
use Prim.Native.Nat.{bit_and}

abbrev pub max_stack : ℕ
max_stack = 250

abbrev pub vararg_hasarg : ℕ
vararg_hasarg = 1

abbrev pub vararg_isvararg : ℕ
vararg_isvararg = 2

abbrev pub vararg_needsarg : ℕ
vararg_needsarg = 4

abbrev pub no_reg : ℕ
no_reg = maxarg_a

pub data Outcome {ℓ} (A : Type ℓ) : Type ℓ where
  pass : A → Outcome A
  reject : Outcome A
  fault : Outcome A

infixl 5 ◌>>=◌ ◌>>◌
abbrev pub ◌>>=◌ {ℓ κ} : {A : Type ℓ} {B : Type κ} → Outcome A → (A → Outcome B) → Outcome B
pass a >>= f = f a
reject >>= f = reject
fault >>= f = fault

abbrev pub ◌>>◌ {ℓ} : {B : Type ℓ} → Outcome (Unit {0}) → Outcome B → Outcome B
m >> k = m >>= λ _. k

-- `#define check(x) if (!(x)) return 0;`
abbrev pub check : Bool → Outcome (Unit {0})
check true = pass tt
check false = reject

-- `if (x) { … }` around checks
abbrev pub when : Bool → Outcome (Unit {0}) → Outcome (Unit {0})
when true m = m
when false m = pass tt

-- `array[i]`
abbrev pub at {ℓ} : {A : Type ℓ} → List A → ℕ → Outcome A
at xs i = elim (get_elem? xs i) [ none ↦ fault | some x ↦ pass x ]

unfoldable pub checkreg : FuncInfo → ℕ → Outcome (Unit {0})
checkreg pt reg = check (ltb reg pt.maxstacksize)

unfoldable pub is_op : OpCode → ℕ → Bool
is_op op i = get_opcode i == number op

unfoldable pub has : ℕ → ℕ → Bool
has flags mask = not (bit_and flags mask == 0)

unfoldable pub precheck : FuncInfo → Outcome (Unit {0})
precheck pt = do
  check (leb pt.maxstacksize max_stack)
  check (leb (pt.numparams + bit_and pt.is_vararg vararg_hasarg) pt.maxstacksize)
  check (not (has pt.is_vararg vararg_needsarg) || has pt.is_vararg vararg_hasarg)
  check (leb (length pt.upvalues) pt.nups)
  check (length pt.lineinfo == length pt.code || length pt.lineinfo == 0)
  check (ltb 0 (length pt.code))
  last ← at pt.code (length pt.code - 1)
  check (is_op op_return last)

-- `luaG_checkopenop`
unfoldable pub checkopenop_at : Option OpCode → ℕ → Outcome (Unit {0})
checkopenop_at (some op_call) i = check (getarg_b i == 0)
checkopenop_at (some op_tailcall) i = check (getarg_b i == 0)
checkopenop_at (some op_return) i = check (getarg_b i == 0)
checkopenop_at (some op_setlist) i = check (getarg_b i == 0)
checkopenop_at _ i = reject

unfoldable pub checkopenop : ℕ → Outcome (Unit {0})
unfolding checkopenop_at
checkopenop i = checkopenop_at (opcode? (get_opcode i)) i

-- The macro of that name looks at the next instruction.
unfoldable pub checkopenop_next : FuncInfo → ℕ → Outcome (Unit {0})
checkopenop_next pt pc = do i ← at pt.code (pc + 1); checkopenop i

unfoldable pub check_arg_mode : FuncInfo → ℕ → OpArgMask → Outcome (Unit {0})
check_arg_mode pt r op_arg_n = check (r == 0)
check_arg_mode pt r op_arg_u = pass tt
check_arg_mode pt r op_arg_r = checkreg pt r
check_arg_mode pt r op_arg_k =
    check (if isk r then ltb (indexk r) (length pt.k) else ltb r pt.maxstacksize)

unfoldable pub is_setlist_zero : ℕ → Bool
is_setlist_zero d = is_op op_setlist d && getarg_c d == 0

-- The loop over j: whether an even number of words before `dest` look like a SETLIST with C = 0.
-- `left` is `dest - j`; `even` tells that j is even.
unfoldable pub setlists_before : List ℕ → ℕ → Bool → Outcome Bool
setlists_before code zero even = pass even
setlists_before code (suc left) even =
    let more = setlists_before code left (not even) in
    do d ← at code left; if is_setlist_zero d then more else pass even

-- `dest` is checked when it may be negative.
unfoldable pub checkdest : FuncInfo → ℤ → Outcome (Unit {0})
checkdest pt (negsuc n) = reject
checkdest pt (pos dest) = do
  check (ltb dest (length pt.code))
  even ← setlists_before pt.code dest true
  check even

-- The operands `b` and `c` of one instruction, decoded; `jump` is `b` of the format iAsBx.
pub record Operands : Type 0 where
  pub b : ℕ
  pub c : ℕ
  pub jump : ℤ

-- `if (getBMode(op) == OpArgK) check(b < pt->sizek)`
unfoldable pub check_index : FuncInfo → ℕ → OpArgMask → Outcome (Unit {0})
check_index pt b op_arg_k = check (ltb b (length pt.k))
check_index pt b _ = pass tt

-- `if (getBMode(op) == OpArgR) { … }` for a jump to `dest`
unfoldable pub check_jump : FuncInfo → ℤ → OpArgMask → Outcome (Unit {0})
check_jump pt dest op_arg_r = checkdest pt dest
check_jump pt dest _ = pass tt

-- The switch on the instruction's format.
unfoldable pub operands : FuncInfo → ℕ → OpCode → ℕ → OpMode → Outcome Operands
operands pt pc op i iabc = do
  check_arg_mode pt (getarg_b i) (get_b_mode op)
  check_arg_mode pt (getarg_c i) (get_c_mode op)
  pass (record { b = getarg_b i; c = getarg_c i; jump = pos 0 })
operands pt pc op i iabx = do
  check_index pt (getarg_bx i) (get_b_mode op)
  pass (record { b = getarg_bx i; c = 0; jump = pos 0 })
operands pt pc op i iasbx = do
  check_jump pt (pos (pc + 1) +ℤ getarg_sbx i) (get_b_mode op)
  pass (record { b = 0; c = 0; jump = getarg_sbx i })

unfoldable pub check_test : FuncInfo → ℕ → Bool → Outcome (Unit {0})
check_test pt pc false = pass tt
check_test pt pc true = do
  check (ltb (pc + 2) (length pt.code))
  i ← at pt.code (pc + 1)
  check (is_op op_jmp i)
