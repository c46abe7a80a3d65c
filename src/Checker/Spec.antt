-- ===== src/Checker/Spec.antt =====
-- What it means for the instruction `i` at `pc` to be safe to run: every register, constant, upvalue,
-- nested function and jump target that it names is there, and the instructions behind it are those
-- that it relies on. Written from the description of the
-- opcodes and the notes in src/lopcodes.h and their use of registers, not from the checks.
use Prim.Native.Nat.{bit_and}
use lua_reading.Prelude.{
  ℕ, zero, suc, ◌+◌, ◌≤◌, ◌<◌, true, false, List, Option, some, length, get_elem?, ◌≡◌, ◌≢◌, ◌⊎◌,
}
use lua_reading.Prelude.Int.{ℤ, pos, ◌+ℤ◌}
use lua_reading.Opcodes.{
  get_opcode, getarg_a, getarg_b, getarg_c, getarg_bx, getarg_sbx, isk, indexk,
}
use lua_reading.Opcodes.Modes.{
  OpMode, iabc, iabx, iasbx, OpArgMask, op_arg_n, op_arg_u, op_arg_r, op_arg_k, OpCode, get_op_mode,
  get_b_mode, get_c_mode, op_getupval, op_setupval, op_getglobal, op_setglobal, op_self, op_concat,
  op_tforloop, op_forloop, op_forprep, op_call, op_tailcall, op_return, op_setlist, op_closure,
  op_vararg, op_eq, op_lt, op_le, op_test, op_testset, op_loadbool, op_move, op_jmp, number,
  opcode?,
}
use lua_reading.Proto.{string, Bytes, FuncInfo, Proto, info, nested, proto_at}
use lua_reading.Checker.Starts.{Start}

-- A B or C argument: unused, any number, a register, or a register or constant.
abbrev pub ArgIsSafe : FuncInfo → ℕ → OpArgMask → Type 0
ArgIsSafe pt r op_arg_n = r ≡ 0
ArgIsSafe pt r op_arg_u = Unit {0}
ArgIsSafe pt r op_arg_r = r < pt.maxstacksize
ArgIsSafe pt r op_arg_k =
    (isk r ≡ true) × (indexk r < length pt.k) ⊎ (isk r ≡ false) × (r < pt.maxstacksize)

-- A jump lands on an instruction of the function.
abbrev pub TargetIsSafe : FuncInfo → ℤ → Type 0
TargetIsSafe pt d = (dest : ℕ) × (d ≡ pos dest) × (dest < length pt.code) × Start pt.code dest

abbrev pub IndexIsSafe : FuncInfo → ℕ → OpArgMask → Type 0
IndexIsSafe pt bx op_arg_k = bx < length pt.k
IndexIsSafe pt bx _ = Unit {0}

abbrev pub JumpIsSafe : FuncInfo → ℤ → OpArgMask → Type 0
JumpIsSafe pt d op_arg_r = TargetIsSafe pt d
JumpIsSafe pt d _ = Unit {0}

abbrev pub OperandsAreSafe : FuncInfo → ℕ → OpCode → ℕ → OpMode → Type 0
OperandsAreSafe pt pc op i iabc =
    ArgIsSafe pt (getarg_b i) (get_b_mode op) × ArgIsSafe pt (getarg_c i) (get_c_mode op)
OperandsAreSafe pt pc op i iabx = IndexIsSafe pt (getarg_bx i) (get_b_mode op)
OperandsAreSafe pt pc op i iasbx = JumpIsSafe pt (pos (pc + 1) +ℤ getarg_sbx i) (get_b_mode op)

-- An instruction that may skip the next one: that one is a jump, and one more is behind it.
abbrev pub SkipsJump : FuncInfo → ℕ → Type 0
SkipsJump pt pc =
    (pc + 2 < length pt.code)
    × (j : ℕ) × (get_elem? pt.code (pc + 1) ≡ some j)
    × (get_opcode j ≡ number op_jmp)

-- The instructions with a test are the comparisons, the Boolean tests and the generic loop.
abbrev pub TestIsSafe : FuncInfo → ℕ → OpCode → Type 0
TestIsSafe pt pc op_eq = SkipsJump pt pc
TestIsSafe pt pc op_lt = SkipsJump pt pc
TestIsSafe pt pc op_le = SkipsJump pt pc
TestIsSafe pt pc op_test = SkipsJump pt pc
TestIsSafe pt pc op_testset = SkipsJump pt pc
TestIsSafe pt pc op_tforloop = SkipsJump pt pc
TestIsSafe pt pc _ = Unit {0}

-- A skip over the next word, which is a whole instruction and not the last one.
abbrev pub SkipsOne : FuncInfo → ℕ → Type 0
SkipsOne pt pc =
    (pc + 2 < length pt.code)
    × (j : ℕ) × (get_elem? pt.code (pc + 1) ≡ some j)
    × ((get_opcode j ≢ number op_setlist) ⊎ (getarg_c j ≢ 0))

-- The opcodes of the instructions that take values up to `top`, with B = 0.
abbrev pub TakesTop : ℕ → Type 0
TakesTop j =
    (get_opcode j ≡ number op_call)
    ⊎ ((get_opcode j ≡ number op_tailcall)
        ⊎ ((get_opcode j ≡ number op_return) ⊎ (get_opcode j ≡ number op_setlist)))

-- An instruction with an open number of results: the next one takes them.
abbrev pub ResultsAreTaken : FuncInfo → ℕ → Type 0
ResultsAreTaken pt pc =
    (j : ℕ) × (get_elem? pt.code (pc + 1) ≡ some j) × TakesTop j × (getarg_b j ≡ 0)

-- The words that tell a closure where its upvalues are: `n` words from `start` on.
abbrev pub CapturesAreSafe : List ℕ → ℕ → ℕ → Type 0
CapturesAreSafe code start zero = Unit {0}
CapturesAreSafe code start (suc n) =
    ((j : ℕ) × (get_elem? code start ≡ some j)
      × ((get_opcode j ≡ number op_getupval) ⊎ (get_opcode j ≡ number op_move)))
    × CapturesAreSafe code (start + 1) n

-- A call's window of arguments and of results, which are taken if they are open.
abbrev pub CallIsSafe : FuncInfo → ℕ → ℕ → Type 0
CallIsSafe pt pc i =
    (getarg_a i + getarg_b i ≤ pt.maxstacksize)
    × (getarg_a i + getarg_c i ≤ pt.maxstacksize + 1)
    × ((getarg_c i ≢ 0) ⊎ ResultsAreTaken pt pc)

-- What the opcode asks for beyond its format. LOADBOOL skips for any C but 0; what is said is only
-- about C = 1, which is all that the compiler makes and the checker looks at. The
-- registers of a window are counted from R(A).
abbrev pub UseIsSafe : Proto → ℕ → ℕ → OpCode → Type 0
UseIsSafe f pc i op_loadbool = (getarg_c i ≢ 1) ⊎ SkipsOne (info f) pc
UseIsSafe f pc i op_getupval = getarg_b i < (info f).nups
UseIsSafe f pc i op_setupval = getarg_b i < (info f).nups
UseIsSafe f pc i op_getglobal =
    (s : Option Bytes) × (get_elem? (info f).k (getarg_bx i) ≡ some (string s))
UseIsSafe f pc i op_setglobal =
    (s : Option Bytes) × (get_elem? (info f).k (getarg_bx i) ≡ some (string s))
UseIsSafe f pc i op_self = getarg_a i + 1 < (info f).maxstacksize
UseIsSafe f pc i op_concat = getarg_b i < getarg_c i
UseIsSafe f pc i op_tforloop =
    (1 ≤ getarg_c i) × (getarg_a i + 2 + getarg_c i < (info f).maxstacksize)
UseIsSafe f pc i op_forloop = getarg_a i + 3 < (info f).maxstacksize
UseIsSafe f pc i op_forprep = getarg_a i + 3 < (info f).maxstacksize
UseIsSafe f pc i op_call = CallIsSafe (info f) pc i
UseIsSafe f pc i op_tailcall = CallIsSafe (info f) pc i
UseIsSafe f pc i op_return = getarg_a i + getarg_b i ≤ (info f).maxstacksize + 1
UseIsSafe f pc i op_setlist =
    (getarg_a i + getarg_b i < (info f).maxstacksize)
    × ((getarg_c i ≢ 0) ⊎ (pc + 2 < length (info f).code))
UseIsSafe f pc i op_closure =
    (g : Proto) × (proto_at (nested f) (getarg_bx i) ≡ some g)
    × (pc + (info g).nups < length (info f).code)
    × CapturesAreSafe (info f).code (pc + 1) (info g).nups
UseIsSafe f pc i op_vararg =
    (getarg_a i + getarg_b i ≤ (info f).maxstacksize + 1)
    × (bit_and (info f).is_vararg 2 ≢ 0)
    × (bit_and (info f).is_vararg 4 ≡ 0)
    × ((getarg_b i ≢ 0) ⊎ ResultsAreTaken (info f) pc)
UseIsSafe f pc i _ = Unit {0}

pub record IsSafe (f : Proto) (pc i : ℕ) (op : OpCode) : Type 0 where
  pub decoded : opcode? (get_opcode i) ≡ some op
  pub target : getarg_a i < (info f).maxstacksize
  pub operands : OperandsAreSafe (info f) pc op i (get_op_mode op)
  pub test : TestIsSafe (info f) pc op
  pub uses : UseIsSafe f pc i op
