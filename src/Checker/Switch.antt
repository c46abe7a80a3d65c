-- ===== src/Checker/Switch.antt =====
-- src/ldebug.c: one round of symbolic execution, the body of the loop of `symbexec`.
use lua_reading.Prelude.{
  ℕ, zero, suc, ◌+◌, ◌-◌, Bool, true, false, not, ◌&&◌, ◌||◌, ltb, leb, ◌==◌, if◌then◌else◌, none,
  some, length,
}
use lua_reading.Prelude.Int.{ℤ, pos, negsuc, ◌+ℤ◌}
use lua_reading.Opcodes.{get_opcode, getarg_a}
use lua_reading.Opcodes.Modes.{
  OpCode, opcode?, get_op_mode, test_a_mode, test_t_mode, op_loadbool, op_loadnil, op_getupval,
  op_setupval, op_getglobal, op_setglobal, op_self, op_concat, op_tforloop, op_forloop, op_forprep,
  op_jmp, op_call, op_tailcall, op_return, op_setlist, op_closure, op_vararg, op_move,
}
use lua_reading.Proto.{Constant, string, FuncInfo, Proto, Protos, info, nested, sizep, proto_at}
use lua_reading.Checker.Checks.{
  Outcome, pass, reject, fault, ◌>>=◌, ◌>>◌, check, at, when, checkreg, is_op, has, vararg_isvararg,
  vararg_needsarg, no_reg, checkopenop_next, is_setlist_zero, Operands, operands, check_test,
}

-- `pc` and `last` as the loop's body leaves them.
abbrev pub Place : Type 0
Place = ℕ × ℕ

-- The jumps of a traced execution: `pc += b` for a forward jump that does not skip `lastpc`.
unfoldable pub jump_to : ℕ → ℕ → ℕ → ℤ → ℕ
jump_to lastpc reg pc (negsuc n) = pc
jump_to lastpc reg pc (pos dest) =
    if not (reg == no_reg) && (ltb pc dest && leb dest lastpc) then dest - 1 else pc

-- The loop over the pseudo-instructions behind a CLOSURE: `nup` words from `start` on.
unfoldable pub check_pseudo : FuncInfo → ℕ → ℕ → Outcome (Unit {0})
check_pseudo pt start zero = pass tt
check_pseudo pt start (suc nup) = do
  i ← at pt.code start
  check (is_op op_getupval i || is_op op_move i)
  check_pseudo pt (start + 1) nup

unfoldable pub is_string : Constant → Bool
is_string (string s) = true
is_string _ = false

-- `pt->p[i]->nups`
unfoldable pub nups_at : Protos → ℕ → Outcome ℕ
nups_at ps i = elim (proto_at ps i) [ none ↦ fault | some f ↦ pass (info f).nups ]

-- The jump of an OP_LOADBOOL.
unfoldable pub check_skip : FuncInfo → ℕ → Outcome (Unit {0})
check_skip pt pc = do
  check (ltb (pc + 2) (length pt.code))
  i ← at pt.code (pc + 1)
  check (not (is_setlist_zero i))

-- The case of OP_CALL and OP_TAILCALL; `c--` makes 0 LUA_MULTRET and 1 no results.
unfoldable pub check_call : FuncInfo → ℕ → ℕ → Operands → ℕ → ℕ → Outcome Place
check_call pt pc a o reg last = do
  when (not (o.b == 0)) (checkreg pt (a + o.b - 1))
  when (o.c == 0) (checkopenop_next pt pc)
  when (ltb 1 o.c) (checkreg pt (a + o.c - 2))
  pass (pc, if leb a reg then pc else last)

-- The switch on the opcode, with the number `a` and the decoded operands. `b--` and `c--` are
-- written out: a call's C is the number of returns plus one, and 0 stands for LUA_MULTRET.
unfoldable pub dispatch : Proto → ℕ → ℕ → ℕ → ℕ → Operands → ℕ → OpCode → Outcome Place
dispatch f lastpc reg pc a o last op_loadbool = do
  let pt = info f
  when (o.c == 1) (check_skip pt pc)
  pass (pc, last)
dispatch f lastpc reg pc a o last op_loadnil =
    pass (pc, if leb a reg && leb reg o.b then pc else last)
dispatch f lastpc reg pc a o last op_getupval = do check (ltb o.b (info f).nups); pass (pc, last)
dispatch f lastpc reg pc a o last op_setupval = do check (ltb o.b (info f).nups); pass (pc, last)
dispatch f lastpc reg pc a o last op_getglobal = do
  k ← at (info f).k o.b
  check (is_string k)
  pass (pc, last)
dispatch f lastpc reg pc a o last op_setglobal = do
  k ← at (info f).k o.b
  check (is_string k)
  pass (pc, last)
dispatch f lastpc reg pc a o last op_self = do
  checkreg (info f) (a + 1)
  pass (pc, if reg == a + 1 then pc else last)
dispatch f lastpc reg pc a o last op_concat = do check (ltb o.b o.c); pass (pc, last)
dispatch f lastpc reg pc a o last op_tforloop = do
  check (leb 1 o.c)
  checkreg (info f) (a + 2 + o.c)
  pass (pc, if leb (a + 2) reg then pc else last)
dispatch f lastpc reg pc a o last op_forloop = do
  checkreg (info f) (a + 3)
  pass (jump_to lastpc reg pc (pos (pc + 1) +ℤ o.jump), last)
dispatch f lastpc reg pc a o last op_forprep = do
  checkreg (info f) (a + 3)
  pass (jump_to lastpc reg pc (pos (pc + 1) +ℤ o.jump), last)
dispatch f lastpc reg pc a o last op_jmp =
    pass (jump_to lastpc reg pc (pos (pc + 1) +ℤ o.jump), last)
dispatch f lastpc reg pc a o last op_call = check_call (info f) pc a o reg last
dispatch f lastpc reg pc a o last op_tailcall = check_call (info f) pc a o reg last
dispatch f lastpc reg pc a o last op_return = do
  when (ltb 1 o.b) (check (ltb (a + o.b) ((info f).maxstacksize + 2)))
  pass (pc, last)
dispatch f lastpc reg pc a o last op_setlist = do
  when (ltb 0 o.b) (checkreg (info f) (a + o.b))
  when (o.c == 0) (check (ltb (pc + 2) (length (info f).code)))
  pass (if o.c == 0 then pc + 1 else pc, last)
dispatch f lastpc reg pc a o last op_closure = do
  check (ltb o.b (sizep (nested f)))
  nup ← nups_at (nested f) o.b
  check (ltb (pc + nup) (length (info f).code))
  check_pseudo (info f) (pc + 1) nup
  pass (if not (reg == no_reg) then pc + nup else pc, last)
dispatch f lastpc reg pc a o last op_vararg = do
  let pt = info f
  check (has pt.is_vararg vararg_isvararg && not (has pt.is_vararg vararg_needsarg))
  when (o.b == 0) (checkopenop_next pt pc)
  check (ltb (a + o.b) (pt.maxstacksize + 2))
  pass (pc, last)
dispatch f lastpc reg pc a o last _ = pass (pc, last)

-- One round of the loop: the checks at `pc`, and where `pc` (before `pc++`) and `last` end up.
unfoldable pub check_at : Proto → ℕ → ℕ → ℕ → ℕ → OpCode → ℕ → Outcome Place
check_at f lastpc reg pc last op i = do
  checkreg (info f) (getarg_a i)
  o ← operands (info f) pc op i (get_op_mode op)
  let last' = if test_a_mode op && getarg_a i == reg then pc else last
  check_test (info f) pc (test_t_mode op)
  dispatch f lastpc reg pc (getarg_a i) o last' op

unfoldable pub step : Proto → ℕ → ℕ → ℕ → ℕ → Outcome Place
step f lastpc reg pc last = do
  i ← at (info f).code pc
  elim (opcode? (get_opcode i)) [ none ↦ reject | some op ↦ check_at f lastpc reg pc last op i ]
