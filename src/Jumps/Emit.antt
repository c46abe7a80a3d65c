-- ===== src/Jumps/Emit.antt =====
-- src/lcode.c: instructions as they are appended, with the jumps that wait for the next one.
use lua_reading.Prelude.{ℕ, ◌+◌, ◌-◌, Bool, not, ◌&&◌, none, some, ltb, leb, ◌==◌, if◌then◌else◌}
use lua_reading.Prelude.Int.{ℤ, pos, ltb_ℤ}
use lua_reading.Opcodes.{
  maxarg_sbx, get_opcode, getarg_a, getarg_b, setarg_b, create_abc, create_abx,
}
use lua_reading.Opcodes.Modes.{OpCode, number}
use lua_reading.Checker.Checks.{no_reg}
use lua_reading.Jumps.{
  Code, store, JumpList, Listed, listed, too_long, ran_out, patchlistaux, concat,
}

-- The parts of a `FuncState` that these functions use; `lastline` is the line of the last token.
pub record FuncState : Type 0 where
  pub code : Code
  pub lineinfo : ℕ → ℕ
  pub pc : ℕ
  pub lasttarget : ℤ
  pub jpc : JumpList
  pub nactvar : ℕ
  pub lastline : ℕ

-- A value and the state; or no state, as the list says.
pub data Emitted (A : Type 0) : Type 0 where
  emitted : A → FuncState → Emitted A
  failed : Listed → Emitted A

abbrev pub after_list : {A : Type 0} → Listed → (JumpList → Code → Emitted A) → Emitted A
after_list (listed l code) k = k l code
after_list too_long k = failed too_long
after_list ran_out k = failed ran_out

-- A function has no more jumps than instructions.
abbrev pub dischargejpc : FuncState → Listed
dischargejpc fs = patchlistaux fs.pc fs.code fs.jpc fs.pc no_reg fs.pc

-- `luaK_code`; the arrays grow as needed.
unfoldable pub emit : ℕ → FuncState → Emitted ℕ
emit i fs = after_list (dischargejpc fs) (λ l code. emitted fs.pc (record fs {
  code = store code fs.pc i;
  lineinfo = store fs.lineinfo fs.pc fs.lastline;
  pc = fs.pc + 1;
  jpc = l;
}))

abbrev pub emit_abc : OpCode → ℕ → ℕ → ℕ → FuncState → Emitted ℕ
emit_abc o a b c fs = emit (create_abc (number o) a b c) fs

abbrev pub emit_return : ℕ → ℕ → FuncState → Emitted ℕ
emit_return first nret fs = emit_abc OpCode.op_return first (nret + 1) 0 fs

abbrev pub jump_to_nowhere : ℕ
jump_to_nowhere = create_abx (number OpCode.op_jmp) 0 (maxarg_sbx - 1)

abbrev pub hold : JumpList → Emitted ℕ → Emitted JumpList
hold jpc (failed x) = failed x
hold jpc (emitted j fs) =
    after_list (concat fs.pc fs.code (some j) jpc) (λ l code. emitted l (record fs { code = code }))

unfoldable pub emit_jump : FuncState → Emitted JumpList
emit_jump fs = hold fs.jpc (emit jump_to_nowhere (record fs { jpc = none }))

abbrev pub getlabel : FuncState → ℕ × FuncState
getlabel fs = (fs.pc, record fs { lasttarget = pos fs.pc })

unfoldable pub patchtohere : JumpList → FuncState → Emitted (Unit {0})
patchtohere list fs =
    let (_, fs') = getlabel fs in
    after_list (concat fs'.pc fs'.code fs'.jpc list)
      (λ l code. emitted tt (record fs' { code = code; jpc = l }))

unfoldable pub patchlist : JumpList → ℕ → FuncState → Emitted (Unit {0})
patchlist list target fs =
    if target == fs.pc
    then patchtohere list fs
    else after_list (patchlistaux fs.pc fs.code list target no_reg target)
        (λ l code. emitted tt (record fs { code = code }))

abbrev pub ignore : Emitted ℕ → Emitted (Unit {0})
ignore (emitted pc fs) = emitted tt fs
ignore (failed x) = failed x

-- Whether `luaK_nil` widens the LOADNIL `previous`.
abbrev pub connects : ℕ → ℕ → Bool
connects previous from =
    get_opcode previous == number OpCode.op_loadnil
    && (leb (getarg_a previous) from && leb from (getarg_b previous + 1))

abbrev pub widen : ℕ → ℕ → ℕ → ℕ
widen previous from n =
    if ltb (getarg_b previous) (from + n - 1) then setarg_b previous (from + n - 1) else previous

unfoldable pub emit_nil : ℕ → ℕ → FuncState → Emitted (Unit {0})
emit_nil from n fs =
    let previous = fs.code (fs.pc - 1) in
    let plain = ignore (emit_abc OpCode.op_loadnil from (from + n - 1) 0 fs) in
    if not (ltb_ℤ fs.lasttarget (pos fs.pc))
    then plain
    else if fs.pc == 0
    then (if leb fs.nactvar from then emitted tt fs else plain)
    else if connects previous from
    then emitted tt (record fs { code = store fs.code (fs.pc - 1) (widen previous from n) })
    else plain
