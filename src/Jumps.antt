-- ===== src/Jumps.antt =====
-- src/lcode.c: lists of jumps. The jumps of a list are JMP instructions of the function; the offset of
-- each leads to the next, and NO_JUMP ends the list. The code is a function of the position.
use lua_reading.Prelude.{
  ℕ, zero, suc, ◌+◌, ◌-◌, ◌*◌, ◌/◌, ◌%◌, ◌^◌, ◌≤◌, ◌<◌, min, ◌≡◌, refl, sym, ap, ap₂, ◌∙◌, ◌≢◌, ◌↔◌,
  ◌⊎◌, inl, inr, Bool, true, false, not, ◌&&◌, ◌||◌, Option, none, some, List, [], ◌∷◌, ◌++◌, map,
  arith, ltb, leb, ◌==◌, if◌then◌else◌, ltb→lt, lt→ltb, ==_iff, Bool-cases, Option-cases, length,
  get_elem?, get_or, take, drop, All, length-append, length-drop, take-append, drop-append,
  get_elem?-lt,
}
use lua_reading.Prelude.Int.{ℤ, pos, negsuc, pos_part, neg_part, sub_ℕ}
use lua_reading.Opcodes.{
  maxarg_sbx, maxarg_a, get_opcode, getarg_a, getarg_b, getarg_c, getarg_sbx, setarg_a, setarg_sbx,
  create_abc,
}
use lua_reading.Checker.Checks.{no_reg}
use lua_reading.Opcodes.Modes.{OpCode, opcode?, test_t_mode, number}
pub mod Lists
pub mod Concat
pub mod Control
pub mod Patch
pub mod Emit
pub mod Count
pub mod Pending

abbrev pub Code : Type 0
Code = ℕ → ℕ

abbrev pub store : Code → ℕ → ℕ → Code
store code pc i k = if k == pc then i else code k

-- A position in a list; NO_JUMP is `none`.
abbrev pub JumpList : Type 0
JumpList = Option ℕ

-- `(pc+1)+offset`, the offset NO_JUMP apart. A position below 0 does not occur.
abbrev pub position : ℕ → ℤ → JumpList
position pc (pos n) = some (pc + 1 + n)
position pc (negsuc n) = if n == 0 then none else if leb n pc then some (pc - n) else none

unfoldable pub getjump : Code → ℕ → JumpList
getjump code pc = position pc (getarg_sbx (code pc))

-- `none` is the error "control structure too long".
unfoldable pub fixjump : Code → ℕ → ℕ → Option Code
fixjump code pc dest =
    let offset = sub_ℕ dest (pc + 1) in
    if ltb maxarg_sbx (pos_part offset + neg_part offset)
    then none
    else some (store code pc (setarg_sbx (code pc) offset))

abbrev pub is_test : Option OpCode → Bool
is_test none = false
is_test (some op) = test_t_mode op

-- The position of what `getjumpcontrol` returns.
unfoldable pub getjumpcontrol : Code → ℕ → ℕ
getjumpcontrol code pc =
    if leb 1 pc && is_test (opcode? (get_opcode (code (pc - 1)))) then pc - 1 else pc

unfoldable pub patchtestreg : Code → ℕ → ℕ → Bool × Code
patchtestreg code node reg =
    let i = getjumpcontrol code node in
    if not (get_opcode (code i) == number OpCode.op_testset)
    then (false, code)
    else if not (reg == no_reg) && not (reg == getarg_b (code i))
    then (true, store code i (setarg_a (code i) reg))
    else (
      true,
      store code i (create_abc (number OpCode.op_test) (getarg_b (code i)) 0 (getarg_c (code i))),
    )

-- A list and the code; the error; `ran_out` is only the model's.
pub data Listed : Type 0 where
  listed : JumpList → Code → Listed
  too_long : Listed
  ran_out : Listed

abbrev pub after_fix : Option Code → (Code → Listed) → Listed
after_fix none k = too_long
after_fix (some code) k = k code

-- The loop of `patchlistaux`, which leaves no list.
unfoldable pub patchlistaux : ℕ → Code → JumpList → ℕ → ℕ → ℕ → Listed
patchlistaux fuel code none vtarget reg dtarget = listed none code
patchlistaux zero code (some list) vtarget reg dtarget = ran_out
patchlistaux (suc fuel) code (some list) vtarget reg dtarget =
    let (value, code') = patchtestreg code list reg in
    after_fix (fixjump code' list (if value then vtarget else dtarget))
      (λ code''. patchlistaux fuel code'' (getjump code list) vtarget reg dtarget)

-- The last jump of a list.
unfoldable pub last_jump : ℕ → Code → ℕ → JumpList → Option ℕ
last_jump fuel code list none = some list
last_jump zero code list (some next) = none
last_jump (suc fuel) code list (some next) = last_jump fuel code next (getjump code next)

abbrev pub append_at : Code → ℕ → ℕ → Option ℕ → Listed
append_at code l1 l2 none = ran_out
append_at code l1 l2 (some list) =
    after_fix (fixjump code list l2) (λ code'. listed (some l1) code')

-- `luaK_concat`; the list `l1` is returned.
unfoldable pub concat : ℕ → Code → JumpList → JumpList → Listed
concat fuel code l1 none = listed l1 code
concat fuel code none (some l2) = listed (some l2) code
concat fuel code (some l1) (some l2) =
    append_at code l1 l2 (last_jump fuel code l1 (getjump code l1))
