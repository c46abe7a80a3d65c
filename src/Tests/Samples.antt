-- ===== src/Tests/Samples.antt =====
-- `a = 6` as the compiler of src/lparser.c and src/lcode.c encodes it, and what it takes to run the
-- checker on it.
use lua_reading.Prelude.{ℕ, List, [], ◌∷◌, some, true, ◌≡◌, refl}
use lua_reading.Proto.{number, string, FuncInfo, Proto, proto, end, cons}
use lua_reading.Opcodes.{
  get_opcode, getarg_a, getarg_b, getarg_c, getarg_bx, getarg_sbx, isk, indexk, create_abc,
  create_abx,
}
use lua_reading.Opcodes.Modes.{
  opcode?, number as opcode_number, get_op_mode, get_b_mode, get_c_mode, test_a_mode, test_t_mode,
}
use lua_reading.Checker.Checks.{
  checkreg, is_op, has, precheck, checkopenop_at, checkopenop, checkopenop_next, check_arg_mode,
  is_setlist_zero, setlists_before, checkdest, check_index, check_jump, operands, check_test,
}
use lua_reading.Checker.Switch.{
  jump_to, check_pseudo, is_string, nups_at, check_skip, check_call, dispatch, check_at, step,
}
use lua_reading.Checker.Run.{loop, symbexec, checkcode}

unfoldable pub checker : Unit {0}
unfolding get_opcode getarg_a getarg_b getarg_c getarg_bx getarg_sbx isk indexk create_abc
    create_abx opcode? opcode_number get_op_mode get_b_mode get_c_mode test_a_mode test_t_mode
    checkreg is_op has precheck checkopenop_at checkopenop checkopenop_next check_arg_mode
    is_setlist_zero setlists_before checkdest check_index check_jump operands check_test jump_to
    check_pseudo is_string nups_at check_skip check_call dispatch check_at step loop symbexec
    checkcode
checker = tt

-- LOADK 0 0; SETGLOBAL 0 1; JMP 0; RETURN 0 1
abbrev pub sample_code : List ℕ
sample_code = 1 ∷ 16391 ∷ 2147450902 ∷ 8388638 ∷ []

abbrev pub sample_info : FuncInfo
sample_info = record {
  source = some (b'@' ∷ b't' ∷ []);
  linedefined = 0;
  lastlinedefined = 0;
  nups = 0;
  numparams = 0;
  is_vararg = 2;
  maxstacksize = 2;
  code = sample_code;
  k = number 6 ∷ string (some (b'a' ∷ [])) ∷ [];
  lineinfo = 1 ∷ 1 ∷ 1 ∷ 1 ∷ [];
  locvars = [];
  upvalues = [];
}

-- The function, with a copy of itself inside.
abbrev pub inner : Proto
inner = proto sample_info end

abbrev pub sample : Proto
sample = proto sample_info (cons inner end)

pub inner_accepted : checkcode inner ≡ true
unfolding checker
inner_accepted = refl

pub sample_accepted : checkcode sample ≡ true
unfolding checker
sample_accepted = refl
