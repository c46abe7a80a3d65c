-- ===== src/Opcodes/Modes.antt =====
-- src/lopcodes.h, src/lopcodes.c: the opcodes in their order, the instruction formats and the
-- table `luaP_opmodes` with the macros that read it.
use lua_reading.Prelude.{
  ℕ, ◌+◌, ◌*◌, ◌/◌, ◌^◌, Bool, ◌==◌, not, List, [], ◌∷◌, Option, some, get_or, get_elem?,
  if◌then◌else◌, some, ◌≡◌, refl, true, ◌&&◌, zero, suc, ◌∙◌, arith, ◌+◌,
}
use Prim.Native.Nat.{bit_and, bit_or}

pub data OpMode : Type 0 where
  iabc iabx iasbx : OpMode

pub data OpArgMask : Type 0 where
  op_arg_n op_arg_u op_arg_r op_arg_k : OpArgMask

pub data OpCode : Type 0 where
  op_move op_loadk op_loadbool op_loadnil op_getupval op_getglobal : OpCode
  op_gettable op_setglobal op_setupval op_settable op_newtable op_self : OpCode
  op_add op_sub op_mul op_div op_mod op_pow : OpCode
  op_unm op_not op_len op_concat op_jmp op_eq : OpCode
  op_lt op_le op_test op_testset op_call op_tailcall : OpCode
  op_return op_forloop op_forprep op_tforloop op_setlist op_close : OpCode
  op_closure op_vararg : OpCode

-- The enumeration in its order: an opcode's number is its place.
abbrev order : List OpCode
order =
    op_move ∷ op_loadk ∷ op_loadbool ∷ op_loadnil ∷ op_getupval ∷ op_getglobal ∷ op_gettable
    ∷ op_setglobal ∷ op_setupval ∷ op_settable ∷ op_newtable ∷ op_self ∷ op_add ∷ op_sub ∷ op_mul
    ∷ op_div ∷ op_mod ∷ op_pow ∷ op_unm ∷ op_not ∷ op_len ∷ op_concat ∷ op_jmp ∷ op_eq ∷ op_lt
    ∷ op_le ∷ op_test ∷ op_testset ∷ op_call ∷ op_tailcall ∷ op_return ∷ op_forloop ∷ op_forprep
    ∷ op_tforloop ∷ op_setlist ∷ op_close ∷ op_closure ∷ op_vararg ∷ []

abbrev pub num_opcodes : ℕ
num_opcodes = 38

-- The opcode of a number; none from NUM_OPCODES on.
unfoldable pub opcode? : ℕ → Option OpCode
opcode? n = get_elem? order n

unfoldable pub number : OpCode → ℕ
number op_move = 0
number op_loadk = 1
number op_loadbool = 2
number op_loadnil = 3
number op_getupval = 4
number op_getglobal = 5
number op_gettable = 6
number op_setglobal = 7
number op_setupval = 8
number op_settable = 9
number op_newtable = 10
number op_self = 11
number op_add = 12
number op_sub = 13
number op_mul = 14
number op_div = 15
number op_mod = 16
number op_pow = 17
number op_unm = 18
number op_not = 19
number op_len = 20
number op_concat = 21
number op_jmp = 22
number op_eq = 23
number op_lt = 24
number op_le = 25
number op_test = 26
number op_testset = 27
number op_call = 28
number op_tailcall = 29
number op_return = 30
number op_forloop = 31
number op_forprep = 32
number op_tforloop = 33
number op_setlist = 34
number op_close = 35
number op_closure = 36
number op_vararg = 37

abbrev mode_number : OpMode → ℕ
mode_number iabc = 0
mode_number iabx = 1
mode_number iasbx = 2

abbrev mask_number : OpArgMask → ℕ
mask_number op_arg_n = 0
mask_number op_arg_u = 1
mask_number op_arg_r = 2
mask_number op_arg_k = 3

opmode : ℕ → ℕ → OpArgMask → OpArgMask → OpMode → ℕ
opmode t a b c m =
    bit_or
      (bit_or (bit_or (bit_or (t * 2 ^ 7) (a * 2 ^ 6)) (mask_number b * 2 ^ 4))
        (mask_number c * 2 ^ 2))
      (mode_number m)

opmodes : List ℕ
opmodes =
    opmode 0 1 op_arg_r op_arg_n iabc
    ∷ opmode 0 1 op_arg_k op_arg_n iabx
    ∷ opmode 0 1 op_arg_u op_arg_u iabc
    ∷ opmode 0 1 op_arg_r op_arg_n iabc
    ∷ opmode 0 1 op_arg_u op_arg_n iabc
    ∷ opmode 0 1 op_arg_k op_arg_n iabx
    ∷ opmode 0 1 op_arg_r op_arg_k iabc
    ∷ opmode 0 0 op_arg_k op_arg_n iabx
    ∷ opmode 0 0 op_arg_u op_arg_n iabc
    ∷ opmode 0 0 op_arg_k op_arg_k iabc
    ∷ opmode 0 1 op_arg_u op_arg_u iabc
    ∷ opmode 0 1 op_arg_r op_arg_k iabc
    ∷ opmode 0 1 op_arg_k op_arg_k iabc
    ∷ opmode 0 1 op_arg_k op_arg_k iabc
    ∷ opmode 0 1 op_arg_k op_arg_k iabc
    ∷ opmode 0 1 op_arg_k op_arg_k iabc
    ∷ opmode 0 1 op_arg_k op_arg_k iabc
    ∷ opmode 0 1 op_arg_k op_arg_k iabc
    ∷ opmode 0 1 op_arg_r op_arg_n iabc
    ∷ opmode 0 1 op_arg_r op_arg_n iabc
    ∷ opmode 0 1 op_arg_r op_arg_n iabc
    ∷ opmode 0 1 op_arg_r op_arg_r iabc
    ∷ opmode 0 0 op_arg_r op_arg_n iasbx
    ∷ opmode 1 0 op_arg_k op_arg_k iabc
    ∷ opmode 1 0 op_arg_k op_arg_k iabc
    ∷ opmode 1 0 op_arg_k op_arg_k iabc
    ∷ opmode 1 1 op_arg_r op_arg_u iabc
    ∷ opmode 1 1 op_arg_r op_arg_u iabc
    ∷ opmode 0 1 op_arg_u op_arg_u iabc
    ∷ opmode 0 1 op_arg_u op_arg_u iabc
    ∷ opmode 0 0 op_arg_u op_arg_n iabc
    ∷ opmode 0 1 op_arg_r op_arg_n iasbx
    ∷ opmode 0 1 op_arg_r op_arg_n iasbx
    ∷ opmode 1 0 op_arg_n op_arg_u iabc
    ∷ opmode 0 0 op_arg_u op_arg_u iabc
    ∷ opmode 0 0 op_arg_n op_arg_n iabc
    ∷ opmode 0 1 op_arg_u op_arg_n iabx
    ∷ opmode 0 1 op_arg_u op_arg_n iabc
    ∷ []

entry : OpCode → ℕ
entry m = get_or opmodes (number m) 0

-- `cast(enum OpMode, ...)`; no entry has the value 3.
cast_mode : ℕ → OpMode
cast_mode x = if x == 0 then iabc else if x == 1 then iabx else iasbx

cast_mask : ℕ → OpArgMask
cast_mask x =
    if x == 0 then op_arg_n else if x == 1 then op_arg_u else if x == 2 then op_arg_r else op_arg_k

unfoldable pub get_op_mode : OpCode → OpMode
unfolding entry opmodes opmode number cast_mode
get_op_mode m = cast_mode (bit_and (entry m) 3)

unfoldable pub get_b_mode : OpCode → OpArgMask
unfolding entry opmodes opmode number cast_mask
get_b_mode m = cast_mask (bit_and (entry m / 2 ^ 4) 3)

unfoldable pub get_c_mode : OpCode → OpArgMask
unfolding entry opmodes opmode number cast_mask
get_c_mode m = cast_mask (bit_and (entry m / 2 ^ 2) 3)

unfoldable pub test_a_mode : OpCode → Bool
unfolding entry opmodes opmode number
test_a_mode m = not (bit_and (entry m) (2 ^ 6) == 0)

unfoldable pub test_t_mode : OpCode → Bool
unfolding entry opmodes opmode number
test_t_mode m = not (bit_and (entry m) (2 ^ 7) == 0)

-- Each opcode stands in the enumeration at its number.
numbered : ℕ → List OpCode → Bool
numbered n [] = true
numbered n (op ∷ ops) = number op == n && numbered (n + 1) ops

numbered_sound :
    (k : ℕ) (ops : List OpCode) (n : ℕ) (op : OpCode)
    → numbered k ops ≡ true
    → get_elem? ops n ≡ some op
    → number op ≡ k + n
unfolding numbered
numbered_sound k [] n op h e = cc
numbered_sound k (x ∷ ops) zero op h e = ground arith
numbered_sound k (x ∷ ops) (suc n) op h e = ground (arith, numbered_sound (k + 1) ops n op)

-- The opcode of a number has that number.
pub number-opcode? : (n : ℕ) (op : OpCode) → opcode? n ≡ some op → number op ≡ n
unfolding opcode? numbered number
number-opcode? n op e = numbered_sound 0 order n op refl e ∙ omega arith
