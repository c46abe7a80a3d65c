-- ===== src/Opcodes.antt =====
-- src/lopcodes.h and lopcodes.c: instructions as 32-bit words, their fields, and the opcodes.
-- An `Instruction` is a number below 2 ^ 32; `~x` on it is 2 ^ 32 - 1 - x, and what a left shift
-- moves out at the top is lost.
pub mod Fields
pub mod Modes
use lua_reading.Prelude.{ℕ, ◌+◌, ◌-◌, ◌*◌, ◌/◌, ◌%◌, ◌^◌, Bool, ◌==◌, not, suc}
use lua_reading.Prelude.Int.{ℤ, pos, negsuc, sub_ℕ, ◌+ℤ◌}
use Prim.Native.Nat.{bit_and, bit_or}

abbrev pub word : ℕ
word = 2 ^ 32

abbrev pub size_c : ℕ
size_c = 9

abbrev pub size_b : ℕ
size_b = 9

abbrev pub size_bx : ℕ
size_bx = size_c + size_b

abbrev pub size_a : ℕ
size_a = 8

abbrev pub size_op : ℕ
size_op = 6

abbrev pub pos_op : ℕ
pos_op = 0

abbrev pub pos_a : ℕ
pos_a = pos_op + size_op

abbrev pub pos_c : ℕ
pos_c = pos_a + size_a

abbrev pub pos_b : ℕ
pos_b = pos_c + size_c

abbrev pub pos_bx : ℕ
pos_bx = pos_c

-- `SIZE_Bx < LUAI_BITSINT-1` holds, as an `int` has 32 bits.
abbrev pub maxarg_bx : ℕ
maxarg_bx = 2 ^ size_bx - 1

abbrev pub maxarg_sbx : ℕ
maxarg_sbx = maxarg_bx / 2

abbrev pub maxarg_a : ℕ
maxarg_a = 2 ^ size_a - 1

abbrev complement : ℕ → ℕ
complement x = word - 1 - x

abbrev shift_left : ℕ → ℕ → ℕ
shift_left x n = x * 2 ^ n % word

-- `MASK1(n,p)`: n ones at position p.
abbrev mask1 : ℕ → ℕ → ℕ
mask1 n p = shift_left (complement (shift_left (complement 0) n)) p

abbrev mask0 : ℕ → ℕ → ℕ
mask0 n p = complement (mask1 n p)

-- The common text of the `GET` macros, and of the `SET` macros.
get_field : ℕ → ℕ → ℕ → ℕ
get_field size position i = bit_and (i / 2 ^ position) (mask1 size 0)

set_field : ℕ → ℕ → ℕ → ℕ → ℕ
set_field size position i u =
    bit_or (bit_and i (mask0 size position)) (bit_and (shift_left u position) (mask1 size position))

unfoldable pub get_opcode : ℕ → ℕ
unfolding get_field
get_opcode i = get_field size_op pos_op i

unfoldable pub getarg_a : ℕ → ℕ
unfolding get_field
getarg_a i = get_field size_a pos_a i

unfoldable pub getarg_b : ℕ → ℕ
unfolding get_field
getarg_b i = get_field size_b pos_b i

unfoldable pub getarg_c : ℕ → ℕ
unfolding get_field
getarg_c i = get_field size_c pos_c i

unfoldable pub getarg_bx : ℕ → ℕ
unfolding get_field
getarg_bx i = get_field size_bx pos_bx i

pub set_opcode : ℕ → ℕ → ℕ
set_opcode i o = set_field size_op pos_op i o

pub setarg_a : ℕ → ℕ → ℕ
setarg_a i u = set_field size_a pos_a i u

pub setarg_b : ℕ → ℕ → ℕ
setarg_b i b = set_field size_b pos_b i b

pub setarg_c : ℕ → ℕ → ℕ
setarg_c i b = set_field size_c pos_c i b

pub setarg_bx : ℕ → ℕ → ℕ
setarg_bx i b = set_field size_bx pos_bx i b

-- The signed argument counts from -MAXARG_sBx.
unfoldable pub getarg_sbx : ℕ → ℤ
getarg_sbx i = sub_ℕ (getarg_bx i) maxarg_sbx

-- `cast(unsigned int, x)`
abbrev cast_unsigned : ℤ → ℕ
cast_unsigned (pos n) = n % word
cast_unsigned (negsuc n) = (word - suc n % word) % word

pub setarg_sbx : ℕ → ℤ → ℕ
setarg_sbx i b = setarg_bx i (cast_unsigned (b +ℤ pos maxarg_sbx))

unfoldable pub create_abc : ℕ → ℕ → ℕ → ℕ → ℕ
create_abc o a b c =
    bit_or (bit_or (bit_or (shift_left o pos_op) (shift_left a pos_a)) (shift_left b pos_b))
      (shift_left c pos_c)

unfoldable pub create_abx : ℕ → ℕ → ℕ → ℕ
create_abx o a bc =
    bit_or (bit_or (shift_left o pos_op) (shift_left a pos_a)) (shift_left bc pos_bx)

-- RK indices: the top bit of a B or C argument marks a constant.
abbrev bitrk : ℕ
bitrk = 2 ^ (size_b - 1)

unfoldable pub isk : ℕ → Bool
isk x = not (bit_and x bitrk == 0)

-- `(int)(r) & ~BITRK`, with r the value of a field
unfoldable pub indexk : ℕ → ℕ
indexk r = bit_and r (complement bitrk)

abbrev pub maxindexrk : ℕ
maxindexrk = bitrk - 1

unfoldable pub rkask : ℕ → ℕ
rkask x = bit_or x bitrk
