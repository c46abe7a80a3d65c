-- ===== src/Chunk/Header.antt =====
-- src/lundump.c, `luaU_header`, and the representation of numbers in a chunk. The host is LP64 and
-- little-endian: an `int` has 4 bytes, a `size_t` 8, an `Instruction` 4 and a `lua_Number` 8, as
-- the header says.
use lua_reading.Prelude.{
  ℕ, zero, suc, ◌+◌, ◌*◌, ◌/◌, ◌%◌, Bool, true, false, ◌&&◌, ◌==◌, [], ◌∷◌, ◌≡◌, refl, arith,
}
use lua_reading.Proto.{Bytes}

abbrev pub sizeof_int : ℕ
sizeof_int = 4

abbrev pub sizeof_size_t : ℕ
sizeof_size_t = 8

abbrev pub sizeof_instruction : ℕ
sizeof_instruction = 4

abbrev pub sizeof_number : ℕ
sizeof_number = 8

abbrev pub luac_headersize : ℕ
luac_headersize = 12

-- The bytes of an object of `n` bytes in memory, and the value of such bytes.
unfoldable pub to_memory : ℕ → ℕ → Bytes
to_memory zero x = []
to_memory (suc n) x = x % 256 ∷ to_memory n (x / 256)

unfoldable pub of_memory : Bytes → ℕ
of_memory [] = 0
of_memory (b ∷ bs) = b + 256 * of_memory bs

-- `LUA_SIGNATURE` is "\033Lua"; LUAC_VERSION, LUAC_FORMAT, the first byte of the int 1, the sizes,
-- and 0 for a `lua_Number` that holds 0.5.
abbrev pub header : Bytes
header =
    0o33 ∷ b'L' ∷ b'u' ∷ b'a' ∷ 0x51 ∷ 0 ∷ 1 ∷ sizeof_int ∷ sizeof_size_t ∷ sizeof_instruction
    ∷ sizeof_number ∷ 0 ∷ []

-- `memcmp(h,s,n)==0` on blocks of one length, and the equality of interned strings.
unfoldable pub bytes_eq : Bytes → Bytes → Bool
bytes_eq [] [] = true
bytes_eq [] (y ∷ ys) = false
bytes_eq (x ∷ xs) [] = false
bytes_eq (x ∷ xs) (y ∷ ys) = x == y && bytes_eq xs ys

pub bytes_eq→eq : (xs ys : Bytes) → bytes_eq xs ys ≡ true → xs ≡ ys
unfolding bytes_eq
bytes_eq→eq [] [] h = refl
bytes_eq→eq [] (y ∷ ys) h = cc
bytes_eq→eq (x ∷ xs) [] h = cc
bytes_eq→eq (x ∷ xs) (y ∷ ys) h = ground (arith, bytes_eq→eq xs ys)
