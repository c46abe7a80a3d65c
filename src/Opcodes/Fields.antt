-- ===== src/Opcodes/Fields.antt =====
-- The field macros as arithmetic, and what the code generator relies on: a field that was set is
-- read back, the others stay, and an instruction is its fields.
use lua_reading.Prelude.{ℕ, suc, ◌+◌, ◌-◌, ◌*◌, ◌/◌, ◌%◌, ◌^◌, ◌<◌, ◌≡◌, refl, arith, ◌∙◌}
use lua_reading.Prelude.Bits.{
  bit_and-shifted, bit_and-shifted_ones, bit_and-ones, bit_or-low, bit_or-low_left, bit_or-high,
}
use lua_reading.Opcodes.{
  word, mask0, mask1, shift_left, set_field, get_opcode, getarg_a, getarg_b, getarg_c, getarg_bx,
  set_opcode, setarg_a, setarg_b, setarg_c, setarg_bx, create_abc, create_abx, size_op, size_a,
  size_b, size_c, getarg_sbx, setarg_sbx, maxarg_sbx,
}
use lua_reading.Prelude.Int.{ℤ, pos, negsuc, ◌≤ℤ◌}
use Prim.Native.Nat.{bit_or}
use native.Mathlib.Nat.{mod-eq_of_lt, mod-lt}

-- Any field: `size` bits at `position`, with `top` bits above it.
module _ (size position top : ℕ) (positive : 0 < 2 ^ position) (positive_size : 0 < 2 ^ size) where
  set_field_parts :
      (i u : ℕ)
      → mask0 size position ≡ (2 ^ top - 1) * 2 ^ size * 2 ^ position + (2 ^ position - 1)
      → mask1 size position ≡ (2 ^ size - 1) * 2 ^ position
      → i / 2 ^ position / 2 ^ size < 2 ^ top
      → set_field size position i u
        ≡ (i / 2 ^ position / 2 ^ size * 2 ^ size + shift_left u position / 2 ^ position % 2 ^ size)
            * 2 ^ position
          + i % 2 ^ position
  unfolding set_field
  set_field_parts i u zeros ones h =
      rw (zeros, ones)
        (simp (bit_and-shifted_ones, bit_and-shifted, bit_and-ones)
          (bit_or-high position _ _ (i % 2 ^ position) (mod-lt i positive)
            ∙ rw (bit_or-low size _ _ (mod-lt _ positive_size), mod-eq_of_lt h)))

module _ (i u : ℕ) (h : i < word) where
  pub set_opcode_lem : set_opcode i u ≡ i / 2 ^ 6 * 2 ^ 6 + u % 2 ^ 6
  unfolding set_opcode
  set_opcode_lem =
      set_field_parts 6 0 26 (omega arith) (omega arith) i u refl refl (omega arith) ∙ omega arith

  pub setarg_a_lem : setarg_a i u ≡ i / 2 ^ 14 * 2 ^ 14 + u % 2 ^ 8 * 2 ^ 6 + i % 2 ^ 6
  unfolding setarg_a
  setarg_a_lem =
      set_field_parts 8 6 18 (omega arith) (omega arith) i u refl refl (omega arith) ∙ omega arith

  pub setarg_c_lem : setarg_c i u ≡ i / 2 ^ 23 * 2 ^ 23 + u % 2 ^ 9 * 2 ^ 14 + i % 2 ^ 14
  unfolding setarg_c
  setarg_c_lem =
      set_field_parts 9 14 9 (omega arith) (omega arith) i u refl refl (omega arith) ∙ omega arith

  pub setarg_b_lem : setarg_b i u ≡ u % 2 ^ 9 * 2 ^ 23 + i % 2 ^ 23
  unfolding setarg_b
  setarg_b_lem =
      set_field_parts 9 23 0 (omega arith) (omega arith) i u refl refl (omega arith) ∙ omega arith

  pub setarg_bx_lem : setarg_bx i u ≡ u % 2 ^ 18 * 2 ^ 14 + i % 2 ^ 14
  unfolding setarg_bx
  setarg_bx_lem =
      set_field_parts 18 14 0 (omega arith) (omega arith) i u refl refl (omega arith) ∙ omega arith

module _ (i : ℕ) where
  pub get_opcode_lem : get_opcode i ≡ i % 2 ^ 6
  unfolding get_opcode
  get_opcode_lem = omega (arith, bit_and-ones 6 (i / 2 ^ 0))

  pub getarg_a_lem : getarg_a i ≡ i / 2 ^ 6 % 2 ^ 8
  unfolding getarg_a
  getarg_a_lem = bit_and-ones 8 (i / 2 ^ 6)

  pub getarg_c_lem : getarg_c i ≡ i / 2 ^ 14 % 2 ^ 9
  unfolding getarg_c
  getarg_c_lem = bit_and-ones 9 (i / 2 ^ 14)

  pub getarg_b_lem : getarg_b i ≡ i / 2 ^ 23 % 2 ^ 9
  unfolding getarg_b
  getarg_b_lem = bit_and-ones 9 (i / 2 ^ 23)

  pub getarg_bx_lem : getarg_bx i ≡ i / 2 ^ 14 % 2 ^ 18
  unfolding getarg_bx
  getarg_bx_lem = bit_and-ones 18 (i / 2 ^ 14)

pub ruleset field_laws =
    (arith, get_opcode_lem, getarg_a_lem, getarg_b_lem, getarg_c_lem, getarg_bx_lem)

-- An argument that fits its field loses nothing when it is shifted to it.
shift_left-eq : (x n : ℕ) → x * 2 ^ n < word → shift_left x n ≡ x * 2 ^ n
shift_left-eq x n h = mod-eq_of_lt h

merge_a :
    (o a : ℕ) → o < 2 ^ 6 → a < 2 ^ 8 → bit_or (shift_left o 0) (shift_left a 6) ≡ a * 2 ^ 6 + o
merge_a o a ho ha =
    rw (shift_left-eq o 0 (omega arith), shift_left-eq a 6 (omega arith))
      (bit_or-low_left 6 a (o * 2 ^ 0) (omega arith) ∙ omega arith)

pub create_abc_lem :
    (o a b c : ℕ)
    → o < 2 ^ 6
    → a < 2 ^ 8
    → b < 2 ^ 9
    → c < 2 ^ 9
    → create_abc o a b c ≡ ((b * 2 ^ 9 + c) * 2 ^ 8 + a) * 2 ^ 6 + o
unfolding create_abc
create_abc_lem o a b c ho ha hb hc =
    let low : a * 2 ^ 6 + o < 2 ^ 14 = omega arith in
    rw (merge_a o a ho ha, shift_left-eq b 23 (omega arith), shift_left-eq c 14 (omega arith))
      (rw (bit_or-low_left 23 b (a * 2 ^ 6 + o) (omega arith), high)
        (bit_or-high 14 (b * 2 ^ 9) c _ low ∙ rw (bit_or-low 9 b c hc) (omega arith)))
  where
    high : b * 2 ^ 23 + (a * 2 ^ 6 + o) ≡ b * 2 ^ 9 * 2 ^ 14 + (a * 2 ^ 6 + o)
    high = omega arith

pub create_abx_lem :
    (o a bx : ℕ)
    → o < 2 ^ 6
    → a < 2 ^ 8
    → bx < 2 ^ 18
    → create_abx o a bx ≡ (bx * 2 ^ 8 + a) * 2 ^ 6 + o
unfolding create_abx
create_abx_lem o a bx ho ha hb =
    rw (merge_a o a ho ha, shift_left-eq bx 14 (omega arith))
      (bit_or-low_left 14 bx (a * 2 ^ 6 + o) (omega arith) ∙ omega arith)

-- The four fields of an instruction in format iABC.
pub record HasFields (i o a b c : ℕ) : Type 0 where
  pub in_word : i < word
  pub opcode : get_opcode i ≡ o
  pub arg_a : getarg_a i ≡ a
  pub arg_b : getarg_b i ≡ b
  pub arg_c : getarg_c i ≡ c

-- `CREATE_ABC` of arguments that fit their fields has just these fields.
pub create_abc-HasFields :
    (o a b c : ℕ)
    → o < 2 ^ size_op
    → a < 2 ^ size_a
    → b < 2 ^ size_b
    → c < 2 ^ size_c
    → HasFields (create_abc o a b c) o a b c
create_abc-HasFields o a b c ho ha hb hc = omega (field_laws, create_abc_lem o a b c)

-- An instruction is made of its fields: `CREATE_ABC` of what the `GET` macros read in a word is the
-- word.
pub create_abc-get :
    (i : ℕ) → i < word → create_abc (get_opcode i) (getarg_a i) (getarg_b i) (getarg_c i) ≡ i
create_abc-get i h =
    create_abc_lem (get_opcode i) (getarg_a i) (getarg_b i) (getarg_c i) (omega field_laws)
      (omega field_laws) (omega field_laws) (omega field_laws)
    ∙ omega field_laws

-- Each `SET` macro writes its own field, for a value that fits, and keeps the other three.
pub set-HasFields :
    (i o a b c o' a' b' c' : ℕ)
    → HasFields i o a b c
    → o' < 2 ^ size_op
    → a' < 2 ^ size_a
    → b' < 2 ^ size_b
    → c' < 2 ^ size_c
    → HasFields (set_opcode i o') o' a b c
      × HasFields (setarg_a i a') o a' b c
      × HasFields (setarg_b i b') o a b' c
      × HasFields (setarg_c i c') o a b c'
set-HasFields i o a b c o' a' b' c' h ho ha hb hc = (
  omega (field_laws, set_opcode_lem i o' h.in_word),
  omega (field_laws, setarg_a_lem i a' h.in_word),
  omega (field_laws, setarg_b_lem i b' h.in_word),
  omega (field_laws, setarg_c_lem i c' h.in_word),
)

setarg_bx_fields :
    (i u : ℕ)
    → i < word
    → (getarg_bx (setarg_bx i u) ≡ u % 2 ^ 18)
      × (get_opcode (setarg_bx i u) ≡ get_opcode i)
      × (getarg_a (setarg_bx i u) ≡ getarg_a i)
setarg_bx_fields i u h = omega (field_laws, setarg_bx_lem i u h)

-- A jump offset from -MAXARG_sBx to MAXARG_sBx is read back from `SETARG_sBx`, which keeps the
-- opcode and A.
pub get-setarg_sbx :
    (i : ℕ) (b : ℤ)
    → i < word
    → negsuc (maxarg_sbx - 1) ≤ℤ b
    → b ≤ℤ pos maxarg_sbx
    → (getarg_sbx (setarg_sbx i b) ≡ b)
      × (get_opcode (setarg_sbx i b) ≡ get_opcode i)
      × (getarg_a (setarg_sbx i b) ≡ getarg_a i)
unfolding getarg_sbx setarg_sbx
get-setarg_sbx i (pos n) h lo hi = ground (arith, setarg_bx_fields i (n + maxarg_sbx) h)
get-setarg_sbx i (negsuc n) h lo hi = ground (arith, setarg_bx_fields i (maxarg_sbx - suc n) h)

setarg_bx-word : (i u : ℕ) → i < word → setarg_bx i u < word
setarg_bx-word i u h = rw (setarg_bx_lem i u h) (omega arith)

pub setarg_sbx-word : (i : ℕ) (b : ℤ) → i < word → setarg_sbx i b < word
unfolding setarg_sbx
setarg_sbx-word i b h = setarg_bx-word i _ h
