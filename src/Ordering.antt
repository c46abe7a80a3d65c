-- ===== src/Ordering.antt =====
-- src/lvm.c: the order of strings. `strcoll` is the C library's.
pub mod Lexical
use lua_reading.Prelude.{
  ℕ, zero, suc, ◌+◌, ◌-◌, ◌*◌, ◌/◌, ◌%◌, ◌^◌, ◌≤◌, ◌<◌, min, ◌≡◌, refl, sym, ap, ap₂, ◌∙◌, ◌≢◌, ◌↔◌,
  ◌⊎◌, inl, inr, Bool, true, false, not, ◌&&◌, ◌||◌, Option, none, some, List, [], ◌∷◌, ◌++◌, map,
  arith, ltb, leb, ◌==◌, if◌then◌else◌, ltb→lt, lt→ltb, ==_iff, Bool-cases, Option-cases, length,
  get_elem?, get_or, take, drop, All, length-append, length-drop, take-append, drop-append,
  get_elem?-lt,
}
use lua_reading.Proto.{Bytes}
use lua_reading.Lexer.Numerals.{c_string}

-- The sign of a comparison.
pub data Sign : Type 0 where
  less equal greater : Sign

-- `< 0`
abbrev pub is_less : Option Sign → Bool
is_less (some less) = true
is_less _ = false

-- The C library's comparison of two strings without '\0'.
module _ (strcoll : Bytes → Bytes → Sign) where
  -- The rest of a round of `l_strcmp`, where the strings `l` and `r` are equal for `len` bytes.
  unfoldable pub after_equal : (Bytes → Bytes → Option Sign) → ℕ → Bytes → Bytes → Option Sign
  after_equal again len l r =
      if len == length r
      then some (if len == length l then equal else greater)
      else if len == length l
      then some less
      else again (drop (suc len) l) (drop (suc len) r)

  abbrev pub decide : Sign → Option Sign → Option Sign
  decide less rest = some less
  decide greater rest = some greater
  decide equal rest = rest

  -- `l_strcmp`; each round passes a byte at least. `none` is out of fuel.
  unfoldable pub strcmp_loop : ℕ → Bytes → Bytes → Option Sign
  strcmp_loop zero l r = none
  strcmp_loop (suc fuel) l r =
      decide (strcoll (c_string l) (c_string r))
        (after_equal (strcmp_loop fuel) (length (c_string l)) l r)

  unfoldable pub l_strcmp : Bytes → Bytes → Option Sign
  l_strcmp l r = strcmp_loop (suc (length l)) l r

  -- The case of strings in `luaV_lessthan`, and in `lessequal`.
  unfoldable pub less_than : Bytes → Bytes → Bool
  less_than l r = is_less (l_strcmp l r)
