-- ===== src/Lexer/Numerals.antt =====
-- src/llex.c and src/lobject.c: numerals. `strtod`, `strtoul` and the locale's decimal point are the C
-- library's.
use lua_reading.Prelude.{ℕ, Bool, ◌||◌, Option, none, some, [], ◌∷◌, ◌==◌, if◌then◌else◌, length}
use lua_reading.Proto.{Bytes}
use lua_reading.Pattern.Classes.{Ctype, peek}
use lua_reading.Lexer.{
  SemInfo, r, LexState, malformed_number, Scan, ok, thrown, number_token, save, save_and_next,
  check_next, save_while,
}

pub record Clib : Type 0 where
  pub ctype : Ctype
  -- the number that a string begins with, and what follows it
  pub strtod : Bytes → ℕ × Bytes
  -- `strtoul(s, &endptr, 16)`, cast to a number
  pub strtoul16 : Bytes → ℕ × Bytes
  -- `localeconv()->decimal_point[0]`, or no `lconv`
  pub decimal_point : Option ℕ

-- What a C function sees of a buffer: the bytes up to the first '\0'.
unfoldable pub c_string : Bytes → Bytes
c_string [] = []
c_string (c ∷ cs) = if c == 0 then [] else c ∷ c_string cs

unfoldable pub buffreplace : ℕ → ℕ → Bytes → Bytes
buffreplace from to [] = []
buffreplace from to (c ∷ cs) = (if c == from then to else c) ∷ buffreplace from to cs

-- `cv ? cv->decimal_point[0] : '.'`
unfoldable pub new_point : Option ℕ → ℕ
new_point none = b'.'
new_point (some p) = p

module _ (lib : Clib) where
  -- `while (isspace(*endptr)) endptr++`
  unfoldable pub skip_spaces : Bytes → Bytes
  skip_spaces [] = []
  skip_spaces (c ∷ cs) = if Ctype.isspace lib.ctype c then skip_spaces cs else c ∷ cs

  -- The rest of `luaO_str2d` after a conversion to `x` that ended at the given bytes.
  unfoldable pub converted : ℕ × Bytes → Option ℕ
  converted (x, end) = if length (skip_spaces end) == 0 then some x else none

  -- `luaO_str2d`; the string has no '\0'.
  unfoldable pub str2d : Bytes → Option ℕ
  str2d s =
      let (x, end) = lib.strtod s in
      if length end == length s
      then none
      else if peek end == b'x' || peek end == b'X'
      then converted (lib.strtoul16 s)
      else converted (x, end)

  unfoldable pub trydecpoint : LexState → Scan (SemInfo × LexState)
  trydecpoint ls =
      let point = new_point lib.decimal_point in
      let ls' = record ls { decpoint = point; buff = buffreplace ls.decpoint point ls.buff } in
      elim (str2d (c_string ls'.buff)) [
        | none ↦
            thrown malformed_number number_token
              (record ls' { buff = buffreplace point b'.' ls'.buff })
        | some x ↦ ok (r x, ls')
      ]

  abbrev pub in_name : ℕ → Bool
  in_name c = Ctype.isalnum lib.ctype c || c == b'_'

  abbrev pub in_number : ℕ → Bool
  in_number c = Ctype.isdigit lib.ctype c || c == b'.'

  -- `if (check_next(ls, "Ee")) check_next(ls, "+-")`
  unfoldable pub exponent : LexState → LexState
  exponent ls =
      let (found, ls') = check_next (b'E' ∷ b'e' ∷ []) ls in
      if found then (check_next (b'+' ∷ b'-' ∷ []) ls').1 else ls'

  -- The text of a numeral, saved.
  unfoldable pub numeral_text : LexState → LexState
  numeral_text ls =
      let ls1 = save_and_next ls in
      let ls2 = exponent (save_while in_number ls1.input ls1) in
      save 0 (save_while in_name ls2.input ls2)

  unfoldable pub read_numeral : LexState → Scan (SemInfo × LexState)
  read_numeral ls =
      let ls1 = numeral_text ls in
      let ls2 = record ls1 { buff = buffreplace b'.' ls1.decpoint ls1.buff } in
      elim (str2d (c_string ls2.buff)) [ none ↦ trydecpoint ls2 | some x ↦ ok (r x, ls2) ]
