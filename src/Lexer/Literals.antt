-- ===== src/Lexer/Literals.antt =====
-- src/llex.c: quoted and long strings, and long comments. `LUA_COMPAT_LSTR` is 1, as luaconf.h sets it.
use lua_reading.Prelude.{
  ℕ, zero, suc, ◌+◌, ◌-◌, ◌*◌, Bool, false, not, Option, none, some, [], ◌∷◌, ltb, ◌==◌,
  if◌then◌else◌, length, get_elem?, take, drop,
}
use lua_reading.Prelude.Int.{ℤ, pos, negsuc}
use lua_reading.Proto.{Bytes}
use lua_reading.Pattern.Classes.{Ctype}
use lua_reading.Lexer.{
  LexState, Reason, unfinished_string, unfinished_long_string, unfinished_long_comment,
  nesting_deprecated, escape_too_large, Scan, ok, thrown, exhausted, Round, again, stop, run,
  string_token, eos_token, at, is_newline, next, save, resetbuffer, save_and_next, inclinenumber,
  skip_sep,
}

-- `skip_sep(ls) == sep`
abbrev pub is_level : ℕ → ℤ → Bool
is_level sep (pos n) = n == sep
is_level sep (negsuc n) = false

-- A call whose error leaves the loop.
abbrev pub resume : {A : Type 0} → (LexState → LexState) → Scan LexState → Round A
resume f (ok ls) = again (f ls)
resume f (thrown e near ls) = stop (thrown e near ls)
resume f exhausted = stop exhausted

-- The end of `case '['`; `keep` tells that `seminfo` is not NULL.
unfoldable pub nested : ℕ → ℤ × LexState → Round LexState
nested sep (level, ls) =
    if is_level sep level
    then (if sep == 0
        then stop (thrown nesting_deprecated b'[' (save_and_next ls))
        else again (save_and_next ls))
    else again ls

-- The end of `case ']'`.
unfoldable pub closing : ℕ → ℤ × LexState → Round LexState
closing sep (level, ls) = if is_level sep level then stop (ok (save_and_next ls)) else again ls

-- The switch of `read_long_string`; `keep` tells that `seminfo` is not NULL.
unfoldable pub long_switch : Bool → ℕ → ℕ → LexState → Round LexState
long_switch keep sep c ls =
    if c == b'['
    then nested sep (skip_sep b'[' ls)
    else if c == b']'
    then closing sep (skip_sep b']' ls)
    else if is_newline c
    then resume (λ ls'. if keep then ls' else resetbuffer ls') (inclinenumber (save b'\n' ls))
    else if keep
    then again (save_and_next ls)
    else again (next ls)

abbrev pub unfinished_long : Bool → Reason
unfinished_long keep = if keep then unfinished_long_string else unfinished_long_comment

unfoldable pub long_round : Bool → ℕ → LexState → Round LexState
long_round keep sep ls = elim (get_elem? ls.input 0) [
  | none ↦ stop (thrown (unfinished_long keep) eos_token ls)
  | some c ↦ long_switch keep sep c ls
]

-- `if (currIsNewline(ls)) inclinenumber(ls)`
unfoldable pub skip_first : LexState → Scan LexState
skip_first ls = if at is_newline ls.input then inclinenumber ls else ok ls

unfoldable pub long_loop : Bool → ℕ → Scan LexState → Scan LexState
long_loop keep sep (ok ls) = run (long_round keep sep) ls
long_loop keep sep (thrown e near ls) = thrown e near ls
long_loop keep sep exhausted = exhausted

-- `read_long_string` up to `endloop`
unfoldable pub read_long_string : Bool → ℕ → LexState → Scan LexState
read_long_string keep sep ls = long_loop keep sep (skip_first (save_and_next ls))

-- The string in the buffer, less `n` bytes of delimiters on each side.
abbrev pub inside : ℕ → Bytes → Bytes
inside n buff = take (length buff - 2 * n) (drop n buff)

-- `case 'a': c = '\a'` and so on
unfoldable pub simple_escape : ℕ → Option ℕ
simple_escape c =
    if c == b'a'
    then some 7
    else if c == b'b'
    then some 8
    else if c == b'f'
    then some 12
    else if c == b'n'
    then some 10
    else if c == b'r'
    then some 13
    else if c == b't'
    then some 9
    else if c == b'v'
    then some 11
    else none

-- `\xxx`, after its digits
unfoldable pub escape_code : LexState → ℕ × Bytes → Round LexState
escape_code ls (c, input) =
    let ls' = record ls { input = input } in
    if ltb 255 c then stop (thrown escape_too_large string_token ls') else again (save c ls')

module _ (ctype : Ctype) where
  -- `c = 10*c + (ls->current-'0')` while there are digits, `left` of them at most
  unfoldable pub read_digits : ℕ → ℕ → Bytes → ℕ × Bytes
  read_digits zero c input = (c, input)
  read_digits (suc left) c [] = (c, [])
  read_digits (suc left) c (d ∷ input) =
      let rest = read_digits left (10 * c + (d - b'0')) input in
      if Ctype.isdigit ctype d then rest else (c, d ∷ input)

  -- `case '\\'` from a digit on
  unfoldable pub decimal_escape : LexState → Round LexState
  decimal_escape ls = escape_code ls (read_digits 3 0 ls.input)

  -- The inner switch of `read_string` at the character `c`, with `d` the escape that it stands for.
  unfoldable pub escape_switch : ℕ → Option ℕ → LexState → Round LexState
  escape_switch c (some d) ls = again (next (save d ls))
  escape_switch c none ls =
      if is_newline c
      then resume (λ ls'. ls') (inclinenumber (save b'\n' ls))
      else if not (Ctype.isdigit ctype c)
      then again (save_and_next ls)
      else decimal_escape ls

  -- `case '\\'` after the backslash
  unfoldable pub escape : LexState → Round LexState
  escape ls = elim (get_elem? ls.input 0) [
    | none ↦ again ls
    | some c ↦ escape_switch c (simple_escape c) ls
  ]

  -- The switch of `read_string`.
  unfoldable pub string_switch : ℕ → ℕ → LexState → Round LexState
  string_switch del c ls =
      if c == del
      then stop (ok ls)
      else if is_newline c
      then stop (thrown unfinished_string string_token ls)
      else if c == b'\\'
      then escape (next ls)
      else again (save_and_next ls)

  unfoldable pub string_round : ℕ → LexState → Round LexState
  string_round del ls = elim (get_elem? ls.input 0) [
    | none ↦ stop (thrown unfinished_string eos_token ls)
    | some c ↦ string_switch del c ls
  ]

  -- `read_string` up to the delimiter
  unfoldable pub read_string : ℕ → LexState → Scan LexState
  read_string del ls = run (string_round del) (save_and_next ls)
