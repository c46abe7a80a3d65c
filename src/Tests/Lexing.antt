-- ===== src/Tests/Lexing.antt =====
-- Tokens of small inputs, src/llex.c.
use lua_reading.Prelude.{
  ℕ, ◌+◌, ◌-◌, ◌*◌, ◌≡◌, refl, ◌&&◌, Option, none, some, [], ◌∷◌, ◌++◌, arith, leb, if◌then◌else◌,
}
use lua_reading.Proto.{Bytes}
use lua_reading.Chunk.Header.{bytes_eq}
use lua_reading.Strings.Format.{addquoted}
use lua_reading.Lexer.{
  SemInfo, unset, r, ts, LexState, Scan, ok, thrown, exhausted, loop, run, dots_token, number_token,
  string_token, eos_token, skip_pair, skip_newline, inclinenumber, strchr, check_next, save_while,
  skip_equals, skip_sep,
}
use lua_reading.Lexer.Loops.{Ends}
use lua_reading.Lexer.Numerals.{
  Clib, c_string, buffreplace, skip_spaces, converted, str2d, new_point, trydecpoint, exponent,
  numeral_text, read_numeral,
}
use lua_reading.Lexer.Literals.{
  nested, closing, long_switch, long_round, skip_first, long_loop, read_long_string, simple_escape,
  read_digits, escape_code, decimal_escape, escape_switch, escape, string_switch, string_round,
  read_string,
}
use lua_reading.Lexer.Tokens.{
  token_names, token2str, mark, reserved, Lexed, with_equals, skip_line, long_comment, comment,
  minus, bracket, word, dot, other, switch, round, llex, setinput,
}
use lua_reading.Lexer.Finish.{Read, llex-Ends}
use lua_reading.Lexer.Quoted.{llex-addquoted}
use lua_reading.Lexer.Blanks.{Blank, nothing, space, line, pair, remark, llex-Blank}
use lua_reading.Lexer.Words.{Standard, Reads, llex-token2str}
use lua_reading.Tests.Patterns.{c_locale}

-- A conversion that knows no fractions.
abbrev decimal : ℕ → Bytes → ℕ × Bytes
decimal x [] = (x, [])
decimal x (c ∷ s) =
    let rest = decimal (10 * x + (c - b'0')) s in
    if leb b'0' c && leb c b'9' then rest else (x, c ∷ s)

abbrev c_library : Clib
c_library = record {
  ctype = c_locale;
  strtod = decimal 0;
  strtoul16 = decimal 0;
  decimal_point = some b'.';
}

c_locale-Standard : Standard c_locale
c_locale-Standard = record {
  digits = λ c. refl;
  letters = λ c. ground arith;
  alphanumerics = λ c. ground arith;
  spaces = λ c. refl;
}

-- What llex gives, without the state.
abbrev token_of : Scan Lexed → Option (ℕ × SemInfo)
token_of (ok x) = some (x.token, x.seminfo)
token_of (thrown e near ls) = none
token_of exhausted = none

abbrev lex : Bytes → Option (ℕ × SemInfo)
lex input = token_of (llex c_library unset (setinput input))

unfoldable lexer : Unit {0}
unfolding loop run skip_pair skip_newline inclinenumber strchr check_next save_while skip_equals
    skip_sep c_string buffreplace skip_spaces converted str2d new_point trydecpoint exponent
    numeral_text read_numeral nested closing long_switch long_round skip_first long_loop
    read_long_string simple_escape read_digits escape_code decimal_escape escape_switch escape
    string_switch string_round read_string token_names mark reserved with_equals skip_line
    long_comment comment minus bracket word dot other switch round llex setinput bytes_eq
lexer = tt

-- ` --[[a]] 12`
number_after_comment :
    lex (b' ' ∷ b'-' ∷ b'-' ∷ b'[' ∷ b'[' ∷ b'a' ∷ b']' ∷ b']' ∷ b' ' ∷ b'1' ∷ b'2' ∷ [])
    ≡ some (number_token, r 12)
unfolding lexer
number_after_comment = refl

-- `[=[` newline `]]x]=]`
long_string :
    lex (b'[' ∷ b'=' ∷ b'[' ∷ b'\n' ∷ b']' ∷ b']' ∷ b'x' ∷ b']' ∷ b'=' ∷ b']' ∷ [])
    ≡ some (string_token, ts (b']' ∷ b']' ∷ b'x' ∷ []))
unfolding lexer
long_string = refl

-- `check_next` takes a '\0' for a point: three bytes that are not `...` are read as TK_DOTS.
zeros_as_dots : lex (b'.' ∷ 0 ∷ 0 ∷ []) ≡ some (dots_token, unset)
unfolding lexer
zeros_as_dots = refl

abbrev start : LexState
start = record {
  input = [];
  linenumber = 1;
  lastline = 1;
  t = record { token = 0; seminfo = unset };
  lookahead = record { token = eos_token; seminfo = unset };
  buff = [];
  decpoint = b'.';
}

abbrev two_lines : Bytes
two_lines = b'"' ∷ b'\n' ∷ 0 ∷ b'1' ∷ []

llex-Ends_example : Ends (Read 2) (llex c_library unset (record start { input = b'i' ∷ b'f' ∷ [] }))
llex-Ends_example = llex-Ends c_library unset (record start { input = b'i' ∷ b'f' ∷ [] })

llex-addquoted_example :
    llex c_library unset (record start { input = addquoted two_lines ++ b'+' ∷ [] })
    ≡ ok (record {
      token = string_token;
      seminfo = ts two_lines;
      state = record start {
        input = b'+' ∷ [];
        buff = b'"' ∷ two_lines ++ b'"' ∷ [];
        linenumber = 2;
      };
    })
llex-addquoted_example =
    llex-addquoted c_library unset two_lines (b'+' ∷ []) start (λ c. refl) (omega arith)

-- `..x`
llex-token2str_example :
    Reads c_library unset start 278 (token2str c_locale (λ n. []) 278) (b'x' ∷ [])
llex-token2str_example =
    llex-token2str c_library (λ n. []) 278 (b'x' ∷ []) unset start c_locale-Standard (omega arith)
      (omega arith) refl

-- ` --[=x`, a newline of two bytes, two newlines of one, and `1`
abbrev commented : Bytes
commented = b' ' ∷ b'-' ∷ b'-' ∷ b'[' ∷ b'=' ∷ b'x' ∷ b'\r' ∷ b'\n' ∷ b'\n' ∷ b'\n' ∷ b'1' ∷ []

commented-Blank : Blank commented 1 (b'1' ∷ []) 4
commented-Blank =
    let lines : Blank (b'\n' ∷ b'\n' ∷ b'1' ∷ []) 2 (b'1' ∷ []) 4 =
      line b'\n' _ _ 2 4 refl refl (line b'\n' _ _ 3 4 refl refl (nothing (b'1' ∷ []) 4)) in
    space b' ' _ _ 1 4 refl (
      remark (b'[' ∷ b'=' ∷ b'x' ∷ []) (b'\r' ∷ b'\n' ∷ b'\n' ∷ b'\n' ∷ b'1' ∷ []) _ 1 4
        (refl, (refl, (refl, tt))) refl refl (pair b'\r' b'\n' _ _ 1 4 refl refl refl lines))

llex-Blank_example :
    llex c_library unset (record start { input = commented; linenumber = 1 })
    ≡ llex c_library unset (record start { input = b'1' ∷ []; linenumber = 4 })
llex-Blank_example =
    llex-Blank c_library unset start commented (b'1' ∷ []) 1 4 c_locale-Standard commented-Blank
      (omega arith)
