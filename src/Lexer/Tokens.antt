-- ===== src/Lexer/Tokens.antt =====
-- src/llex.c: the tokens of a chunk. An anchor in the constants of the function, which keeps a string
-- from the collector, is not modelled.
use lua_reading.Prelude.{
  ℕ, zero, suc, ◌+◌, ◌-◌, true, false, not, ◌||◌, none, some, List, [], ◌∷◌, ◌++◌, ltb, ◌==◌,
  if◌then◌else◌, get_elem?, get_or, take,
}
use lua_reading.Prelude.Int.{ℤ, pos, negsuc}
use lua_reading.Proto.{Bytes}
use lua_reading.Chunk.Header.{bytes_eq}
use lua_reading.Pattern.Classes.{Ctype}
use lua_reading.Lexer.{
  SemInfo, unset, ts, LexState, invalid_delimiter, Scan, ok, thrown, exhausted, Round, again, stop,
  run, first_reserved, num_reserved, concat_token, dots_token, eq_token, ge_token, le_token,
  ne_token, number_token, name_token, string_token, eos_token, at, is_newline, next, resetbuffer,
  save_and_next, inclinenumber, check_next, save_while, skip_sep,
}
use lua_reading.Lexer.Numerals.{Clib, in_name, read_numeral}
use lua_reading.Lexer.Literals.{resume, inside, read_long_string, read_string}

-- `luaX_tokens`
unfoldable pub token_names : List Bytes
token_names =
    (b'a' ∷ b'n' ∷ b'd' ∷ [])
    ∷ (b'b' ∷ b'r' ∷ b'e' ∷ b'a' ∷ b'k' ∷ [])
    ∷ (b'd' ∷ b'o' ∷ [])
    ∷ (b'e' ∷ b'l' ∷ b's' ∷ b'e' ∷ [])
    ∷ (b'e' ∷ b'l' ∷ b's' ∷ b'e' ∷ b'i' ∷ b'f' ∷ [])
    ∷ (b'e' ∷ b'n' ∷ b'd' ∷ [])
    ∷ (b'f' ∷ b'a' ∷ b'l' ∷ b's' ∷ b'e' ∷ [])
    ∷ (b'f' ∷ b'o' ∷ b'r' ∷ [])
    ∷ (b'f' ∷ b'u' ∷ b'n' ∷ b'c' ∷ b't' ∷ b'i' ∷ b'o' ∷ b'n' ∷ [])
    ∷ (b'i' ∷ b'f' ∷ [])
    ∷ (b'i' ∷ b'n' ∷ [])
    ∷ (b'l' ∷ b'o' ∷ b'c' ∷ b'a' ∷ b'l' ∷ [])
    ∷ (b'n' ∷ b'i' ∷ b'l' ∷ [])
    ∷ (b'n' ∷ b'o' ∷ b't' ∷ [])
    ∷ (b'o' ∷ b'r' ∷ [])
    ∷ (b'r' ∷ b'e' ∷ b'p' ∷ b'e' ∷ b'a' ∷ b't' ∷ [])
    ∷ (b'r' ∷ b'e' ∷ b't' ∷ b'u' ∷ b'r' ∷ b'n' ∷ [])
    ∷ (b't' ∷ b'h' ∷ b'e' ∷ b'n' ∷ [])
    ∷ (b't' ∷ b'r' ∷ b'u' ∷ b'e' ∷ [])
    ∷ (b'u' ∷ b'n' ∷ b't' ∷ b'i' ∷ b'l' ∷ [])
    ∷ (b'w' ∷ b'h' ∷ b'i' ∷ b'l' ∷ b'e' ∷ [])
    ∷ (b'.' ∷ b'.' ∷ [])
    ∷ (b'.' ∷ b'.' ∷ b'.' ∷ [])
    ∷ (b'=' ∷ b'=' ∷ [])
    ∷ (b'>' ∷ b'=' ∷ [])
    ∷ (b'<' ∷ b'=' ∷ [])
    ∷ (b'~' ∷ b'=' ∷ [])
    ∷ (b'<' ∷ b'n' ∷ b'u' ∷ b'm' ∷ b'b' ∷ b'e' ∷ b'r' ∷ b'>' ∷ [])
    ∷ (b'<' ∷ b'n' ∷ b'a' ∷ b'm' ∷ b'e' ∷ b'>' ∷ [])
    ∷ (b'<' ∷ b's' ∷ b't' ∷ b'r' ∷ b'i' ∷ b'n' ∷ b'g' ∷ b'>' ∷ [])
    ∷ (b'<' ∷ b'e' ∷ b'o' ∷ b'f' ∷ b'>' ∷ [])
    ∷ []

-- `luaX_token2str`; `number_text` prints an integer.
unfoldable pub token2str : Ctype → (ℕ → Bytes) → ℕ → Bytes
token2str ctype number_text token =
    if ltb token first_reserved
    then (if Ctype.iscntrl ctype token
        then b'c' ∷ b'h' ∷ b'a' ∷ b'r' ∷ b'(' ∷ number_text token ++ b')' ∷ []
        else token ∷ [])
    else get_or token_names (token - first_reserved) []

-- The loop of `luaX_init`, from the mark `i + 1` on: the `reserved` of the string with these bytes.
unfoldable pub mark : ℕ → List Bytes → Bytes → ℕ
mark i [] s = 0
mark i (w ∷ ws) s = if bytes_eq w s then i else mark (suc i) ws s

unfoldable pub reserved : Bytes → ℕ
reserved = mark 1 (take num_reserved token_names)

-- What `llex` gives: the token, its value or what `*seminfo` held before, and the state.
pub record Lexed : Type 0 where
  pub token : ℕ
  pub seminfo : SemInfo
  pub state : LexState

-- `return` of a token
abbrev pub accept : ℕ → SemInfo → LexState → Round Lexed
accept token si ls = stop (ok (record { token = token; seminfo = si; state = ls }))

-- `return TK_NUMBER` after `read_numeral`
abbrev pub accept_number : Scan (SemInfo × LexState) → Round Lexed
accept_number (ok (si, ls)) = accept number_token si ls
accept_number (thrown e near ls) = stop (thrown e near ls)
accept_number exhausted = stop exhausted

-- The new string with `n` bytes of delimiters on each side, and `return TK_STRING`
abbrev pub accept_string : ℕ → Scan LexState → Round Lexed
accept_string n (ok ls) = accept string_token (ts (inside n ls.buff)) ls
accept_string n (thrown e near ls) = stop (thrown e near ls)
accept_string n exhausted = stop exhausted

-- `accept_string` where the closing delimiter is still ahead
abbrev pub after_delimiter : Scan LexState → Scan LexState
after_delimiter (ok ls) = ok (save_and_next ls)
after_delimiter (thrown e near ls) = thrown e near ls
after_delimiter exhausted = exhausted

-- `if (ls->current != '=') return c; else { next(ls); return both; }`
unfoldable pub with_equals : ℕ → ℕ → SemInfo → LexState → Round Lexed
with_equals c both si ls =
    if at (λ d. d == b'=') ls.input then accept both si (next ls) else accept c si ls

-- `while (!currIsNewline(ls) && ls->current != EOZ) next(ls)`
unfoldable pub skip_line : Bytes → Bytes
skip_line [] = []
skip_line (c ∷ cs) = if is_newline c then c ∷ cs else skip_line cs

abbrev pub short_comment : LexState → Round Lexed
short_comment ls = again (record ls { input = skip_line ls.input })

-- A comment that begins with `[`
unfoldable pub long_comment : ℤ × LexState → Round Lexed
long_comment (pos sep, ls) = resume resetbuffer (read_long_string false sep (resetbuffer ls))
long_comment (negsuc n, ls) = short_comment (resetbuffer ls)

-- A comment, after the `--`
unfoldable pub comment : LexState → Round Lexed
comment ls =
    if at (λ c. c == b'[') ls.input then long_comment (skip_sep b'[' ls) else short_comment ls

-- `case '-'`
unfoldable pub minus : SemInfo → LexState → Round Lexed
minus si ls = if at (λ c. c == b'-') ls.input then comment (next ls) else accept b'-' si ls

-- `case '['`
unfoldable pub bracket : SemInfo → ℤ × LexState → Round Lexed
bracket si (pos sep, ls) = accept_string (2 + sep) (read_long_string true sep ls)
bracket si (negsuc zero, ls) = accept b'[' si ls
bracket si (negsuc (suc n), ls) = stop (thrown invalid_delimiter string_token ls)

-- The identifier or reserved word in the buffer.
unfoldable pub word : SemInfo → LexState → Round Lexed
word si ls =
    let mark = reserved ls.buff in
    if ltb 0 mark
    then accept (mark - 1 + first_reserved) si ls
    else accept name_token (ts ls.buff) ls

module _ (lib : Clib) where
  -- `case '.'`, after the first
  unfoldable pub dot : SemInfo → LexState → Round Lexed
  dot si ls =
      let (two, ls2) = check_next (b'.' ∷ []) ls in
      let (three, ls3) = check_next (b'.' ∷ []) ls2 in
      if two
      then (if three then accept dots_token si ls3 else accept concat_token si ls3)
      else if at (Ctype.isdigit lib.ctype) ls2.input
      then accept_number (read_numeral lib ls2)
      else accept b'.' si ls2

  -- `default` of the switch of `llex`
  unfoldable pub other : ℕ → SemInfo → LexState → Round Lexed
  other c si ls =
      if Ctype.isspace lib.ctype c
      then again (next ls)
      else if Ctype.isdigit lib.ctype c
      then accept_number (read_numeral lib ls)
      else if Ctype.isalpha lib.ctype c || c == b'_'
      then (let ls' = save_and_next ls in word si (save_while (in_name lib) ls'.input ls'))
      else accept c si (next ls)

  -- The switch of `llex` at a character.
  unfoldable pub switch : ℕ → SemInfo → LexState → Round Lexed
  switch c si ls =
      if is_newline c
      then resume (λ ls'. ls') (inclinenumber ls)
      else if c == b'-'
      then minus si (next ls)
      else if c == b'['
      then bracket si (skip_sep b'[' ls)
      else if c == b'='
      then with_equals b'=' eq_token si (next ls)
      else if c == b'<'
      then with_equals b'<' le_token si (next ls)
      else if c == b'>'
      then with_equals b'>' ge_token si (next ls)
      else if c == b'~'
      then with_equals b'~' ne_token si (next ls)
      else if c == b'"' || c == b'\''
      then accept_string 1 (after_delimiter (read_string lib.ctype c ls))
      else if c == b'.'
      then dot si (save_and_next ls)
      else other c si ls

  unfoldable pub round : SemInfo → LexState → Round Lexed
  round si ls = elim (get_elem? ls.input 0) [
    | none ↦ accept eos_token si ls
    | some c ↦ switch c si ls
  ]

  unfoldable pub llex : SemInfo → LexState → Scan Lexed
  llex si ls = run (round si) (resetbuffer ls)

  -- `luaX_next`, where the call of `llex` is made
  unfoldable pub shift : Scan Lexed → Scan LexState
  shift (ok x) = ok (record x.state { t = record { token = x.token; seminfo = x.seminfo } })
  shift (thrown e near ls) = thrown e near ls
  shift exhausted = exhausted

  unfoldable pub next_token : LexState → Scan LexState
  next_token ls =
      let ls' = record ls { lastline = ls.linenumber } in
      if not (ls.lookahead.token == eos_token)
      then ok
          (record ls' { t = ls.lookahead; lookahead = record ls.lookahead { token = eos_token } })
      else shift (llex ls.t.seminfo ls')

  unfoldable pub keep_ahead : Scan Lexed → Scan LexState
  keep_ahead (ok x) =
      ok (record x.state { lookahead = record { token = x.token; seminfo = x.seminfo } })
  keep_ahead (thrown e near ls) = thrown e near ls
  keep_ahead exhausted = exhausted

  unfoldable pub look_ahead : LexState → Scan LexState
  look_ahead ls = keep_ahead (llex ls.lookahead.seminfo ls)

-- `luaX_setinput` on a stream that gives these bytes
unfoldable pub setinput : Bytes → LexState
setinput input = record {
  input = input;
  linenumber = 1;
  lastline = 1;
  t = record { token = 0; seminfo = unset };
  lookahead = record { token = eos_token; seminfo = unset };
  buff = [];
  decpoint = b'.';
}
