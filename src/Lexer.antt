-- ===== src/Lexer.antt =====
-- src/llex.c and src/llex.h: the state of the lexer and the operations that its parts share. A string
-- is given by its bytes (Interning models its object), a number by its representation. The buffer
-- of the current token grows as needed; its allocation is not modelled.
pub mod Numerals
pub mod Literals
pub mod Tokens
pub mod Loops
pub mod Advance
pub mod Progress
pub mod Finish
pub mod Quoted
pub mod Words
pub mod Remarks
pub mod Blanks
use lua_reading.Prelude.{
  ℕ, zero, suc, ◌+◌, ◌-◌, ◌*◌, ◌/◌, ◌%◌, ◌^◌, ◌≤◌, ◌<◌, min, ◌≡◌, refl, sym, ap, ap₂, ◌∙◌, ◌≢◌, ◌↔◌,
  ◌⊎◌, inl, inr, Bool, true, false, not, ◌&&◌, ◌||◌, Option, none, some, List, [], ◌∷◌, ◌++◌, map,
  arith, ltb, leb, ◌==◌, if◌then◌else◌, ltb→lt, lt→ltb, ==_iff, Bool-cases, Option-cases, length,
  get_elem?, get_or, take, drop, All, length-append, length-drop, take-append, drop-append,
  get_elem?-lt,
}
use lua_reading.Prelude.Int.{ℤ, pos, negsuc}
use lua_reading.Proto.{Bytes}
use lua_reading.Interning.{max_int}

-- `SemInfo`, a union; `unset` before any value is stored.
pub data SemInfo : Type 0 where
  unset : SemInfo
  r : ℕ → SemInfo
  ts : Bytes → SemInfo

pub record Token : Type 0 where
  pub token : ℕ
  pub seminfo : SemInfo

-- `input` is `current` and what zgetc gives after it; it is empty when `current` is EOZ.
pub record LexState : Type 0 where
  pub input : Bytes
  pub linenumber : ℕ
  pub lastline : ℕ
  pub t : Token
  pub lookahead : Token
  pub buff : Bytes
  pub decpoint : ℕ

pub data Reason : Type 0 where
  unfinished_string unfinished_long_string unfinished_long_comment nesting_deprecated : Reason
  escape_too_large malformed_number invalid_delimiter too_many_lines : Reason

-- What a part of the lexer gives; `thrown` is `luaX_lexerror` with the message, the token that it
-- is near of, and the state that the message is made from. `exhausted` is a loop out of fuel.
pub data Scan (A : Type 0) : Type 0 where
  ok : A → Scan A
  thrown : Reason → ℕ → LexState → Scan A
  exhausted : Scan A

-- One round of a loop.
pub data Round (A : Type 0) : Type 0 where
  again : LexState → Round A
  stop : Scan A → Round A

-- `for (;;)` with the given body.
unfoldable pub loop : {A : Type 0} → (LexState → Round A) → ℕ → LexState → Scan A
loop body zero ls = exhausted
loop body (suc fuel) ls = elim (body ls) [ again ls' ↦ loop body fuel ls' | stop result ↦ result ]

-- Each round passes a byte at least or is the last one.
unfoldable pub run : {A : Type 0} → (LexState → Round A) → LexState → Scan A
run body ls = loop body (suc (length ls.input)) ls

-- The codes of `enum RESERVED` that the lexer names.
abbrev pub first_reserved : ℕ
first_reserved = 257

abbrev pub num_reserved : ℕ
num_reserved = 21

abbrev pub concat_token : ℕ
concat_token = 278

abbrev pub dots_token : ℕ
dots_token = 279

abbrev pub eq_token : ℕ
eq_token = 280

abbrev pub ge_token : ℕ
ge_token = 281

abbrev pub le_token : ℕ
le_token = 282

abbrev pub ne_token : ℕ
ne_token = 283

abbrev pub number_token : ℕ
number_token = 284

abbrev pub name_token : ℕ
name_token = 285

abbrev pub string_token : ℕ
string_token = 286

abbrev pub eos_token : ℕ
eos_token = 287

-- A test of a character on the one at the head of the input; none holds of EOZ.
abbrev pub at : (ℕ → Bool) → Bytes → Bool
at test [] = false
at test (c ∷ cs) = test c

abbrev pub is_newline : ℕ → Bool
is_newline c = c == b'\n' || c == b'\r'

abbrev pub next : LexState → LexState
next ls = record ls { input = drop 1 ls.input }

abbrev pub save : ℕ → LexState → LexState
save c ls = record ls { buff = ls.buff ++ c ∷ [] }

-- `luaZ_resetbuffer`
abbrev pub resetbuffer : LexState → LexState
resetbuffer ls = record ls { buff = [] }

-- `save_and_next`, which the code calls only before EOZ
abbrev pub save_and_next : LexState → LexState
save_and_next ls = record ls { input = drop 1 ls.input; buff = ls.buff ++ take 1 ls.input }

-- `if (currIsNewline(ls) && ls->current != old) next(ls)`
unfoldable pub skip_pair : ℕ → Bytes → Bytes
skip_pair old [] = []
skip_pair old (c ∷ cs) = if is_newline c && not (c == old) then cs else c ∷ cs

-- `inclinenumber`, with the input that begins at the newline
unfoldable pub skip_newline : Bytes → Bytes
skip_newline [] = []
skip_newline (c ∷ cs) = skip_pair c cs

unfoldable pub inclinenumber : LexState → Scan LexState
inclinenumber ls =
    let ls' = record ls { input = skip_newline ls.input; linenumber = suc ls.linenumber } in
    if leb max_int ls'.linenumber then thrown too_many_lines ls.t.token ls' else ok ls'

-- `strchr(set, c)`, which finds the '\0' at the end of the set too
unfoldable pub strchr : Bytes → ℕ → Bool
strchr [] c = c == 0
strchr (d ∷ set) c = d == c || strchr set c

unfoldable pub check_next : Bytes → LexState → Bool × LexState
check_next set ls = if at (strchr set) ls.input then (true, save_and_next ls) else (false, ls)

-- `while (test(ls->current)) save_and_next(ls)`; the list is the input of the state.
unfoldable pub save_while : (ℕ → Bool) → Bytes → LexState → LexState
save_while test [] ls = ls
save_while test (c ∷ cs) ls =
    let rest = save_while test cs (save_and_next ls) in if test c then rest else ls

-- The loop of `skip_sep`.
unfoldable pub skip_equals : ℕ → Bytes → LexState → ℕ × LexState
skip_equals count [] ls = (count, ls)
skip_equals count (c ∷ cs) ls =
    let rest = skip_equals (suc count) cs (save_and_next ls) in
    if c == b'=' then rest else (count, ls)

-- `skip_sep`, where `s` is the character at the head of the input. The result `(-count) - 1` is
-- `negsuc count`.
unfoldable pub skip_sep : ℕ → LexState → ℤ × LexState
skip_sep s ls =
    let ls1 = save_and_next ls in
    let (count, ls2) = skip_equals 0 ls1.input ls1 in
    if at (λ c. c == s) ls2.input then (pos count, ls2) else (negsuc count, ls2)
