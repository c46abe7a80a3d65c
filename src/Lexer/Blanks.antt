-- ===== src/Lexer/Blanks.antt =====
-- White space and short comments in front of a token, src/llex.c.
use lua_reading.Prelude.{
  ◌&&◌, Bool-cases, inl, inr, ℕ, suc, ◌≤◌, ◌<◌, ◌≡◌, refl, ◌∙◌, Bool, true, false, not, ◌||◌, [],
  ◌∷◌, ◌++◌, arith, leb, ◌==◌, length,
}
use lua_reading.Proto.{Bytes}
use lua_reading.Interning.{max_int}
use lua_reading.Lexer.{
  SemInfo, LexState, again, run, at, is_newline, resetbuffer, skip_pair, skip_newline, skip_sep,
  save_and_next, inclinenumber,
}
use lua_reading.Lexer.Loops.{Passes, run-again}
use lua_reading.Lexer.Numerals.{Clib}
use lua_reading.Lexer.Tokens.{long_comment, comment, minus, other, switch, round, llex}
use lua_reading.Lexer.Advance.{weaken}
use lua_reading.Lexer.Finish.{Read, round-Passes}
use lua_reading.Lexer.Words.{Standard}
use lua_reading.Lexer.Remarks.{
  opens_long, InLine, EndsLine, skip_line_text, no_bracket_behind, skip_equals-Stopped,
}

-- White space that ends no line: a space, or one of the control characters 9, 11 and 12.
abbrev pub is_space : ℕ → Bool
is_space c = c == b' ' || c == 9 || c == 11 || c == 12

-- The first input is the second one with blanks in front, over which the line number goes from the
-- first to the second.
pub data Blank : Bytes → ℕ → Bytes → ℕ → Type 0 where
  nothing : (rest : Bytes) (n : ℕ) → Blank rest n rest n
  space :
      (c : ℕ) (w rest : Bytes) (n m : ℕ)
      → is_space c ≡ true
      → Blank w n rest m
      → Blank (c ∷ w) n rest m
  -- A newline, `\n` or `\r`, with no other one of the two behind it.
  line :
      (c : ℕ) (w rest : Bytes) (n m : ℕ)
      → is_newline c ≡ true
      → at (λ d. is_newline d && not (d == c)) w ≡ false
      → Blank w (suc n) rest m
      → Blank (c ∷ w) n rest m
  -- `\r\n` or `\n\r`, which is one newline
  pair :
      (c d : ℕ) (w rest : Bytes) (n m : ℕ)
      → is_newline c ≡ true
      → is_newline d ≡ true
      → (d == c) ≡ false
      → Blank w (suc n) rest m
      → Blank (c ∷ d ∷ w) n rest m
  -- A comment up to the end of its line.
  remark :
      (text w rest : Bytes) (n m : ℕ)
      → InLine text
      → opens_long (text ++ w) ≡ false
      → EndsLine w
      → Blank w n rest m
      → Blank (b'-' ∷ b'-' ∷ text ++ w) n rest m

Blank-lines : {w rest : Bytes} {n m : ℕ} → Blank w n rest m → n ≤ m
Blank-lines (nothing _ n) = omega arith
Blank-lines (space c w rest n m h b) = Blank-lines b
Blank-lines (line c w rest n m h h' b) = omega (arith, Blank-lines b)
Blank-lines (pair c d w rest n m h h' e b) = omega (arith, Blank-lines b)
Blank-lines (remark text w rest n m h h' e b) = Blank-lines b

skip_pair_alone :
    (old : ℕ) (w : Bytes) → at (λ d. is_newline d && not (d == old)) w ≡ false → skip_pair old w ≡ w
unfolding skip_pair
skip_pair_alone old [] h = refl
skip_pair_alone old (c ∷ w) h = rw h refl

skip_pair_both :
    (old c : ℕ) (w : Bytes) → is_newline c ≡ true → (c == old) ≡ false → skip_pair old (c ∷ w) ≡ w
unfolding skip_pair
skip_pair_both old c w h e = rw (h, e) refl

module _ (lib : Clib) (std : Standard lib.ctype) (si : SemInfo) where
  advancing : (ls : LexState) → Passes (λ a. Unit {0}) (length ls.input) (round lib si ls)
  advancing ls =
      weaken (Read (suc (length ls.input))) _ _ _ (λ a h. tt)
        (round-Passes lib (suc (length ls.input)) si ls.input ls refl (omega arith))

  skip_space :
      (c : ℕ) (w : Bytes) (ls : LexState)
      → is_space c ≡ true
      → round lib si (record ls { input = c ∷ w }) ≡ again (record ls { input = w })
  unfolding round switch other
  skip_space c w ls h = ground (arith, h, std.spaces c)

  skip_newline_byte :
      (c : ℕ) (w w' : Bytes) (ls : LexState)
      → is_newline c ≡ true
      → skip_pair c w ≡ w'
      → suc ls.linenumber < max_int
      → round lib si (record ls { input = c ∷ w })
        ≡ again (record ls { input = w'; linenumber = suc ls.linenumber })
  unfolding round switch inclinenumber skip_newline
  skip_newline_byte c w w' ls h e few =
      let room : leb max_int (suc ls.linenumber) ≡ false = ground (arith, few) in
      rw (h, room, e) refl

  skip_remark :
      (text w : Bytes) (ls : LexState)
      → InLine text
      → opens_long (text ++ w) ≡ false
      → EndsLine w
      → ls.buff ≡ []
      → round lib si (record ls { input = b'-' ∷ b'-' ∷ text ++ w })
        ≡ again (record ls { input = w })
  unfolding round switch minus comment skip_sep long_comment
  skip_remark [] w ls h short e empty = rw (no_bracket_behind w e, skip_line_text [] w h e) refl
  skip_remark (c ∷ text) w ls (h, hs) short e empty = elim (Bool-cases (c == b'[')) [
    | inr other ↦ rw (other, skip_line_text (c ∷ text) w (h, hs) e) refl
    | inl bracket_first ↦
        let start = save_and_next (record ls { input = c ∷ text ++ w }) in
        let short' = (rw bracket_first at short) in
        let at_end = skip_equals-Stopped 0 text w start hs e short' refl in
        rw
          (
            bracket_first,
            at_end.state,
            at_end.no_bracket,
            skip_line_text at_end.left w at_end.in_line e,
            empty,
          )
          refl
  ]

  run-Blank :
      {w rest : Bytes} {n m : ℕ} (ls : LexState)
      → Blank w n rest m
      → m < max_int
      → ls.buff ≡ []
      → run (round lib si) (record ls { input = w; linenumber = n })
        ≡ run (round lib si) (record ls { input = rest; linenumber = m })
  run-Blank ls (nothing _ n) few empty = refl
  run-Blank ls (space c w rest n m h b) few empty =
      run-again (round lib si) advancing _ _ (skip_space c w (record ls { linenumber = n }) h)
      ∙ run-Blank ls b few empty
  run-Blank ls (line c w rest n m h e b) few empty =
      run-again (round lib si) advancing _ _ (
        skip_newline_byte c w w (record ls { linenumber = n }) h (skip_pair_alone c w e)
          (omega (arith, Blank-lines b, few)))
      ∙ run-Blank ls b few empty
  run-Blank ls (pair c d w rest n m h h' e b) few empty =
      run-again (round lib si) advancing _ _ (
        skip_newline_byte c (d ∷ w) w (record ls { linenumber = n }) h (skip_pair_both c d w h' e)
          (omega (arith, Blank-lines b, few)))
      ∙ run-Blank ls b few empty
  run-Blank ls (remark text w rest n m h h' e b) few empty =
      run-again (round lib si) advancing _ _
        (skip_remark text w (record ls { linenumber = n }) h h' e empty)
      ∙ run-Blank ls b few empty

-- White space, newlines, and comments of one line in front of a token do not change what `llex`
-- reads: only the line number is that behind them. A newline is `\n` or `\r`, or both in a row, which
-- count once; a comment of one line may begin with `[`, but not as a long string does. The line
-- number stays below MAX_INT, and the character tests are those of the C locale.
pub llex-Blank :
    (lib : Clib) (si : SemInfo) (ls : LexState) (w rest : Bytes) (n m : ℕ)
    → Standard lib.ctype
    → Blank w n rest m
    → m < max_int
    → llex lib si (record ls { input = w; linenumber = n })
      ≡ llex lib si (record ls { input = rest; linenumber = m })
unfolding llex
llex-Blank lib si ls w rest n m std b few = run-Blank lib std si (resetbuffer ls) b few refl
