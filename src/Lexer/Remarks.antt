-- ===== src/Lexer/Remarks.antt =====
-- The bytes of one line, and of a comment on it, src/llex.c.
use lua_reading.Prelude.{
  ◌&&◌, if◌then◌else◌, drop, Bool-cases, inl, inr, ap, ℕ, suc, ◌≡◌, refl, Bool, true, false, not,
  [], ◌∷◌, ◌++◌, arith, ◌==◌, All,
}
use lua_reading.Proto.{Bytes}
use lua_reading.Lexer.{LexState, at, is_newline, skip_equals, save_and_next}
use lua_reading.Lexer.Tokens.{skip_line, other}

-- `[`, any number of `=`, and `[`: the beginning of a long string.
abbrev pub level_opens : Bytes → Bool
level_opens [] = false
level_opens (c ∷ cs) = let rest = level_opens cs in if c == b'=' then rest else c == b'['

abbrev pub opens_long : Bytes → Bool
opens_long [] = false
opens_long (c ∷ cs) = c == b'[' && level_opens cs

-- The bytes of one line, and what follows it: a newline or the end.
abbrev pub InLine : Bytes → Type 0
InLine text = All (λ c. is_newline c ≡ false) text

abbrev pub EndsLine : Bytes → Type 0
EndsLine w = at (λ c. not (is_newline c)) w ≡ false

pub skip_line_text : (text w : Bytes) → InLine text → EndsLine w → skip_line (text ++ w) ≡ w
unfolding skip_line
skip_line_text [] [] h e = refl
skip_line_text [] (c ∷ w) h e = let stops : is_newline c ≡ true = ground (arith, e) in rw stops refl
skip_line_text (c ∷ text) w (h, hs) e = rw h (skip_line_text text w hs e)

-- Where the search for the level of a long string stops inside a line.
pub record Stopped (w : Bytes) (ls : LexState) (x : LexState) : Type 0 where
  pub left : Bytes
  pub saved : Bytes
  pub in_line : InLine left
  pub state : x ≡ record ls { input = left ++ w; buff = saved }
  pub no_bracket : at (λ c. c == b'[') (left ++ w) ≡ false

pub no_bracket_behind : (w : Bytes) → EndsLine w → at (λ c. c == b'[') w ≡ false
no_bracket_behind [] e = refl
no_bracket_behind (c ∷ w) e = ground (arith, e)

pub skip_equals-Stopped :
    (n : ℕ) (text w : Bytes) (ls : LexState)
    → InLine text
    → EndsLine w
    → level_opens (text ++ w) ≡ false
    → ls.input ≡ text ++ w
    → Stopped w ls (skip_equals n (text ++ w) ls).1
unfolding skip_equals
skip_equals-Stopped n [] [] ls h e short same = record {
  left = [];
  saved = ls.buff;
  in_line = tt;
  state = rw (← same) refl;
  no_bracket = refl;
}
skip_equals-Stopped n [] (c ∷ w) ls h e short same =
    let other : (c == b'=') ≡ false = ground (arith, e) in
    rw other (record {
      left = [];
      saved = ls.buff;
      in_line = tt;
      state = rw (← same) refl;
      no_bracket = no_bracket_behind (c ∷ w) e;
    })
skip_equals-Stopped n (c ∷ text) w ls (h, hs) e short same = elim (Bool-cases (c == b'=')) [
  | inr other ↦
      let no : (c == b'[') ≡ false = (rw other at short) in
      rw other (record {
        left = c ∷ text;
        saved = ls.buff;
        in_line = (h, hs);
        state = rw (← same) refl;
        no_bracket = no;
      })
  | inl equals ↦
      let short' = (rw equals at short) in
      let ih =
        skip_equals-Stopped (suc n) text w (save_and_next ls) hs e short' (ap (drop 1) same) in
      rw equals (record {
        left = ih.left;
        saved = ih.saved;
        in_line = ih.in_line;
        state = ih.state;
        no_bracket = ih.no_bracket;
      })
]
