-- ===== src/Lexer/Finish.antt =====
-- `llex` of src/llex.c reads a token, or reports an error, and never runs on.
use lua_reading.Prelude.{
  ℕ, zero, suc, ◌+◌, ◌-◌, ◌≤◌, ◌<◌, ◌≡◌, refl, ◌⊎◌, inl, inr, true, false, ◌||◌, [], ◌∷◌, arith,
  ltb, ◌==◌, Bool-cases, length, drop, length-drop,
}
use lua_reading.Prelude.Int.{ℤ, pos, negsuc}
use lua_reading.Proto.{Bytes}
use lua_reading.Pattern.Classes.{Ctype}
use lua_reading.Lexer.{
  SemInfo, LexState, Scan, ok, thrown, exhausted, eos_token, at, is_newline, next, resetbuffer,
  save_and_next, check_next, save_while, skip_sep,
}
use lua_reading.Lexer.Loops.{Ends, Passes, if-Passes, run-Ends}
use lua_reading.Lexer.Numerals.{Clib, in_name}
use lua_reading.Lexer.Tokens.{
  reserved, Lexed, accept, accept_number, accept_string, after_delimiter, with_equals, skip_line,
  short_comment, long_comment, comment, minus, bracket, word, dot, other, switch, round, llex,
}
use lua_reading.Lexer.Advance.{
  Short, inclinenumber-Ends, save_while-Short, check_next-Short, skip_sep-Short, resume-Passes,
  read_long_string-Ends,
}
use lua_reading.Lexer.Progress.{read_string-Ends, read_numeral-Ends, ShortNumber}

-- Some of `m` bytes were read, or the token is TK_EOS.
abbrev pub Read : ℕ → Lexed → Type 0
Read m x = (length x.state.input < m) ⊎ (x.token ≡ eos_token)

module _ (m n : ℕ) where
  accept-Passes :
      (token : ℕ) (si : SemInfo) (ls : LexState)
      → length ls.input < m
      → Passes (Read m) n (accept token si ls)
  unfolding Passes Ends
  accept-Passes token si ls h = inl h

  accept_number-Passes :
      (k : ℕ) (x : Scan (SemInfo × LexState))
      → Ends (ShortNumber k) x
      → k < m
      → Passes (Read m) n (accept_number x)
  unfolding Passes Ends
  accept_number-Passes k (ok (si, ls)) h less = inl (omega (arith, h))
  accept_number-Passes k (thrown e near ls) h less = tt
  accept_number-Passes k exhausted h less = h

  accept_string-Passes :
      (i k : ℕ) (x : Scan LexState)
      → Ends (Short k) x
      → k < m
      → Passes (Read m) n (accept_string i x)
  unfolding Passes Ends
  accept_string-Passes i k (ok ls) h less = inl (omega (arith, h))
  accept_string-Passes i k (thrown e near ls) h less = tt
  accept_string-Passes i k exhausted h less = h

  with_equals-Passes :
      (c both : ℕ) (si : SemInfo) (ls : LexState)
      → length ls.input < m
      → Passes (Read m) n (with_equals c both si ls)
  unfolding with_equals
  with_equals-Passes c both si ls h =
      if-Passes _ _ (at (λ d. d == b'=') ls.input) _ _
        (λ two. accept-Passes both si (next ls) (omega (arith, h, length-drop 1 ls.input)))
        (λ one. accept-Passes c si ls h)

  bracket-Passes :
      (k : ℕ) (si : SemInfo) (x : ℤ × LexState)
      → Short k x.1
      → k < m
      → Passes (Read m) n (bracket si x)
  unfolding bracket Passes Ends
  bracket-Passes k si (pos sep, ls) h less =
      accept_string-Passes (2 + sep) (length ls.input - 1) _ (read_long_string-Ends true sep ls)
        (omega (arith, h))
  bracket-Passes k si (negsuc zero, ls) h less = inl (omega (arith, h))
  bracket-Passes k si (negsuc (suc i), ls) h less = tt

  word-Passes :
      (si : SemInfo) (ls : LexState) → length ls.input < m → Passes (Read m) n (word si ls)
  unfolding word
  word-Passes si ls h =
      if-Passes _ _ (ltb 0 (reserved ls.buff)) _ _ (λ keyword. accept-Passes _ si ls h)
        (λ name. accept-Passes _ _ ls h)

after_delimiter-Ends :
    (k : ℕ) (x : Scan LexState) → Ends (Short k) x → Ends (Short k) (after_delimiter x)
unfolding Ends
after_delimiter-Ends k (ok ls) h = omega (arith, h, length-drop 1 ls.input)
after_delimiter-Ends k (thrown e near ls) h = tt
after_delimiter-Ends k exhausted h = h

skip_line_short : (cs : Bytes) → length (skip_line cs) ≤ length cs
unfolding skip_line
skip_line_short [] = omega arith
skip_line_short (c ∷ cs) = elim (Bool-cases (is_newline c)) [
  | inl h ↦ rw h (omega arith)
  | inr h ↦ rw h (omega (arith, skip_line_short cs))
]

module _ (Good : Lexed → Type 0) (n : ℕ) where
  short_comment-Passes : (ls : LexState) → length ls.input < n → Passes Good n (short_comment ls)
  unfolding Passes
  short_comment-Passes ls h = omega (arith, h, skip_line_short ls.input)

  long_comment-Passes : (x : ℤ × LexState) → length x.1.input < n → Passes Good n (long_comment x)
  unfolding long_comment
  long_comment-Passes (pos sep, ls) h =
      resume-Passes Good resetbuffer (length ls.input - 1) n _ (λ a. refl)
        (read_long_string-Ends false sep (resetbuffer ls)) (omega (arith, h))
  long_comment-Passes (negsuc i, ls) h = short_comment-Passes (resetbuffer ls) h

  comment-Passes :
      (cs : Bytes) (ls : LexState) → ls.input ≡ cs → length cs < n → Passes Good n (comment ls)
  unfolding comment
  comment-Passes [] ls e h = rw e (short_comment-Passes (record ls { input = [] }) h)
  comment-Passes (c ∷ cs) ls e h =
      let ls' = record ls { input = c ∷ cs } in
      rw e (
        if-Passes _ _ (c == b'[') _ _
          (λ long.
            long_comment-Passes (skip_sep b'[' ls')
              (omega (arith, h, skip_sep-Short b'[' ls' c cs refl)))
          (λ short. short_comment-Passes ls' h))

module _ (lib : Clib) (m : ℕ) where
  minus-Passes :
      (si : SemInfo) (cs : Bytes) (ls : LexState)
      → ls.input ≡ cs
      → length cs < m
      → Passes (Read m) (suc (length cs)) (minus si ls)
  unfolding minus
  minus-Passes si cs ls e h =
      if-Passes _ _ (at (λ c. c == b'-') ls.input) _ _
        (λ two. comment-Passes _ _ (drop 1 cs) (next ls) (rw e) (omega (arith, length-drop 1 cs)))
        (λ one. accept-Passes m _ b'-' si ls (rw e h))

  dot-Passes :
      (n : ℕ) (si : SemInfo) (ls : LexState)
      → length ls.input < m
      → Passes (Read m) n (dot lib si ls)
  unfolding dot
  dot-Passes n si ls h =
      let two = check_next (b'.' ∷ []) ls in
      let left2 = check_next-Short (b'.' ∷ []) ls in
      let left3 = check_next-Short (b'.' ∷ []) two.1 in
      if-Passes _ _ two.0 _ _
        (λ both.
          if-Passes _ _ (check_next (b'.' ∷ []) two.1).0 _ _
            (λ all. accept-Passes m n _ si _ (omega (arith, h, left2, left3)))
            (λ only. accept-Passes m n _ si _ (omega (arith, h, left2, left3))))
        (λ one.
          if-Passes _ _ (at (Ctype.isdigit lib.ctype) two.1.input) _ _
            (λ digit.
              accept_number-Passes m n _ _ (read_numeral-Ends lib two.1) (omega (arith, h, left2)))
            (λ plain. accept-Passes m n b'.' si two.1 (omega (arith, h, left2))))

  other-Passes :
      (c : ℕ) (cs : Bytes) (si : SemInfo) (ls : LexState)
      → ls.input ≡ c ∷ cs
      → length cs < m
      → Passes (Read m) (suc (length cs)) (other lib c si ls)
  unfolding other Passes
  other-Passes c cs si ls e h =
      let left : length ls.input ≡ suc (length cs) = rw e in
      let ls' = save_and_next ls in
      let less : length ls'.input ≡ length cs = rw e in
      let text = save_while-Short (in_name lib) ls'.input ls' refl in
      if-Passes _ _ (Ctype.isspace lib.ctype c) _ _ (λ space. omega (arith, less))
        (λ h1.
          if-Passes _ _ (Ctype.isdigit lib.ctype c) _ _
            (λ digit.
              accept_number-Passes m _ _ _ (read_numeral-Ends lib ls) (omega (arith, h, left)))
            (λ h2.
              if-Passes _ _ (Ctype.isalpha lib.ctype c || c == b'_') _ _
                (λ alpha.
                  word-Passes m _ si (save_while (in_name lib) ls'.input ls')
                    (omega (arith, h, less, text)))
                (λ single.
                  accept-Passes m (suc (length cs)) c si (next ls) (omega (arith, h, less)))))

  switch-Passes :
      (c : ℕ) (cs : Bytes) (si : SemInfo) (ls : LexState)
      → ls.input ≡ c ∷ cs
      → length cs < m
      → Passes (Read m) (suc (length cs)) (switch lib c si ls)
  unfolding switch
  switch-Passes c cs si ls e h =
      let n = suc (length cs) in
      let left : length ls.input ≡ suc (length cs) = rw e in
      let less : length (drop 1 ls.input) < m = rw e h in
      if-Passes _ n (is_newline c) _ _
        (λ h0. resume-Passes _ _ _ _ _ (λ a. refl) (inclinenumber-Ends ls c cs e) (omega arith))
        (λ h0.
          if-Passes _ n (c == b'-') _ _ (λ h1. minus-Passes si cs (next ls) (rw e) h)
            (λ h1.
              if-Passes _ n (c == b'[') _ _
                (λ h2. bracket-Passes m n _ si _ (skip_sep-Short b'[' ls c cs e) h)
                (λ h2.
                  if-Passes _ n (c == b'=') _ _ (λ h3. with_equals-Passes m n _ _ si (next ls) less)
                    (λ h3.
                      if-Passes _ n (c == b'<') _ _
                        (λ h4. with_equals-Passes m n _ _ si (next ls) less)
                        (λ h4.
                          if-Passes _ n (c == b'>') _ _
                            (λ h5. with_equals-Passes m n _ _ si (next ls) less)
                            (λ h5.
                              if-Passes _ n (c == b'~') _ _
                                (λ h6. with_equals-Passes m n _ _ si (next ls) less)
                                (λ h6.
                                  if-Passes _ n (c == b'"' || c == b'\'') _ _
                                    (λ h7.
                                      accept_string-Passes m n 1 _ _
                                        (after_delimiter-Ends _ _ (read_string-Ends lib.ctype c ls))
                                        (omega (arith, left, h)))
                                    (λ h7.
                                      if-Passes _ n (c == b'.') _ _
                                        (λ h8. dot-Passes n si (save_and_next ls) less)
                                        (λ h8. other-Passes c cs si ls e h)))))))))

  pub round-Passes :
      (si : SemInfo) (cs : Bytes) (ls : LexState)
      → ls.input ≡ cs
      → length cs ≤ m
      → Passes (Read m) (length ls.input) (round lib si ls)
  unfolding round Passes Ends
  round-Passes si [] ls e h = rw e (inr refl)
  round-Passes si (c ∷ cs) ls e h =
      rw e (switch-Passes c cs si (record ls { input = c ∷ cs }) refl (omega (arith, h)))

-- `llex` always returns or reports an error: the fuel, the bytes of the input, is enough. It passes a
-- byte of the input at least, or returns TK_EOS.
pub llex-Ends :
    (lib : Clib) (si : SemInfo) (ls : LexState) → Ends (Read (length ls.input)) (llex lib si ls)
unfolding llex
llex-Ends lib si ls =
    run-Ends (round lib si) (Read (length ls.input)) (resetbuffer ls)
      (λ ls' h. round-Passes lib (length ls.input) si ls'.input ls' refl h)
