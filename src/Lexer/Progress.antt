-- ===== src/Lexer/Progress.antt =====
-- How much of the input a quoted string, a numeral and a token of src/llex.c pass.
use lua_reading.Prelude.{
  ℕ, zero, suc, ◌+◌, ◌-◌, ◌*◌, ◌≤◌, ◌<◌, ◌≡◌, refl, inl, inr, true, Option, none, some, [], ◌∷◌,
  arith, ltb, ◌==◌, Bool-cases, Option-cases, length, drop, length-drop,
}
use lua_reading.Proto.{Bytes}
use lua_reading.Pattern.Classes.{Ctype}
use lua_reading.Lexer.{SemInfo, LexState, is_newline, save, save_and_next, check_next, save_while}
use lua_reading.Lexer.Loops.{Ends, Passes, if-Passes, Passes-later, run-Ends}
use lua_reading.Lexer.Numerals.{
  Clib, c_string, buffreplace, str2d, new_point, trydecpoint, in_name, in_number, exponent,
  numeral_text, read_numeral,
}
use lua_reading.Lexer.Literals.{
  simple_escape, read_digits, escape_code, decimal_escape, escape_switch, escape, string_switch,
  string_round, read_string,
}
use lua_reading.Lexer.Advance.{
  Short, inclinenumber-Ends, save_while-Short, check_next-Short, resume-Passes,
}

module _ (ctype : Ctype) where
  read_digits_short :
      (left c : ℕ) (input : Bytes) → length (read_digits ctype left c input).1 ≤ length input
  unfolding read_digits
  read_digits_short zero c input = omega arith
  read_digits_short (suc left) c [] = omega arith
  read_digits_short (suc left) c (d ∷ input) =
      let ih = read_digits_short left (10 * c + (d - b'0')) input in
      elim (Bool-cases (Ctype.isdigit ctype d)) [
        | inl h ↦ rw h (omega (arith, ih))
        | inr h ↦ rw h (omega arith)
      ]

  read_digits_first :
      (left c d : ℕ) (cs : Bytes)
      → Ctype.isdigit ctype d ≡ true
      → length (read_digits ctype (suc left) c (d ∷ cs)).1 ≤ length cs
  unfolding read_digits
  read_digits_first left c d cs h = rw h (read_digits_short left (10 * c + (d - b'0')) cs)

  escape_code-Passes :
      (Good : LexState → Type 0) (n : ℕ) (ls : LexState) (x : ℕ × Bytes)
      → length x.1 < n
      → Passes Good n (escape_code ls x)
  unfolding escape_code Passes Ends
  escape_code-Passes Good n ls (c, input) h =
      if-Passes Good n (ltb 255 c) _ _ (λ large. tt) (λ fits. h)

  decimal_escape-Passes :
      (Good : LexState → Type 0) (d : ℕ) (cs : Bytes) (ls : LexState)
      → ls.input ≡ d ∷ cs
      → Ctype.isdigit ctype d ≡ true
      → Passes Good (suc (length cs)) (decimal_escape ctype ls)
  unfolding decimal_escape
  decimal_escape-Passes Good d cs ls e h =
      rw e (escape_code-Passes Good _ _ _ (omega (arith, read_digits_first 2 0 d cs h)))

  escape_switch-Passes :
      (Good : LexState → Type 0) (c : ℕ) (o : Option ℕ) (cs : Bytes) (ls : LexState)
      → ls.input ≡ c ∷ cs
      → Passes Good (suc (length cs)) (escape_switch ctype c o ls)
  unfolding escape_switch Passes
  escape_switch-Passes Good c (some d) cs ls e = rw e (omega arith)
  escape_switch-Passes Good c none cs ls e =
      if-Passes Good _ (is_newline c) _ _
        (λ h.
          resume-Passes _ _ _ _ _ (λ x. refl) (inclinenumber-Ends (save b'\n' ls) c cs e)
            (omega arith))
        (λ h. elim (Bool-cases (Ctype.isdigit ctype c)) [
          | inl digit ↦ rw digit (decimal_escape-Passes Good c cs ls e digit)
          | inr plain ↦ rw (plain, e) (omega arith)
        ])

  -- After a backslash
  escape-Passes :
      (Good : LexState → Type 0) (cs : Bytes) (ls : LexState)
      → ls.input ≡ cs
      → Passes Good (suc (length cs)) (escape ctype ls)
  unfolding escape Passes
  escape-Passes Good [] ls e = rw e (omega arith)
  escape-Passes Good (c ∷ cs) ls e = rw e (
      Passes-later Good (suc (length cs)) _ _ (omega arith)
        (escape_switch-Passes Good c (simple_escape c) cs (record ls { input = c ∷ cs }) refl))

  pub string_round-Passes :
      (del m : ℕ) (cs : Bytes) (ls : LexState)
      → ls.input ≡ cs
      → Short m ls
      → Passes (Short m) (length ls.input) (string_round ctype del ls)
  unfolding string_round string_switch Passes Ends
  string_round-Passes del m [] ls e fits = rw e tt
  string_round-Passes del m (c ∷ cs) ls e fits = rw e (
      if-Passes _ _ (c == del) _ _ (λ h. (rw e at fits))
        (λ h.
          if-Passes _ _ (is_newline c) _ _ (λ h1. tt)
            (λ h1.
              if-Passes _ _ (c == b'\\') _ _
                (λ h2. escape-Passes _ cs (record ls { input = cs }) refl) (λ h2. omega arith))))

  pub read_string-Ends :
      (del : ℕ) (ls : LexState) → Ends (Short (length ls.input - 1)) (read_string ctype del ls)
  unfolding read_string
  read_string-Ends del ls = rw (← length-drop 1 ls.input) (
      run-Ends (string_round ctype del) (Short (length (drop 1 ls.input))) (save_and_next ls)
        (λ ls' h. string_round-Passes del (length (drop 1 ls.input)) ls'.input ls' refl h))

-- A number read, and at most `m` bytes left.
abbrev pub ShortNumber : ℕ → SemInfo × LexState → Type 0
ShortNumber m (si, ls) = Short m ls

module _ (lib : Clib) where
  exponent-Short : (ls : LexState) → Short (length ls.input) (exponent lib ls)
  unfolding exponent
  exponent-Short ls =
      let first = check_next (b'E' ∷ b'e' ∷ []) ls in
      let once = check_next-Short (b'E' ∷ b'e' ∷ []) ls in
      let twice = check_next-Short (b'+' ∷ b'-' ∷ []) first.1 in
      elim (Bool-cases first.0) [ inl h ↦ rw h (omega (arith, once, twice)) | inr h ↦ rw h once ]

  numeral_text-Short : (ls : LexState) → Short (length ls.input - 1) (numeral_text lib ls)
  unfolding numeral_text
  numeral_text-Short ls =
      let ls1 = save_and_next ls in
      let ls2 = save_while (in_number lib) ls1.input ls1 in
      let ls3 = exponent lib ls2 in
      omega (
        arith,
        length-drop 1 ls.input,
        save_while-Short (in_number lib) ls1.input ls1 refl,
        exponent-Short ls2,
        save_while-Short (in_name lib) ls3.input ls3 refl,
      )

  trydecpoint-Ends :
      (m : ℕ) (ls : LexState) → Short m ls → Ends (ShortNumber m) (trydecpoint lib ls)
  unfolding trydecpoint Ends
  trydecpoint-Ends m ls h =
      let point = new_point lib.decimal_point in
      elim (Option-cases (str2d lib (c_string (buffreplace ls.decpoint point ls.buff)))) [
        | inl e ↦ rw (Ends, e) tt
        | inr (x, e) ↦ rw (Ends, e) h
      ]

  pub read_numeral-Ends :
      (ls : LexState) → Ends (ShortNumber (length ls.input - 1)) (read_numeral lib ls)
  unfolding read_numeral Ends
  read_numeral-Ends ls =
      let ls1 = numeral_text lib ls in
      let ls2 = record ls1 { buff = buffreplace b'.' ls1.decpoint ls1.buff } in
      let short = numeral_text-Short ls in
      elim (Option-cases (str2d lib (c_string ls2.buff))) [
        | inl e ↦ rw (Ends, e) (trydecpoint-Ends (length ls.input - 1) ls2 short)
        | inr (x, e) ↦ rw (Ends, e) short
      ]
