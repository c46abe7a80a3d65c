-- ===== src/Lexer/Quoted.antt =====
-- The lexer of src/llex.c reads back what `addquoted` of src/lstrlib.c writes.
use mathlib.Core.List.{append-nil, append_assoc}
use lua_reading.Prelude.{
  ℕ, suc, ◌-◌, ◌*◌, ◌≤◌, ◌<◌, ◌≡◌, refl, sym, ap, ◌∙◌, inl, inr, false, ◌&&◌, [], ◌∷◌, ◌++◌, arith,
  leb, ◌==◌, if◌then◌else◌, ==_iff, Bool-cases, length, length-append, take-append,
}
use lua_reading.Proto.{Bytes}
use lua_reading.Interning.{max_int}
use lua_reading.Pattern.Classes.{Ctype}
use lua_reading.Strings.Format.{quoted_byte, quoted, addquoted}
use lua_reading.Lexer.{
  SemInfo, ts, LexState, ok, again, run, string_token, at, is_newline, skip_pair, skip_newline,
  inclinenumber,
}
use lua_reading.Lexer.Loops.{Passes, run-again, run-stop}
use lua_reading.Lexer.Numerals.{Clib}
use lua_reading.Lexer.Literals.{
  inside, simple_escape, read_digits, escape_code, decimal_escape, escape_switch, escape,
  string_switch, string_round, read_string,
}
use lua_reading.Lexer.Tokens.{switch, round, llex}
use lua_reading.Lexer.Advance.{weaken}
use lua_reading.Lexer.Progress.{string_round-Passes}

-- `isdigit` holds of the ten digits only, as the C standard has it.
abbrev pub Digits : Ctype → Type 0
Digits ctype = (c : ℕ) → Ctype.isdigit ctype c ≡ (leb b'0' c && leb c b'9')

-- The line number after a string that is read from line `n`.
abbrev pub lines_after : ℕ → Bytes → ℕ
lines_after n [] = n
lines_after n (c ∷ s) = lines_after (if c == b'\n' then suc n else n) s

-- The state after a part of a string was read.
abbrev pub reading : LexState → Bytes → Bytes → LexState
reading ls s rest = record ls {
  input = rest;
  buff = ls.buff ++ s;
  linenumber = lines_after ls.linenumber s;
}

head_of_quoted : (s rest : Bytes) → at is_newline (quoted s ++ b'"' ∷ rest) ≡ false
unfolding quoted quoted_byte
head_of_quoted [] rest = refl
head_of_quoted (c ∷ s) rest = ground arith

lines_after_le : (s : Bytes) (n : ℕ) → n ≤ lines_after n s
lines_after_le [] n = omega arith
lines_after_le (c ∷ s) n = elim (Bool-cases (c == b'\n')) [
  | inl h ↦ rw h (omega (arith, lines_after_le s (suc n)))
  | inr h ↦ rw h (lines_after_le s n)
]

skip_pair_none : (old : ℕ) (cs : Bytes) → at is_newline cs ≡ false → skip_pair old cs ≡ cs
unfolding skip_pair
skip_pair_none old [] h = refl
skip_pair_none old (c ∷ cs) h = rw h refl

module _ (ctype : Ctype) (digits : Digits ctype) where
  -- A byte that is written with a backslash, or as it is.
  round_of_byte :
      (c : ℕ) (rest : Bytes) (ls : LexState)
      → at is_newline rest ≡ false
      → lines_after ls.linenumber (c ∷ []) < max_int
      → string_round ctype b'"' (record ls { input = quoted_byte c ++ rest })
        ≡ again (reading ls (c ∷ []) rest)
  unfolding quoted_byte string_round string_switch escape escape_switch simple_escape decimal_escape
      escape_code read_digits inclinenumber skip_newline
  round_of_byte c rest ls h few = elim (Bool-cases (c == b'"')) [
    | inl e ↦ rw ((==_iff c b'"').0 e, digits b'"') refl
    | inr n1 ↦ elim (Bool-cases (c == b'\\')) [
      | inl e ↦ rw ((==_iff c b'\\').0 e, digits b'\\') refl
      | inr n2 ↦ elim (Bool-cases (c == b'\n')) [
        | inl e ↦
            let same : c ≡ b'\n' = (==_iff c b'\n').0 e in
            let room : leb max_int (suc ls.linenumber) ≡ false = ground (arith, few) in
            rw (same, room, skip_pair_none b'\n' rest h) refl
        | inr n3 ↦ elim (Bool-cases (c == b'\r')) [
          | inl e ↦ rw ((==_iff c b'\r').0 e) refl
          | inr n4 ↦ elim (Bool-cases (c == 0)) [
            | inl e ↦ rw ((==_iff c 0).0 e, digits 48) refl
            | inr n5 ↦ rw (n1, n2, n3, n4, n5, string_switch, n1, n3, n4, n2) refl
          ]
        ]
      ]
    ]
  ]

  advancing :
      (ls : LexState) → Passes (λ a. Unit {0}) (length ls.input) (string_round ctype b'"' ls)
  advancing ls =
      weaken _ _ _ _ (λ a h. tt)
        (string_round-Passes ctype b'"' (length ls.input) ls.input ls refl (omega arith))

  -- The loop of `read_string` over what `addquoted` wrote.
  pub read_quoted :
      (s rest : Bytes) (ls : LexState)
      → lines_after ls.linenumber s < max_int
      → run (string_round ctype b'"') (record ls { input = quoted s ++ b'"' ∷ rest })
        ≡ ok (reading ls s (b'"' ∷ rest))
  unfolding quoted string_round string_switch
  read_quoted [] rest ls few =
      run-stop (string_round ctype b'"') _ _ refl
      ∙ ap (λ b. ok (record ls { input = b'"' ∷ rest; buff = b })) (sym (append-nil ls.buff))
  read_quoted (c ∷ s) rest ls few =
      let ls' = reading ls (c ∷ []) (quoted s ++ b'"' ∷ rest) in
      let room = lines_after_le s (lines_after ls.linenumber (c ∷ [])) in
      let first =
        round_of_byte c (quoted s ++ b'"' ∷ rest) ls (head_of_quoted s rest)
          (omega (arith, room, few)) in
      rw append_assoc (
        run-again (string_round ctype b'"') advancing _ ls' first
        ∙ read_quoted s rest ls' few
        ∙ ap (λ b. ok (record (reading ls (c ∷ s) (b'"' ∷ rest)) { buff = b }))
            (append_assoc ls.buff (c ∷ []) s))

inside_quotes : (s : Bytes) → inside 1 (b'"' ∷ s ++ b'"' ∷ []) ≡ s
inside_quotes s =
    let n : suc (length (s ++ b'"' ∷ [])) - 2 * 1 ≡ length s =
      omega (arith, length-append s (b'"' ∷ [])) in
    rw n (take-append s (b'"' ∷ []))

-- A string that `addquoted` wrote is read back as a token TK_STRING with the bytes of the string,
-- whatever they are and whatever follows, if its lines can be counted and `isdigit` holds of the ten
-- digits only. The rest of the input is left, and the line number has moved on by the newlines.
pub llex-addquoted :
    (lib : Clib) (si : SemInfo) (s rest : Bytes) (ls : LexState)
    → Digits lib.ctype
    → lines_after ls.linenumber s < max_int
    → llex lib si (record ls { input = addquoted s ++ rest })
      ≡ ok (record {
        token = string_token;
        seminfo = ts s;
        state = record ls {
          input = rest;
          buff = b'"' ∷ s ++ b'"' ∷ [];
          linenumber = lines_after ls.linenumber s;
        };
      })
unfolding llex round switch addquoted read_string
llex-addquoted lib si s rest ls digits few =
    let start = record ls { input = quoted s ++ b'"' ∷ rest; buff = b'"' ∷ [] } in
    rw append_assoc (
      run-stop (round lib si) _ _
        (rw (read_quoted lib.ctype digits s rest start few) (rw (inside_quotes s) refl)))
