-- ===== src/Lexer/Advance.antt =====
-- How much of the input the parts of src/llex.c pass.
use lua_reading.Prelude.{
  ℕ, suc, ◌-◌, ◌≤◌, ◌<◌, ◌≡◌, refl, inl, inr, Bool, [], ◌∷◌, arith, leb, ◌==◌, if◌then◌else◌,
  Bool-cases, length, drop, length-drop,
}
use lua_reading.Prelude.Int.{ℤ}
use lua_reading.Proto.{Bytes}
use lua_reading.Lexer.{
  LexState, Scan, ok, thrown, exhausted, Round, again, stop, at, is_newline, save, resetbuffer,
  save_and_next, skip_pair, skip_newline, inclinenumber, strchr, check_next, save_while,
  skip_equals, skip_sep,
}
use lua_reading.Interning.{max_int}
use lua_reading.Lexer.Loops.{Ends, Passes, if-Passes, run-Ends}
use lua_reading.Lexer.Literals.{
  is_level, resume, nested, closing, long_switch, long_round, skip_first, long_loop,
  read_long_string,
}

-- There are at most `m` bytes left.
abbrev pub Short : ℕ → LexState → Type 0
Short m ls = length ls.input ≤ m

pub weaken :
    {A : Type 0} (P Q : A → Type 0) (n : ℕ) (x : Round A)
    → ((a : A) → P a → Q a)
    → Passes P n x
    → Passes Q n x
unfolding Passes Ends
weaken P Q n (again ls) f p = p
weaken P Q n (stop (ok a)) f p = f a p
weaken P Q n (stop (thrown e near ls)) f p = tt
weaken P Q n (stop exhausted) f p = p

pub weaken_end :
    {A : Type 0} (P Q : A → Type 0) (x : Scan A) → ((a : A) → P a → Q a) → Ends P x → Ends Q x
unfolding Ends
weaken_end P Q (ok a) f p = f a p
weaken_end P Q (thrown e near ls) f p = tt
weaken_end P Q exhausted f p = p

pub skip_newline_short : (c : ℕ) (cs : Bytes) → length (skip_newline (c ∷ cs)) ≤ length cs
unfolding skip_newline skip_pair
skip_newline_short c [] = omega arith
skip_newline_short c (d ∷ cs) = ground arith

pub inclinenumber-Ends :
    (ls : LexState) (c : ℕ) (cs : Bytes)
    → ls.input ≡ c ∷ cs
    → Ends (Short (length cs)) (inclinenumber ls)
unfolding inclinenumber Ends
inclinenumber-Ends ls c cs e = elim (Bool-cases (leb max_int (suc ls.linenumber))) [
  | inl h ↦ rw h tt
  | inr h ↦ rw h (rw e (skip_newline_short c cs))
]

pub save_while-Short :
    (test : ℕ → Bool) (cs : Bytes) (ls : LexState)
    → ls.input ≡ cs
    → Short (length cs) (save_while test cs ls)
unfolding save_while
save_while-Short test [] ls e = rw e (omega arith)
save_while-Short test (c ∷ cs) ls e =
    let ih = save_while-Short test cs (save_and_next ls) (rw e) in
    elim (Bool-cases (test c)) [
      | inl h ↦ rw h (omega (arith, ih))
      | inr h ↦ rw (h, e) (omega arith)
    ]

pub check_next-Short : (set : Bytes) (ls : LexState) → Short (length ls.input) (check_next set ls).1
unfolding check_next
check_next-Short set ls = elim (Bool-cases (at (strchr set) ls.input)) [
  | inl h ↦ rw h (omega (arith, length-drop 1 ls.input))
  | inr h ↦ rw h (omega arith)
]

skip_equals-Short :
    (n : ℕ) (cs : Bytes) (ls : LexState) → ls.input ≡ cs → Short (length cs) (skip_equals n cs ls).1
unfolding skip_equals
skip_equals-Short n [] ls e = rw e (omega arith)
skip_equals-Short n (c ∷ cs) ls e =
    let ih = skip_equals-Short (suc n) cs (save_and_next ls) (rw e) in
    elim (Bool-cases (c == b'=')) [
      | inl h ↦ rw h (omega (arith, ih))
      | inr h ↦ rw (h, e) (omega arith)
    ]

pub skip_sep-Short :
    (s : ℕ) (ls : LexState) (c : ℕ) (cs : Bytes)
    → ls.input ≡ c ∷ cs
    → Short (length cs) (skip_sep s ls).1
unfolding skip_sep
skip_sep-Short s ls c cs e =
    let ls1 = save_and_next ls in
    let short = skip_equals-Short 0 ls1.input ls1 refl in
    let same : length ls1.input ≡ length cs = rw e in
    elim (Bool-cases (at (λ d. d == s) (skip_equals 0 ls1.input ls1).1.input)) [
      | inl h ↦ rw h (omega (arith, short, same))
      | inr h ↦ rw h (omega (arith, short, same))
    ]

-- What a call that consumes its argument's first byte, and whose error leaves the loop, passes.
pub resume-Passes :
    {A : Type 0} (Good : A → Type 0) (f : LexState → LexState) (m n : ℕ) (x : Scan LexState)
    → ((ls : LexState) → (f ls).input ≡ ls.input)
    → Ends (Short m) x
    → m < n
    → Passes Good n (resume f x)
unfolding Ends Passes
resume-Passes Good f m n (ok ls) same h less = rw same (omega (arith, h))
resume-Passes Good f m n (thrown e near ls) same h less = tt
resume-Passes Good f m n exhausted same h less = h

module _ (keep : Bool) (sep : ℕ) where
  nested-Passes :
      (m n : ℕ) (x : ℤ × LexState) → Short m x.1 → m < n → Passes (Short m) n (nested sep x)
  unfolding nested Passes Ends
  nested-Passes m n (level, ls) h less =
      if-Passes _ n (is_level sep level) _ _
        (λ same.
          if-Passes _ n (sep == 0) _ _ (λ nesting. tt)
            (λ deeper. omega (arith, h, length-drop 1 ls.input)))
        (λ other. omega (arith, h))

  closing-Passes :
      (m n : ℕ) (x : ℤ × LexState) → Short m x.1 → m < n → Passes (Short m) n (closing sep x)
  unfolding closing Passes Ends
  closing-Passes m n (level, ls) h less =
      if-Passes _ n (is_level sep level) _ _ (λ same. omega (arith, h, length-drop 1 ls.input))
        (λ other. omega (arith, h))

  kept_input : (ls : LexState) → (if keep then ls else resetbuffer ls).input ≡ ls.input
  kept_input ls = elim (Bool-cases keep) [ inl h ↦ rw h | inr h ↦ rw h ]

  long_switch-Passes :
      (c : ℕ) (cs : Bytes) (ls : LexState)
      → ls.input ≡ c ∷ cs
      → Passes (Short (length cs)) (suc (length cs)) (long_switch keep sep c ls)
  unfolding long_switch Passes
  long_switch-Passes c cs ls e =
      let less : length cs < suc (length cs) = omega arith in
      let left : length (drop 1 ls.input) ≡ length cs = rw e in
      if-Passes _ _ (c == b'[') _ _
        (λ h. nested-Passes _ _ (skip_sep b'[' ls) (skip_sep-Short _ ls c cs e) less)
        (λ h.
          if-Passes _ _ (c == b']') _ _
            (λ h1. closing-Passes _ _ (skip_sep b']' ls) (skip_sep-Short _ ls c cs e) less)
            (λ h1.
              if-Passes _ _ (is_newline c) _ _
                (λ h2.
                  resume-Passes _ _ _ _ _ kept_input (inclinenumber-Ends (save b'\n' ls) c cs e)
                    less)
                (λ h2.
                  if-Passes _ _ keep _ _ (λ h3. omega (arith, left)) (λ h3. omega (arith, left)))))

  long_round-Passes :
      (m : ℕ) (cs : Bytes) (ls : LexState)
      → ls.input ≡ cs
      → Short m ls
      → Passes (Short m) (length ls.input) (long_round keep sep ls)
  unfolding long_round Passes Ends
  long_round-Passes m [] ls e fits = rw e tt
  long_round-Passes m (c ∷ cs) ls e fits =
      let left : length ls.input ≡ suc (length cs) = rw e in
      rw e (
        weaken (Short (length cs)) (Short m) _ _ (λ a h. omega (arith, h, fits, left))
          (long_switch-Passes c cs (record ls { input = c ∷ cs }) refl))

  long_loop-Ends :
      (m : ℕ) (x : Scan LexState) → Ends (Short m) x → Ends (Short m) (long_loop keep sep x)
  unfolding long_loop Ends
  long_loop-Ends m (ok ls) fits =
      run-Ends (long_round keep sep) (Short m) ls
        (λ ls' h. long_round-Passes m ls'.input ls' refl (omega (arith, h, fits)))
  long_loop-Ends m (thrown e near ls) fits = tt
  long_loop-Ends m exhausted fits = fits

  skip_first-Ends :
      (cs : Bytes) (ls : LexState) → ls.input ≡ cs → Ends (Short (length cs)) (skip_first ls)
  unfolding skip_first Ends
  skip_first-Ends [] ls e = rw e (omega arith)
  skip_first-Ends (c ∷ cs) ls e = elim (Bool-cases (is_newline c)) [
    | inl h ↦
        rw (e, h)
          (weaken_end (Short (length cs)) _ _ (λ a p. omega (arith, p))
            (inclinenumber-Ends (record ls { input = c ∷ cs }) c cs refl))
    | inr h ↦ rw (e, h) (omega arith)
  ]

  pub read_long_string-Ends :
      (ls : LexState) → Ends (Short (length ls.input - 1)) (read_long_string keep sep ls)
  unfolding read_long_string
  read_long_string-Ends ls =
      let start = save_and_next ls in
      let left : length start.input ≡ length ls.input - 1 = length-drop 1 ls.input in
      long_loop-Ends _ (skip_first start) (rw (← left) (skip_first-Ends start.input start refl))
