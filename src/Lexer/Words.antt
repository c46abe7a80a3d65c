-- ===== src/Lexer/Words.antt =====
-- The lexer of src/llex.c reads back the fixed tokens that `luaX_token2str` prints.
use mathlib.Core.List.{append-nil, append_assoc}
use lua_reading.Prelude.{
  if◌then◌else◌, ℕ, zero, suc, ◌+◌, ◌-◌, ◌≤◌, ◌<◌, ◌≡◌, refl, sym, ap, ◌∙◌, ◌⊎◌, inl, inr, Bool,
  true, false, ◌&&◌, ◌||◌, List, [], ◌∷◌, ◌++◌, arith, ltb, leb, ◌==◌, ltb→lt, Bool-cases, length,
  get_or, take, All,
}
use lua_reading.Proto.{Bytes}
use lua_reading.Chunk.Header.{bytes_eq}
use lua_reading.Pattern.Classes.{Ctype}
use lua_reading.Lexer.{
  SemInfo, LexState, Scan, ok, stop, first_reserved, num_reserved, concat_token, dots_token,
  eq_token, ge_token, le_token, ne_token, number_token, at, save_and_next, strchr, check_next,
  save_while,
}
use lua_reading.Lexer.Loops.{run-stop}
use lua_reading.Lexer.Numerals.{Clib, in_name}
use lua_reading.Lexer.Tokens.{
  token_names, token2str, mark, reserved, Lexed, accept, with_equals, word, dot, other, switch,
  round, llex,
}

abbrev pub digit : ℕ → Bool
digit c = leb b'0' c && leb c b'9'

abbrev pub letter : ℕ → Bool
letter c = (leb b'A' c && leb c b'Z') || (leb b'a' c && leb c b'z')

-- The character tests of the C locale, for characters of ASCII.
pub record Standard (ctype : Ctype) : Type 0 where
  pub digits : (c : ℕ) → Ctype.isdigit ctype c ≡ digit c
  pub letters : (c : ℕ) → Ctype.isalpha ctype c ≡ letter c
  pub alphanumerics : (c : ℕ) → Ctype.isalnum ctype c ≡ (letter c || digit c)
  pub spaces : (c : ℕ) → Ctype.isspace ctype c ≡ (c == b' ' || leb 9 c && leb c 13)

abbrev pub name_start : ℕ → Bool
name_start c = letter c || c == b'_'

abbrev pub name_char : ℕ → Bool
name_char c = letter c || digit c || c == b'_'

save_while_all :
    (test : ℕ → Bool) (w rest : Bytes) (ls : LexState)
    → All (λ c. test c ≡ true) w
    → at test rest ≡ false
    → save_while test (w ++ rest) (record ls { input = w ++ rest })
      ≡ record ls { input = rest; buff = ls.buff ++ w }
unfolding save_while
save_while_all test [] [] ls h stops =
    ap (λ b. record ls { input = []; buff = b }) (sym (append-nil ls.buff))
save_while_all test [] (c ∷ rest) ls h stops =
    rw stops (ap (λ b. record ls { input = c ∷ rest; buff = b }) (sym (append-nil ls.buff)))
save_while_all test (c ∷ w) rest ls (h, hs) stops = rw h (
    save_while_all test w rest (record ls { buff = ls.buff ++ c ∷ [] }) hs stops
    ∙ ap (λ b. record ls { input = rest; buff = b }) (append_assoc ls.buff (c ∷ []) w))

module _ (lib : Clib) (std : Standard lib.ctype) where
  switch_word :
      (c : ℕ) (si : SemInfo) (ls : LexState)
      → name_start c ≡ true
      → switch lib c si ls
        ≡ (let ls' = save_and_next ls in word si (save_while (in_name lib) ls'.input ls'))
  unfolding switch other
  switch_word c si ls h = ground (arith, h, std.spaces c, std.digits c, std.letters c)

  name_chars : (w : Bytes) → All (λ c. name_char c ≡ true) w → All (λ c. in_name lib c ≡ true) w
  name_chars [] hs = tt
  name_chars (c ∷ w) (h, hs) = (ground (arith, h, std.alphanumerics c), name_chars w hs)

  stops_name : (rest : Bytes) → at name_char rest ≡ false → at (in_name lib) rest ≡ false
  stops_name [] h = refl
  stops_name (c ∷ rest) h = ground (arith, h, std.alphanumerics c)

  -- A word that the next byte does not go on is taken whole.
  pub llex_word :
      (c : ℕ) (w rest : Bytes) (si : SemInfo) (ls : LexState) (x : Scan Lexed)
      → name_start c ≡ true
      → All (λ d. name_char d ≡ true) w
      → at name_char rest ≡ false
      → word si (record ls { input = rest; buff = c ∷ w }) ≡ stop x
      → llex lib si (record ls { input = c ∷ w ++ rest }) ≡ x
  unfolding llex round
  llex_word c w rest si ls x h hs ends e = run-stop (round lib si) _ _ (
      switch_word c si (record ls { input = c ∷ w ++ rest; buff = [] }) h
      ∙ ap (word si) (
          save_while_all (in_name lib) w rest (record ls { buff = c ∷ [] }) (name_chars w hs)
            (stops_name rest ends))
      ∙ e)

-- The reserved words, as `luaX_init` marks them.
abbrev all_name : Bytes → Bool
all_name [] = true
all_name (c ∷ w) = name_char c && all_name w

all_name-All : (w : Bytes) → all_name w ≡ true → All (λ c. name_char c ≡ true) w
all_name-All [] h = tt
all_name-All (c ∷ w) h = elim (Bool-cases (name_char c)) [
  | inl e ↦ (e, all_name-All w (rw e at h))
  | inr e ↦ absurd (ground (arith, h, e))
]

abbrev is_word : Bytes → Bool
is_word [] = false
is_word (c ∷ w) = name_start c && all_name w

abbrev words_marked : ℕ → List Bytes → Bool
words_marked i [] = true
words_marked i (w ∷ ws) = (is_word w && reserved w == suc i) && words_marked (suc i) ws

words_marked-get_or :
    (ws : List Bytes) (i k : ℕ)
    → words_marked i ws ≡ true
    → k < length ws
    → (is_word (get_or ws k []) ≡ true) × (reserved (get_or ws k []) ≡ suc (i + k))
words_marked-get_or [] i k h less = absurd (omega arith)
words_marked-get_or (w ∷ ws) i zero h less = (ground (arith, h), ground (arith, h))
words_marked-get_or (w ∷ ws) i (suc k) h less =
    let (named, marked) = words_marked-get_or ws (suc i) k (ground (arith, h)) (omega arith) in
    (named, marked ∙ ap suc (omega arith))

get_or-take :
    {A : Type 0} (xs : List A) (n k : ℕ) (d : A) → k < n → get_or (take n xs) k d ≡ get_or xs k d
get_or-take xs zero k d less = absurd (omega arith)
get_or-take [] (suc n) k d less = refl
get_or-take (x ∷ xs) (suc n) zero d less = refl
get_or-take (x ∷ xs) (suc n) (suc k) d less = get_or-take xs n k d (omega (arith, less))

words_all_marked : words_marked 0 (take num_reserved token_names) ≡ true
unfolding token_names reserved mark bytes_eq
words_all_marked = refl

number_of_words : length (take num_reserved token_names) ≡ num_reserved
unfolding token_names
number_of_words = refl

reserved_word :
    (k : ℕ)
    → k < num_reserved
    → (is_word (get_or token_names k []) ≡ true) × (reserved (get_or token_names k []) ≡ suc k)
reserved_word k less =
    let (named, marked) =
      words_marked-get_or (take num_reserved token_names) 0 k words_all_marked
        (rw number_of_words less) in
    let same = get_or-take token_names num_reserved k [] less in
    (rw (← same) named, rw (← same) (marked ∙ ap suc (omega arith)))

-- The bytes that go on a fixed token: those of names go on a reserved word, and a point goes on `..`,
-- as does a '\0', which `check_next` takes for any character. No byte goes on the other operators.
abbrev pub goes_on : ℕ → ℕ → Bool
goes_on token c =
    if ltb token (first_reserved + num_reserved)
    then name_char c
    else token == concat_token && (c == b'.' || c == 0)

-- `llex` reads the token and its text, and leaves what follows.
abbrev pub Reads : Clib → SemInfo → LexState → ℕ → Bytes → Bytes → Type 0
Reads lib si ls token text rest =
    (b : Bytes) × (llex lib si (record ls { input = text ++ rest })
      ≡ ok (record { token = token; seminfo = si; state = record ls { input = rest; buff = b } }))

module _ (lib : Clib) (std : Standard lib.ctype) where
  keyword :
      (k : ℕ) (w rest : Bytes) (si : SemInfo) (ls : LexState)
      → is_word w ≡ true
      → reserved w ≡ suc k
      → at name_char rest ≡ false
      → llex lib si (record ls { input = w ++ rest })
        ≡ ok (record {
          token = k + first_reserved;
          seminfo = si;
          state = record ls { input = rest; buff = w };
        })
  unfolding word
  keyword k [] rest si ls named marked ends = absurd (ground (arith, named))
  keyword k (c ∷ w) rest si ls named marked ends =
      let st = record ls { input = rest; buff = c ∷ w } in
      let positive : ltb 0 (suc k) ≡ true = ground arith in
      let before : suc k - 1 ≡ k = omega arith in
      let found : word si st ≡ accept (k + first_reserved) si st =
        rw (marked, positive, before) refl in
      llex_word lib std c w rest si ls _ (ground (arith, named))
        (all_name-All w (ground (arith, named))) ends found

  ends_name :
      (k : ℕ) (rest : Bytes)
      → k < num_reserved
      → at (goes_on (k + first_reserved)) rest ≡ false
      → at name_char rest ≡ false
  ends_name k [] less h = refl
  ends_name k (c ∷ rest) less h = ground (arith, h, less)

  operator_cases :
      (k : ℕ)
      → num_reserved ≤ k
      → k < 27
      → (k ≡ 21) ⊎ ((k ≡ 22) ⊎ ((k ≡ 23) ⊎ ((k ≡ 24) ⊎ ((k ≡ 25) ⊎ (k ≡ 26)))))
  operator_cases k h less = ground (arith, h, less)

  operator :
      (c token : ℕ) (rest : Bytes) (si : SemInfo) (ls : LexState)
      → (switch lib c si (record ls { input = c ∷ b'=' ∷ rest; buff = [] })
          ≡ with_equals c token si (record ls { input = b'=' ∷ rest; buff = [] }))
      → Reads lib si ls token (c ∷ b'=' ∷ []) rest
  unfolding llex round with_equals
  operator c token rest si ls e = ([], run-stop (round lib si) _ _ e)

  dots :
      (rest : Bytes) (si : SemInfo) (ls : LexState)
      → Reads lib si ls dots_token (b'.' ∷ b'.' ∷ b'.' ∷ []) rest
  unfolding llex round switch dot check_next strchr
  dots rest si ls = (b'.' ∷ b'.' ∷ b'.' ∷ [], run-stop (round lib si) _ _ refl)

  no_third :
      (rest : Bytes) → at (goes_on concat_token) rest ≡ false → at (strchr (b'.' ∷ [])) rest ≡ false
  unfolding strchr
  no_third [] h = refl
  no_third (c ∷ rest) h = ground (arith, h)

  concatenation :
      (rest : Bytes) (si : SemInfo) (ls : LexState)
      → at (goes_on concat_token) rest ≡ false
      → Reads lib si ls concat_token (b'.' ∷ b'.' ∷ []) rest
  unfolding llex round switch dot check_next strchr
  concatenation rest si ls h =
      let e = no_third rest h in
      (b'.' ∷ b'.' ∷ [], run-stop (round lib si) _ _ (rw (strchr, e) refl))

  operators :
      (k : ℕ) (rest : Bytes) (si : SemInfo) (ls : LexState)
      → num_reserved ≤ k
      → k < 27
      → at (goes_on (k + first_reserved)) rest ≡ false
      → Reads lib si ls (k + first_reserved) (get_or token_names k []) rest
  unfolding token_names switch
  operators k rest si ls h less ends = elim (operator_cases k h less) [
    | inl e ↦ rw e (concatenation rest si ls (rw e at ends))
    | inr (inl e) ↦ rw e (dots rest si ls)
    | inr (inr (inl e)) ↦ rw e (operator b'=' eq_token rest si ls refl)
    | inr (inr (inr (inl e))) ↦ rw e (operator b'>' ge_token rest si ls refl)
    | inr (inr (inr (inr (inl e)))) ↦ rw e (operator b'<' le_token rest si ls refl)
    | inr (inr (inr (inr (inr e)))) ↦ rw e (operator b'~' ne_token rest si ls refl)
  ]

  fixed :
      (k : ℕ) (rest : Bytes) (si : SemInfo) (ls : LexState)
      → k < 27
      → at (goes_on (k + first_reserved)) rest ≡ false
      → Reads lib si ls (k + first_reserved) (get_or token_names k []) rest
  fixed k rest si ls less ends = elim (Bool-cases (ltb k num_reserved)) [
    | inl h ↦
        let (named, marked) = reserved_word k (ltb→lt _ _ h) in
        (
          get_or token_names k [],
          keyword k _ rest si ls named marked (ends_name k rest (ltb→lt _ _ h) ends),
        )
    | inr h ↦ operators k rest si ls (ground (arith, h)) less ends
  ]

-- Each reserved word and each operator of two or three characters, as `luaX_token2str` prints it, is
-- read back as its token, and the rest of the input is left. Behind a reserved word no letter, digit
-- or '_' follows, and behind `..` no point and no '\0'; behind the other operators anything may. The
-- character tests are those of the C locale.
pub llex-token2str :
    (lib : Clib) (number_text : ℕ → Bytes) (k : ℕ) (rest : Bytes) (si : SemInfo) (ls : LexState)
    → Standard lib.ctype
    → first_reserved ≤ k
    → k < number_token
    → at (goes_on k) rest ≡ false
    → Reads lib si ls k (token2str lib.ctype number_text k) rest
unfolding token2str
llex-token2str lib number_text k rest si ls std low high ends =
    let large : ltb k first_reserved ≡ false = ground (arith, low) in
    let back : k - first_reserved + first_reserved ≡ k = omega (arith, low) in
    let ends' = (rw (← back) at ends) in
    let read = fixed lib std (k - first_reserved) rest si ls (omega (arith, low, high)) ends' in
    rw large (rw back at read)
