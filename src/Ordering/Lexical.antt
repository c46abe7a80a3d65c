-- ===== src/Ordering/Lexical.antt =====
-- `l_strcmp` of src/lvm.c compares byte by byte, also behind a '\0', where `strcoll` compares so.
use lua_reading.Prelude.{
  ℕ, zero, suc, ◌<◌, ◌≡◌, refl, sym, ap, ap₂, ◌∙◌, ◌⊎◌, inl, inr, true, false, Option, some, [],
  ◌∷◌, arith, ltb, ◌==◌, if◌then◌else◌, ==_iff, Bool-cases, length, drop, length-drop,
}
use lua_reading.Proto.{Bytes}
use lua_reading.Lexer.Numerals.{c_string}
use lua_reading.Ordering.{
  Sign, less, equal, greater, after_equal, decide, strcmp_loop, l_strcmp, less_than, is_less,
}
use lua_reading.Sorting.{sort}
use lua_reading.Sorting.Partition.{IsAsymmetric}
use lua_reading.Sorting.Sorted.{Sorts, sort-Sorts}

-- The lexicographic order of bytes, a prefix before the longer string.
unfoldable pub lexical : Bytes → Bytes → Sign
lexical [] [] = equal
lexical [] (y ∷ r) = less
lexical (x ∷ l) [] = greater
lexical (x ∷ l) (y ∷ r) =
    let rest = lexical l r in if ltb x y then less else if ltb y x then greater else rest

-- `strcoll` in the C locale: it compares byte by byte.
abbrev pub ComparesBytes : (Bytes → Bytes → Sign) → Type 0
ComparesBytes strcoll =
    (l r : Bytes) → strcoll (c_string l) (c_string r) ≡ lexical (c_string l) (c_string r)

abbrev tail_sign : Sign → Sign → Sign
tail_sign less s = less
tail_sign greater s = greater
tail_sign equal s = s

-- The comparison of the parts up to a '\0', and then of what is behind them.
split_lexical :
    (l r : Bytes)
    → lexical l r
      ≡ tail_sign
          (lexical (c_string l) (c_string r))
          (lexical (drop (length (c_string l)) l) (drop (length (c_string l)) r))
unfolding lexical c_string
split_lexical [] [] = refl
split_lexical [] (y ∷ r) = elim (Bool-cases (y == 0)) [ inl h ↦ rw h refl | inr h ↦ rw h refl ]
split_lexical (x ∷ l) [] = elim (Bool-cases (x == 0)) [ inl h ↦ rw h refl | inr h ↦ rw h refl ]
split_lexical (x ∷ l) (y ∷ r) = elim (Bool-cases (x == 0)) [
  | inl h ↦ elim (Bool-cases (y == 0)) [
    | inl k ↦ rw (h, k) refl
    | inr k ↦ let lt : ltb x y ≡ true = ground (arith, h, k) in rw (h, k, lt) refl
  ]
  | inr h ↦ elim (Bool-cases (y == 0)) [
    | inl k ↦
        let gt : ltb y x ≡ true = ground (arith, h, k) in
        let no_lt : ltb x y ≡ false = ground (arith, h, k) in rw (h, k, gt, no_lt) refl
    | inr k ↦ elim (Bool-cases (ltb x y)) [
      | inl a ↦ rw (h, k, a) refl
      | inr a ↦ elim (Bool-cases (ltb y x)) [
        | inl b ↦ rw (h, k, a, b) refl
        | inr b ↦ rw (h, k, a, b) (split_lexical l r)
      ]
    ]
  ]
]

lexical-equal : (l r : Bytes) → lexical l r ≡ equal → l ≡ r
unfolding lexical
lexical-equal [] [] e = refl
lexical-equal [] (y ∷ r) e = cc
lexical-equal (x ∷ l) [] e = cc
lexical-equal (x ∷ l) (y ∷ r) e = elim (Bool-cases (ltb x y)) [
  | inl a ↦ let clash = (rw a at e) in cc
  | inr a ↦ elim (Bool-cases (ltb y x)) [
    | inl b ↦ let clash = (rw (a, b) at e) in cc
    | inr b ↦
        let same : x ≡ y = ground (arith, a, b) in
        ap₂ (λ z zs. z ∷ zs) same (lexical-equal l r (rw (a, b) at e))
  ]
]

-- Behind the part up to a '\0' there is nothing, or the '\0'.
abbrev Behind : ℕ → Bytes → Type 0
Behind n l = ((drop n l ≡ []) × (length l ≡ n)) ⊎ ((drop n l ≡ 0 ∷ drop (suc n) l) × (n < length l))

behind : (l : Bytes) → Behind (length (c_string l)) l
unfolding c_string
behind [] = inl (refl, refl)
behind (x ∷ l) = elim (Bool-cases (x == 0)) [
  | inl h ↦ rw (h, (==_iff x 0).0 h) (inr (refl, omega arith))
  | inr h ↦
      rw h (elim (behind l) [
        | inl (e, n) ↦ inl (e, ap suc n)
        | inr (e, n) ↦ inr (e, omega (arith, n))
      ])
]

module _ (strcoll : Bytes → Bytes → Sign) where
  after_equal-lexical :
      (again : Bytes → Bytes → Option Sign) (n : ℕ) (l r : Bytes)
      → length (c_string l) ≡ n
      → length (c_string r) ≡ n
      → ((l' r' : Bytes) → length l' < length l → again l' r' ≡ some (lexical l' r'))
      → after_equal strcoll again n l r ≡ some (lexical (drop n l) (drop n r))
  unfolding after_equal lexical
  after_equal-lexical again n l r p q ih =
      let of_l : Behind n l = (let b = behind l in (rw p at b)) in
      let of_r : Behind n r = (let b = behind r in (rw q at b)) in
      let same : n == n ≡ true = ground arith in
      elim of_l [
        | inl (e, len) ↦ elim of_r [
          | inl (e', len') ↦ rw (e, e', len, len', same) refl
          | inr (e', len') ↦
              let more : n == length r ≡ false = ground (arith, len') in
              rw (e, e', len, more, same) refl
        ]
        | inr (e, len) ↦
            let longer : n == length l ≡ false = ground (arith, len) in
            elim of_r [
              | inl (e', len') ↦ rw (e, e', len', longer, same) refl
              | inr (e', len') ↦
                  let more : n == length r ≡ false = ground (arith, len') in
                  rw (e, e', longer, more)
                    (ih (drop (suc n) l) (drop (suc n) r)
                      (omega (arith, len, length-drop (suc n) l)))
            ]
      ]

  decided :
      (again : Bytes → Bytes → Option Sign) (l r : Bytes) (s : Sign)
      → ((l' r' : Bytes) → length l' < length l → again l' r' ≡ some (lexical l' r'))
      → lexical (c_string l) (c_string r) ≡ s
      → decide strcoll s (after_equal strcoll again (length (c_string l)) l r)
        ≡ some (tail_sign s (lexical (drop (length (c_string l)) l) (drop (length (c_string l)) r)))
  decided again l r less ih e = refl
  decided again l r greater ih e = refl
  decided again l r equal ih e =
      after_equal-lexical again (length (c_string l)) l r refl
        (ap length (sym (lexical-equal _ _ e))) ih

  module _ (bytes : ComparesBytes strcoll) where
    strcmp_loop-lexical :
        (fuel : ℕ) (l r : Bytes)
        → length l < fuel
        → strcmp_loop strcoll fuel l r ≡ some (lexical l r)
    unfolding strcmp_loop
    strcmp_loop-lexical zero l r h = absurd (omega arith)
    strcmp_loop-lexical (suc fuel) l r h =
        rw (bytes l r, split_lexical l r)
          (decided (strcmp_loop strcoll fuel) l r (lexical (c_string l) (c_string r))
            (λ l' r' less'. strcmp_loop-lexical fuel l' r' (omega (arith, less', h))) refl)

    -- With `strcoll` as in the C locale, `l_strcmp` ends and is the lexicographic order of the bytes,
    -- those behind a '\0' included.
    pub l_strcmp-lexical : (l r : Bytes) → l_strcmp strcoll l r ≡ some (lexical l r)
    unfolding l_strcmp
    l_strcmp-lexical l r = strcmp_loop-lexical (suc (length l)) l r (omega arith)

abbrev flip : Sign → Sign
flip less = greater
flip equal = equal
flip greater = less

opposite : (s : Sign) → is_less (some s) ≡ true → is_less (some (flip s)) ≡ false
opposite less e = refl
opposite equal e = cc
opposite greater e = cc

lexical-flip : (l r : Bytes) → lexical r l ≡ flip (lexical l r)
unfolding lexical
lexical-flip [] [] = refl
lexical-flip [] (y ∷ r) = refl
lexical-flip (x ∷ l) [] = refl
lexical-flip (x ∷ l) (y ∷ r) = elim (Bool-cases (ltb x y)) [
  | inl a ↦ let b : ltb y x ≡ false = ground (arith, a) in rw (a, b) refl
  | inr a ↦ elim (Bool-cases (ltb y x)) [
    | inl b ↦ rw (a, b) refl
    | inr b ↦ rw (a, b) (lexical-flip l r)
  ]
]

module _ (strcoll : Bytes → Bytes → Sign) (bytes : ComparesBytes strcoll) where
  less_than-IsAsymmetric : IsAsymmetric (less_than strcoll)
  unfolding less_than
  less_than-IsAsymmetric l r h =
      let forth = ap is_less (l_strcmp-lexical strcoll bytes l r) in
      let back = ap is_less (l_strcmp-lexical strcoll bytes r l ∙ ap some (lexical-flip l r)) in
      back ∙ opposite (lexical l r) (sym forth ∙ h)

  -- `table.sort` without an order function puts strings in the order of `l_strcmp`: with `strcoll` as
  -- in the C locale no string comes before the one in front of it, no error is raised, the result is
  -- made by exchanges, and nothing outside moves.
  pub sort-less_than :
      (n : ℕ) (a : ℕ → Bytes) → Sorts (less_than strcoll) 1 n a (sort (less_than strcoll) n a)
  sort-less_than n a = sort-Sorts (less_than strcoll) n a less_than-IsAsymmetric
