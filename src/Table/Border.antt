-- ===== src/Table/Border.antt =====
-- What `luaH_getn` of src/ltable.c returns is a border of the table.
use lua_reading.Prelude.{
  ℕ, zero, suc, ◌+◌, ◌-◌, ◌*◌, ◌/◌, ◌^◌, ◌≤◌, ◌<◌, Bool, true, false, not, ◌&&◌, ltb, leb, ◌==◌,
  Option, none, some, length, get_or, ◌≡◌, refl, ◌⊎◌, inl, inr, arith, Bool-cases, Option-cases,
  lt→ltb, ==_iff, ◌∙◌,
}
use native.Mathlib.Nat.{two-pow-succ}
use lua_reading.Prelude.Int.{pos}
use lua_reading.Table.{
  nil, Host, Node, Table, is_nil, find, is_number, number_in_hash, getnum, sizenode, hashnum,
}
use lua_reading.Table.Chains.{search_missing}
use lua_reading.Table.Length.{
  value_at, is_present, bisect, linear_search, double, unbound_search, getn,
}

-- `n` is 0 or present, and `n + 1` is not present.
pub record IsBorder (present : ℕ → Bool) (n : ℕ) : Type 0 where
  pub reached : (n ≡ 0) ⊎ (present n ≡ true)
  pub beyond : present (n + 1) ≡ false

bisect-IsBorder :
    (fuel : ℕ) (present : ℕ → Bool) (i j : ℕ)
    → j - i ≤ fuel
    → i < j
    → (i ≡ 0) ⊎ (present i ≡ true)
    → present j ≡ false
    → IsBorder present (bisect fuel present i j) × (bisect fuel present i j < j)
unfolding bisect
bisect-IsBorder zero present i j h lt low high = absurd (omega arith)
bisect-IsBorder (suc fuel) present i j h lt low high = elim (Bool-cases (ltb 1 (j - i))) [
  | inr near ↦
      let next : i + 1 ≡ j = ground arith in
      rw near (record { reached = low; beyond = rw next high }, lt)
  | inl far ↦
      let m = (i + j) / 2 in
      let wide : 1 < j - i = ground arith in
      elim (Bool-cases (present m)) [
        | inl p ↦
            rw (far, p) (bisect-IsBorder fuel present m j (omega arith) (omega arith) (inr p) high)
        | inr a ↦
            let (border, less) =
              bisect-IsBorder fuel present i m (omega arith) (omega arith) low a in
            rw (far, a) (border, omega arith)
      ]
]

linear_search-IsBorder :
    (fuel : ℕ) (present : ℕ → Bool) (i n : ℕ)
    → 0 < i
    → (i - 1 ≡ 0) ⊎ (present (i - 1) ≡ true)
    → linear_search fuel present i ≡ some n
    → IsBorder present n
unfolding linear_search
linear_search-IsBorder zero present i n positive low e = cc
linear_search-IsBorder (suc fuel) present i n positive low e = elim (Bool-cases (present i)) [
  | inl p ↦
      let back : i + 1 - 1 ≡ i = omega arith in
      linear_search-IsBorder fuel present (i + 1) n (omega arith) (rw back (inr p)) (rw p at e)
  | inr a ↦
      let here : i - 1 ≡ n = ground (arith, e, a) in
      let up : i - 1 + 1 ≡ i = omega arith in
      rw (← here) (record { reached = low; beyond = rw up a })
]

-- The outcome of a search: a border, or a linear search that needs more rounds.
abbrev pub SearchOutcome : (ℕ → Bool) → ℕ → Option ℕ → Type 0
SearchOutcome present linear r =
    ((r ≡ none) × (linear_search linear present 1 ≡ none))
    ⊎ ((n : ℕ) × (r ≡ some n) × IsBorder present n)

linear-SearchOutcome :
    (present : ℕ → Bool) (linear : ℕ)
    → SearchOutcome present linear (linear_search linear present 1)
linear-SearchOutcome present linear = elim (Option-cases (linear_search linear present 1)) [
  | inl e ↦ inl (e, e)
  | inr (n, e) ↦
      inr (n, e, linear_search-IsBorder linear present 1 n (omega arith) (inl (omega arith)) e)
]

double_product : (j d : ℕ) → j * (d + d) ≡ j * 2 * d
double_product j d = omega arith

double-SearchOutcome :
    (linear fuel : ℕ) (present : ℕ → Bool) (i j : ℕ)
    → i < j
    → (i ≡ 0) ⊎ (present i ≡ true)
    → j < 2 ^ 31
    → 2 ^ 31 ≤ j * 2 ^ fuel
    → SearchOutcome present linear (double linear fuel present i j)
unfolding double
double-SearchOutcome linear zero present i j lt low small enough = absurd (omega arith)
double-SearchOutcome linear (suc fuel) present i j lt low small enough =
    elim (Bool-cases (present j)) [
      | inr a ↦ rw a (inr (_, refl, (bisect-IsBorder (j - i) present i j (omega arith) lt low a).0))
      | inl p ↦ elim (Bool-cases (leb (2 ^ 31) (j * 2))) [
        | inl over ↦ rw (p, over) (linear-SearchOutcome present linear)
        | inr under ↦
            let more : 2 ^ 31 ≤ j * 2 * 2 ^ fuel = omega (
              arith,
              two-pow-succ fuel,
              double_product j (2 ^ fuel),
              rw (two-pow-succ fuel) at enough,
            ) in
            rw (p, under)
              (double-SearchOutcome linear fuel present j (j * 2) (omega arith) (inr p)
                (ground (arith, under)) more)
      ]
    ]

in_array_present :
    (host : Host) (t : Table) (k : ℕ)
    → 0 < k
    → k ≤ length t.array
    → is_present host t k ≡ not (is_nil (get_or t.array (k - 1) nil))
unfolding is_present getnum value_at
in_array_present host t zero h le = absurd (omega arith)
in_array_present host t (suc i) h le =
    let inside : ltb i (length t.array) ≡ true = lt→ltb i (length t.array) (omega arith) in
    let back : suc i - 1 ≡ i = omega arith in rw (inside, back) refl

-- The hash part of the dummy node has no number.
dummy_absent :
    (host : Host) (t : Table)
    → ((i : ℕ) → Node.key (t.node i) ≡ nil)
    → is_present host t (length t.array + 1) ≡ false
unfolding is_present getnum value_at number_in_hash find is_number
dummy_absent host t empty =
    let j = length t.array in
    let nk = Host.cast_num host (pos (suc j)) in
    let outside : ltb j j ≡ false = ground arith in
    let test : (k : ℕ) → is_number host nk (Node.key (t.node k)) ≡ false = λ k. rw (empty k) refl in
    let lost =
      search_missing t.node (is_number host nk) (sizenode t + 1) (hashnum host (sizenode t) nk)
        test in
    let up : j + 1 ≡ suc j = omega arith in rw (up, outside, lost) refl

in_array-IsBorder :
    (host : Host) (t : Table) (n : ℕ)
    → n < length t.array
    → IsBorder (λ k. not (is_nil (get_or t.array (k - 1) nil))) n
    → IsBorder (is_present host t) n
in_array-IsBorder host t n less b = record {
  reached = elim b.reached [
    | inl z ↦ inl z
    | inr p ↦ elim (Bool-cases (n == 0)) [
      | inl z ↦ inl ((==_iff n 0).0 z)
      | inr s ↦ inr (in_array_present host t n (ground (arith, s)) (omega arith) ∙ p)
    ]
  ];
  beyond = in_array_present host t (n + 1) (omega arith) (omega arith) ∙ b.beyond;
}

array_full :
    (host : Host) (t : Table)
    → let j = length t.array in
      (ltb 0 j && not (not (is_nil (get_or t.array (j - 1) nil)))) ≡ false
      → (j ≡ 0) ⊎ (is_present host t j ≡ true)
array_full host t outside =
    let j = length t.array in
    elim (Bool-cases (j == 0)) [
      | inl z ↦ inl ((==_iff j 0).0 z)
      | inr s ↦
          let positive : 0 < j = ground (arith, s) in
          inr (in_array_present host t j positive (omega arith) ∙ ground (arith, outside, positive))
    ]

-- In any table with an array part below 2^31 - 1 values, in which the dummy node has no key,
-- `luaH_getn` returns a border (0 or an index with a value, and no value at the next index), unless it
-- has to search one by one and the rounds given for that are not enough.
pub getn-IsBorder :
    (host : Host) (linear : ℕ) (t : Table)
    → length t.array + 1 < 2 ^ 31
    → (t.is_dummy ≡ true → (i : ℕ) → Node.key (t.node i) ≡ nil)
    → SearchOutcome (is_present host t) linear (getn host linear t)
unfolding getn unbound_search is_present getnum number_in_hash find value_at
getn-IsBorder host linear t small dummy =
    let j = length t.array in
    let present : ℕ → Bool = λ k. not (is_nil (get_or t.array (k - 1) nil)) in
    elim (Bool-cases (ltb 0 j && not (present j))) [
      | inl inside ↦
          let some_there : 0 < j = ground (arith, inside) in
          let absent : present j ≡ false = ground (arith, inside) in
          let (border, less) =
            bisect-IsBorder j present 0 j (omega arith) some_there (inl refl) absent in
          rw inside (inr (_, refl, in_array-IsBorder host t (bisect j present 0 j) less border))
      | inr outside ↦
          let low : (j ≡ 0) ⊎ (is_present host t j ≡ true) = array_full host t outside in
          elim (Bool-cases t.is_dummy) [
            | inl d ↦
                rw (outside, d)
                  (inr (j, refl, record { reached = low; beyond = dummy_absent host t (dummy d) }))
            | inr real ↦
                rw (outside, real)
                  (double-SearchOutcome linear 32 (is_present host t) j (j + 1) (omega arith) low
                    small (omega arith))
          ]
    ]
