-- ===== src/Table/Tallies.antt =====
-- The counts of `rehash` in src/ltable.c are those of the entries of a table.
use lua_reading.Prelude.{
  ℕ, zero, suc, ◌+◌, ◌^◌, ◌≤◌, ◌<◌, true, false, ◌&&◌, ltb, leb, ◌≡◌, refl, inl, inr, arith,
  if◌then◌else◌, Bool-cases,
}
use lua_reading.Prelude.Int.{ℤ, pos, negsuc}
use lua_reading.Table.{Value, Host, Node, is_nil}
use lua_reading.Table.Traversal.{arrayindex}
use lua_reading.Table.Sizes.{keys_below}
use lua_reading.Table.Counting.{Tally, add_at, ceillog2, count_index, countint, numusehash}
use lua_reading.Table.Powers.{ceillog2-le, two-pow_mono}
use lua_reading.Table.Refill.{index_fits, hashed, count_hashed}

-- The largest index in the first `m` slices.
abbrev pub top : ℕ → ℕ
top zero = 0
top (suc k) = 2 ^ k

-- No key is counted in a slice that the array part cannot have.
abbrev pub IsBounded : (ℕ → ℕ) → Type 0
IsBounded nums = (i : ℕ) → 26 < i → nums i ≡ 0

pub keys_below-add_at :
    (nums : ℕ → ℕ) (j n m : ℕ)
    → keys_below (add_at nums j n) m ≡ keys_below nums m + (if ltb j m then n else 0)
keys_below-add_at nums j n zero = ground arith
keys_below-add_at nums j n (suc m) = ground (arith, keys_below-add_at nums j n m)

pub add_at-IsBounded :
    (nums : ℕ → ℕ) (j n : ℕ) → j ≤ 26 → IsBounded nums → IsBounded (add_at nums j n)
add_at-IsBounded nums j n h b i over = ground (arith, b i)

-- An index is in the first `m` slices if it fits below their top.
slice_fits :
    (m x : ℕ)
    → m ≤ 27
    → (if ltb 0 x && leb x (2 ^ 26) then ltb (ceillog2 x) m else false) ≡ index_fits (top m) (pos x)
slice_fits zero x h = ground arith
slice_fits (suc k) x h = elim (Bool-cases (ltb 0 x && leb x (2 ^ 26))) [
  | inr f ↦ rw f (ground (arith, f, two-pow_mono k 26 (omega arith)))
  | inl e ↦
      let low : 1 ≤ x = ground (arith, e) in
      let high : x ≤ 2 ^ 32 = ground (arith, e) in
      rw e (ground (arith, ceillog2-le x k low high, low))
]

module _ (host : Host) where
  pub keys_below-count_index :
      (m : ℕ) (z : ℤ) (nums : ℕ → ℕ)
      → m ≤ 27
      → keys_below (count_index host z nums).0 m
        ≡ keys_below nums m + (if index_fits (top m) z then 1 else 0)
  unfolding count_index
  keys_below-count_index m (negsuc k) nums h = omega arith
  keys_below-count_index m (pos x) nums h = elim (Bool-cases (ltb 0 x && leb x (2 ^ 26))) [
    | inr f ↦ rw f (let s = (rw f at (slice_fits m x h)) in rw (← s) (omega arith))
    | inl e ↦
        rw e (
          let s = (rw e at (slice_fits m x h)) in
          rw (← s) (keys_below-add_at nums (ceillog2 x) 1 m))
  ]

  pub count_index-IsBounded :
      (z : ℤ) (nums : ℕ → ℕ) → IsBounded nums → IsBounded (count_index host z nums).0
  unfolding count_index
  count_index-IsBounded (negsuc k) nums b = b
  count_index-IsBounded (pos x) nums b = elim (Bool-cases (ltb 0 x && leb x (2 ^ 26))) [
    | inr f ↦ rw f b
    | inl e ↦ rw e (
        add_at-IsBounded nums (ceillog2 x) 1
          ((ceillog2-le x 26 (ground (arith, e)) (ground (arith, e))).1 (ground (arith, e))) b)
  ]

  -- The counts with one entry more.
  abbrev counted : Value → Tally → Tally
  counted key c = record {
    nums = (countint host key c.nums).0;
    ause = c.ause + (countint host key c.nums).1;
    total = c.total + 1;
  }

  module _ (node : ℕ → Node) (i : ℕ) (c : Tally) where
    numusehash-empty :
        is_nil (Node.val (node i)) ≡ true
        → numusehash host node (suc i) c ≡ numusehash host node i c
    unfolding numusehash
    numusehash-empty e = rw e refl

    numusehash-full :
        is_nil (Node.val (node i)) ≡ false
        → numusehash host node (suc i) c ≡ numusehash host node i (counted (Node.key (node i)) c)
    unfolding numusehash
    numusehash-full e = rw e refl

  hashed-full :
      (n : ℕ) (x : Node)
      → is_nil (Node.val x) ≡ false
      → hashed host n x + (if index_fits n (arrayindex host (Node.key x)) then 1 else 0) ≡ 1
  hashed-full n x e = rw e (ground arith)

  -- What the counts `c'` have more than `c` in all, they have in the slices below `m`, or it is `rest`.
  abbrev pub Accounts : ℕ → Tally → Tally → ℕ → Type 0
  Accounts m c c' rest = c'.total + keys_below c.nums m ≡ c.total + keys_below c'.nums m + rest

  pub numusehash-Accounts :
      (m : ℕ) (node : ℕ → Node) (i : ℕ) (c : Tally)
      → m ≤ 27
      → Accounts m c (numusehash host node i c) (count_hashed host (top m) node i)
  unfolding numusehash
  numusehash-Accounts m node zero c h = omega arith
  numusehash-Accounts m node (suc i) c h = elim (Bool-cases (is_nil (Node.val (node i)))) [
    | inl empty ↦
        let none : hashed host (top m) (node i) ≡ 0 = rw empty refl in
        rw (numusehash-empty node i c empty) (omega (arith, none, numusehash-Accounts m node i c h))
    | inr full ↦
        let c' = counted (Node.key (node i)) c in
        rw (numusehash-full node i c full) (
          omega (
            arith,
            hashed-full (top m) (node i) full,
            keys_below-count_index m (arrayindex host (Node.key (node i))) c.nums h,
            numusehash-Accounts m node i c' h,
          ))
  ]

  pub numusehash-IsBounded :
      (node : ℕ → Node) (i : ℕ) (c : Tally)
      → IsBounded c.nums
      → IsBounded (Tally.nums (numusehash host node i c))
  unfolding numusehash
  numusehash-IsBounded node zero c b = b
  numusehash-IsBounded node (suc i) c b = elim (Bool-cases (is_nil (Node.val (node i)))) [
    | inl empty ↦ rw (numusehash-empty node i c empty) (numusehash-IsBounded node i c b)
    | inr full ↦ rw (numusehash-full node i c full) (
        numusehash-IsBounded node i _
          (count_index-IsBounded (arrayindex host (Node.key (node i))) c.nums b))
  ]
