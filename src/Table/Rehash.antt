-- ===== src/Table/Rehash.antt =====
-- `rehash` of src/ltable.c finds sizes into which the entries of the table and the new key fit.
use lua_reading.Prelude.{
  ℕ, zero, suc, ◌+◌, ◌-◌, ◌*◌, ◌/◌, ◌^◌, ◌≤◌, ltb, leb, ◌==◌, ◌≡◌, ◌⊎◌, inl, inr, arith,
  if◌then◌else◌, Bool-cases, List, [], ◌∷◌, length, drop,
}
use native.Mathlib.Nat.{two-pow-succ}
use lua_reading.Table.{Value, Host, Node, Table, sizenode}
use lua_reading.Table.Keys.{ComparesNumbers}
use lua_reading.Table.Traversal.{arrayindex}
use lua_reading.Table.Visits.{ConvertsIndices}
use lua_reading.Table.Lookup.{SameIntegers}
use lua_reading.Table.Sizes.{
  Counts, IsUsedByHalf, keys_below, count_slice, count_slices, computesizes,
  computesizes-IsUsedByHalf,
}
use lua_reading.Table.Counting.{Tally, numusehash, numusearray}
use lua_reading.Table.Powers.{two-pow_mono}
use lua_reading.Table.Growth.{answer, throws, table_overflow, tally, rehash, newkey_at}
use lua_reading.Table.Store.{IsLive}
use lua_reading.Table.Refill.{index_fits, count_values, count_hashed}
use lua_reading.Table.Tallies.{
  top, IsBounded, keys_below-count_index, count_index-IsBounded, numusehash-Accounts,
  numusehash-IsBounded,
}
use lua_reading.Table.Slots.{none_yet, numusearray-Accounts, numusearray-IsBounded}
use lua_reading.Table.Resize.{IsResized, resize-IsResized}

count_slice-bounded :
    (nums : ℕ → ℕ) (i : ℕ) (c : Counts)
    → IsBounded nums
    → c.n ≤ 2 ^ 26
    → Counts.n (count_slice nums i (2 ^ i) c) ≤ 2 ^ 26
unfolding count_slice
count_slice-bounded nums i c b h = elim (Bool-cases (leb i 26)) [
  | inl low ↦ ground (arith, h, two-pow_mono i 26 (ground (arith, low)))
  | inr high ↦ ground (arith, h, b i (ground (arith, high)))
]

count_slices-bounded :
    (fuel : ℕ) (nums : ℕ → ℕ) (narray i : ℕ) (c : Counts)
    → IsBounded nums
    → c.n ≤ 2 ^ 26
    → Counts.n (count_slices fuel nums narray i (2 ^ i) c) ≤ 2 ^ 26
unfolding count_slices
count_slices-bounded zero nums narray i c b h = h
count_slices-bounded (suc fuel) nums narray i c b h =
    let c' = count_slice nums i (2 ^ i) c in
    let h' = count_slice-bounded nums i c b h in
    let s : i + 1 ≡ suc i = omega arith in
    let twice : 2 ^ i * 2 ≡ 2 ^ (suc i) = omega (arith, two-pow-succ i) in
    elim (Bool-cases (ltb (2 ^ i / 2) narray)) [
      | inr done ↦ rw done h
      | inl more ↦ elim (Bool-cases (c'.a == narray)) [
        | inl all ↦ rw (more, all) h'
        | inr some ↦
            rw (more, some, s, twice) (count_slices-bounded fuel nums narray (suc i) c' b h')
      ]
    ]

computesizes-bounded :
    (nums : ℕ → ℕ) (narray : ℕ) → IsBounded nums → (computesizes nums narray).0 ≤ 2 ^ 26
unfolding computesizes
computesizes-bounded nums narray b =
    count_slices-bounded 32 nums narray 0 (record { a = 0; na = 0; n = 0 }) b (omega arith)

-- The size is a number of whole slices, and the count is that of their keys.
computesizes_slices :
    (nums : ℕ → ℕ) (narray : ℕ)
    → IsBounded nums
    → let (n, na) = computesizes nums narray in
      (m : ℕ) × (m ≤ 27) × (n ≡ top m) × (na ≡ keys_below nums m)
computesizes_slices nums narray b =
    let small = computesizes-bounded nums narray b in
    elim (IsUsedByHalf.half (computesizes-IsUsedByHalf nums narray)) [
      | inl (e, e') ↦ (0, omega arith, e, e')
      | inr (k, e, _, e') ↦ (
        suc k,
        elim (Bool-cases (leb k 26)) [
          | inl low ↦ ground (arith, low)
          | inr high ↦ absurd (omega (arith, small, e, two-pow_mono 27 k (ground (arith, high))))
        ],
        e,
        e',
      )
    ]

-- The entries of a table.
abbrev pub entries : Host → Table → ℕ
entries host t = count_values t.array + count_hashed host 0 t.node (sizenode t)

-- 1 for a key that does not go to an array part of `n` values.
abbrev pub new_hashed : Host → Value → ℕ → ℕ
new_hashed host key n = if index_fits n (arrayindex host key) then 0 else 1

-- What `rehash` decides on: an array part that is not too large, and for the hash part as many nodes
-- as there are entries that do not go to the array part, the new key among them.
pub record Fits (host : Host) (t : Table) (ek : Value) (n nhsize : ℕ) : Type 0 where
  pub few : n ≤ 2 ^ 26
  pub room_for_all :
      count_values (drop n t.array) + count_hashed host n t.node (sizenode t) + new_hashed host ek n
      ≡ nhsize
  pub not_above : nhsize ≤ entries host t + 1

module _ (host : Host) (t : Table) (ok : IsLive host t) (ek : Value) where
  tally_slices :
      (m : ℕ)
      → m ≤ 27
      → let c = tally host t ek in
        c.total
        ≡ keys_below c.nums m
          + count_values (drop (top m) t.array)
          + count_hashed host (top m) t.node (sizenode t)
          + new_hashed host ek (top m)
  unfolding tally
  tally_slices m h =
      let c = numusearray t.array 27 0 1 1 (none_yet t.array) in
      let c' = numusehash host t.node (sizenode t) c in
      let (total, keys) = numusearray-Accounts t.array m ok.small_array in
      let nodes = numusehash-Accounts host m t.node (sizenode t) c h in
      let new = keys_below-count_index host m (arrayindex host ek) c'.nums h in
      elim (Bool-cases (index_fits (top m) (arrayindex host ek))) [
        | inl fits ↦ rw fits (omega (arith, total, keys, nodes, (rw fits at new)))
        | inr out ↦ rw out (omega (arith, total, keys, nodes, (rw out at new)))
      ]

  tally-IsBounded : IsBounded (Tally.nums (tally host t ek))
  unfolding tally
  tally-IsBounded =
      count_index-IsBounded host (arrayindex host ek) _
        (numusehash-IsBounded host t.node (sizenode t) _ (numusearray-IsBounded t.array))

  count_values-le : (xs : List Value) → count_values xs ≤ length xs
  count_values-le [] = omega arith
  count_values-le (x ∷ xs) = ground (arith, count_values-le xs)

  count_hashed-le : (n : ℕ) (node : ℕ → Node) (i : ℕ) → count_hashed host n node i ≤ i
  count_hashed-le n node zero = omega arith
  count_hashed-le n node (suc i) = ground (arith, count_hashed-le n node i)

  -- The sizes that `rehash` computes from its counts fit: the array part is not above 2 ^ 26, and the
  -- hash part gets as many nodes as there are entries of the table that do not go to the array part,
  -- with the new key if it does not; so no more than the entries and one. The table is well formed,
  -- and its parts are not above their largest sizes.
  pub rehash-Fits :
      let c = tally host t ek in
      let (n, na) = computesizes c.nums c.ause in Fits host t ek n (c.total - na)
  rehash-Fits =
      let c = tally host t ek in
      let (m, h, n_is, na_is) = computesizes_slices c.nums c.ause tally-IsBounded in
      let parts = tally_slices m h in
      let all = tally_slices 0 (omega arith) in
      let one : new_hashed host ek 0 ≤ 1 = ground arith in
      record {
        few = computesizes-bounded c.nums c.ause tally-IsBounded;
        room_for_all = rw (n_is, na_is) (omega (arith, parts));
        not_above = omega (arith, all, one);
      }

module _ (host : Host) (law : ComparesNumbers host) (ints : SameIntegers host)
    (indices : ConvertsIndices host (2 ^ 26)) (t : Table) (ok : IsLive host t) (ek : Value) where
  pub rehash-IsResized :
      (depth : ℕ)
      → ((2 ^ 26 ≤ entries host t)
          × (rehash host (newkey_at host (suc depth)) t ek ≡ throws table_overflow))
        ⊎ ((t' : Table) × (n : ℕ) × (rehash host (newkey_at host (suc depth)) t ek ≡ answer t')
            × IsResized host t n (new_hashed host ek n) t')
  unfolding rehash
  rehash-IsResized depth =
      let c = tally host t ek in
      let n = (computesizes c.nums c.ause).0 in
      let nhsize = c.total - (computesizes c.nums c.ause).1 in
      let fits = rehash-Fits host t ok ek in
      let values = count_values-le host t ok ek t.array in
      let nodes = count_hashed-le host t ok ek 0 t.node (sizenode t) in
      let small = two-pow_mono t.lsizenode 26 ok.small_hash in
      elim (resize-IsResized host law ints indices t ok n (new_hashed host ek n) depth nhsize
        fits.few (omega (arith, fits.not_above, values, nodes, small, ok.small_array))
        (omega (arith, fits.room_for_all))) [
          | inl (over, e) ↦ inl (omega (arith, over, fits.not_above), e)
          | inr (t', e, r) ↦ inr (t', n, e, r)
        ]
