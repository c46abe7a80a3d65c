-- ===== src/Table/Slots.antt =====
-- `numusearray` of src/ltable.c counts the values of the array part.
use lua_reading.Prelude.{
  ℕ, zero, suc, ◌+◌, ◌-◌, ◌*◌, ◌^◌, ◌≤◌, true, false, ◌&&◌, ltb, leb, ◌≡◌, refl, Bool, ap, ◌∙◌, inl,
  inr, arith, if◌then◌else◌, Bool-cases, List, length, drop,
}
use native.Mathlib.Nat.{two-pow-succ}
use lua_reading.Table.{Value}
use lua_reading.Table.Sizes.{keys_below}
use lua_reading.Table.Counting.{Tally, add_at, count_slots, numusearray}
use lua_reading.Table.Powers.{two-pow_mono}
use lua_reading.Table.Refill.{count_values}
use lua_reading.Table.Tallies.{top, IsBounded, keys_below-add_at, add_at-IsBounded}
use lua_reading.Table.Values.{count_drop_end, count_slots-drop}

top_mono : (m n : ℕ) → m ≤ n → top m ≤ top n
top_mono zero n h = omega arith
top_mono (suc m) zero h = absurd (omega arith)
top_mono (suc m) (suc n) h = two-pow_mono m n (omega arith)

module _ (array : List Value) where
  -- The values behind the first `m` slices.
  abbrev behind : ℕ → ℕ
  behind m = count_values (drop (top m) array)

  abbrev slice_or : ℕ → ℕ → ℕ
  slice_or m lg = if leb m lg then lg else m

  abbrev limit : ℕ → ℕ
  limit lg = if ltb (length array) (2 ^ lg) then length array else 2 ^ lg

  abbrev slots : ℕ → ℕ
  slots lg = count_slots array (limit lg + 1 - suc (top lg)) (suc (top lg))

  abbrev is_last : ℕ → Bool
  is_last lg = ltb (length array) (2 ^ lg) && ltb (limit lg) (suc (top lg))

  slots_lem : (lg : ℕ) → is_last lg ≡ false → slots lg + behind (suc lg) ≡ behind lg
  slots_lem lg e = elim (Bool-cases (ltb (length array) (2 ^ lg))) [
    | inr whole ↦
        let fits : 2 ^ lg ≤ length array = ground (arith, whole) in
        let left : 2 ^ lg + 1 - suc (top lg) ≡ 2 ^ lg - top lg = omega arith in
        let sum : top lg + (2 ^ lg - top lg) ≡ 2 ^ lg =
          omega (arith, top_mono lg (suc lg) (omega arith)) in
        rw (whole, left)
          (rw sum at (count_slots-drop array (2 ^ lg - top lg) (top lg) (omega (arith, sum, fits))))
    | inl over ↦
        let e' : ltb (length array) (suc (top lg)) ≡ false = (rw over at e) in
        let left : length array + 1 - suc (top lg) ≡ length array - top lg = omega arith in
        let sum : top lg + (length array - top lg) ≡ length array = ground (arith, e') in
        let all =
          (rw sum at
            (count_slots-drop array (length array - top lg) (top lg) (omega (arith, sum)))) in
        rw (over, left)
          (omega (
            arith,
            all,
            count_drop_end array (length array) (omega arith),
            count_drop_end array (2 ^ lg) (ground (arith, over)),
          ))
  ]

  abbrev with_slice : ℕ → Tally → Tally
  with_slice lg c = record {
    nums = add_at c.nums lg (slots lg);
    ause = c.ause + slots lg;
    total = c.total + slots lg;
  }

  -- The loop from slice `lg` on.
  abbrev from_slice : ℕ → ℕ → Tally → Tally
  from_slice rounds lg c = numusearray array rounds lg (2 ^ lg) (suc (top lg)) c

  past_end :
      (rounds lg : ℕ) (c : Tally)
      → ltb (length array) (2 ^ lg) ≡ true
      → numusearray array rounds (lg + 1) (2 ^ lg * 2) (length array + 1) c ≡ c
  unfolding numusearray
  past_end zero lg c over = refl
  past_end (suc rounds) lg c over =
      let over' : ltb (length array) (2 ^ lg * 2) ≡ true = ground (arith, over) in
      let last : ltb (length array) (length array + 1) ≡ true = ground arith in
      rw (over', last) refl

  module _ (rounds lg : ℕ) (c : Tally) where
    from_slice-last : is_last lg ≡ true → from_slice (suc rounds) lg c ≡ c
    unfolding numusearray
    from_slice-last e = rw e refl

    from_slice-more :
        ltb (length array) (2 ^ lg) ≡ false
        → from_slice (suc rounds) lg c ≡ from_slice rounds (suc lg) (with_slice lg c)
    unfolding numusearray
    from_slice-more e =
        let next : lg + 1 ≡ suc lg = omega arith in
        let twice : 2 ^ lg * 2 ≡ 2 ^ (suc lg) = omega (arith, two-pow-succ lg) in
        let after : 2 ^ lg + 1 ≡ suc (2 ^ lg) = omega arith in
        rw (numusearray, e, next, twice, after) refl

    -- Behind the end of the array the loop is left.
    from_slice-over :
        is_last lg ≡ false
        → ltb (length array) (2 ^ lg) ≡ true
        → from_slice (suc rounds) lg c ≡ with_slice lg c
    unfolding numusearray
    from_slice-over e over =
        let lim : limit lg ≡ length array = rw over refl in
        rw (numusearray, e)
          (ap (λ l. numusearray array rounds (lg + 1) (2 ^ lg * 2) (l + 1) (with_slice lg c)) lim
            ∙ past_end rounds lg (with_slice lg c) over)

  behind-end : (m : ℕ) → length array ≤ top m → behind m ≡ 0
  behind-end m h = count_drop_end array (top m) h

  slice_or-le : (m lg : ℕ) → lg ≤ slice_or m lg
  slice_or-le m lg = ground arith

  stop_lem : (lg : ℕ) (c : Tally) → from_slice 0 lg c ≡ c
  unfolding numusearray
  stop_lem lg c = refl

  added_before :
      (m lg : ℕ) (c : Tally)
      → leb m lg ≡ true
      → keys_below (add_at c.nums lg (slots lg)) m ≡ keys_below c.nums m
  added_before m lg c h =
      let out : ltb lg m ≡ false = ground (arith, h) in
      let same = keys_below-add_at c.nums lg (slots lg) m in
      let same' : keys_below (add_at c.nums lg (slots lg)) m ≡ keys_below c.nums m + 0 =
        same ∙ rw out refl in
      omega (arith, same')

  added_in_front :
      (m lg : ℕ) (c : Tally)
      → leb m lg ≡ false
      → keys_below (add_at c.nums lg (slots lg)) m ≡ keys_below c.nums m + slots lg
  added_in_front m lg c h =
      let inside : ltb lg m ≡ true = ground (arith, h) in
      keys_below-add_at c.nums lg (slots lg) m ∙ rw inside refl

  slice_or_next : (m lg : ℕ) → leb m lg ≡ false → slice_or m (suc lg) ≡ m
  slice_or_next m lg h = ground (arith, h)

  slice_or_before : (m lg : ℕ) → leb m lg ≡ true → slice_or m (suc lg) ≡ suc lg
  slice_or_before m lg h = ground (arith, h)

  slice_keys :
      (m lg : ℕ) (c : Tally)
      → is_last lg ≡ false
      → length array ≤ 2 ^ lg
      → keys_below (add_at c.nums lg (slots lg)) m + behind (slice_or m lg)
        ≡ keys_below c.nums m + behind lg
  slice_keys m lg c more short = elim (Bool-cases (leb m lg)) [
    | inl before ↦ rw before (omega (arith, added_before m lg c before))
    | inr in_front ↦
        let end = behind-end (suc lg) short in
        let end' =
          behind-end m (omega (arith, short, top_mono (suc lg) m (ground (arith, in_front)))) in
        rw in_front (omega (arith, end, end', slots_lem lg more, added_in_front m lg c in_front))
  ]

  numusearray_parts :
      (m rounds lg : ℕ) (c : Tally)
      → rounds + lg ≡ 27
      → length array ≤ 2 ^ 26
      → let c' = from_slice rounds lg c in
        (c'.total ≡ c.total + behind lg)
        × (keys_below c'.nums m + behind (slice_or m lg) ≡ keys_below c.nums m + behind lg)
  numusearray_parts m zero lg c e h =
      let end = behind-end lg (omega (arith, h, top_mono 27 lg (omega arith))) in
      let end' =
        behind-end (slice_or m lg)
          (omega (arith, h, top_mono 27 (slice_or m lg) (omega (arith, slice_or-le m lg)))) in
      (
        omega (arith, end, ap Tally.total (stop_lem lg c)),
        omega (arith, end, end', ap (λ (x : Tally). keys_below x.nums m) (stop_lem lg c)),
      )
  numusearray_parts m (suc rounds) lg c e h = elim (Bool-cases (is_last lg)) [
    | inl last ↦
        let short : length array ≤ top lg = ground (arith, last) in
        let end = behind-end lg short in
        let end' =
          behind-end (slice_or m lg)
            (omega (arith, short, top_mono lg (slice_or m lg) (slice_or-le m lg))) in
        rw (from_slice-last rounds lg c last) (omega (arith, end), omega (arith, end, end'))
    | inr more ↦ elim (Bool-cases (ltb (length array) (2 ^ lg))) [
      | inl over ↦
          let end = behind-end (suc lg) (ground (arith, over)) in
          rw (from_slice-over rounds lg c more over)
            (omega (arith, end, slots_lem lg more), slice_keys m lg c more (ground (arith, over)))
      | inr whole ↦
          let (total, keys) =
            numusearray_parts m rounds (suc lg) (with_slice lg c) (omega (arith, e)) h in
          rw (from_slice-more rounds lg c whole) (
            omega (arith, total, slots_lem lg more),
            elim (Bool-cases (leb m lg)) [
              | inl before ↦ rw before (
                  omega (
                    arith,
                    keys,
                    added_before m lg c before,
                    ap behind (slice_or_before m lg before),
                  ))
              | inr in_front ↦ rw in_front (
                  omega (
                    arith,
                    keys,
                    slots_lem lg more,
                    added_in_front m lg c in_front,
                    ap behind (slice_or_next m lg in_front),
                  ))
            ],
          )
    ]
  ]

  -- What a count starts from.
  abbrev pub none_yet : Tally
  none_yet = record { nums = λ i. 0; ause = 0; total = 0 }

  keys_below-zero : (m : ℕ) → keys_below (λ i. 0) m ≡ 0
  keys_below-zero zero = refl
  keys_below-zero (suc m) = omega (arith, keys_below-zero m)

  -- The values of the array part are counted in the slices below the top, or are behind it.
  pub numusearray-Accounts :
      (m : ℕ)
      → length array ≤ 2 ^ 26
      → let c = numusearray array 27 0 1 1 none_yet in
        (c.total ≡ count_values array)
        × (keys_below c.nums m + count_values (drop (top m) array) ≡ count_values array)
  numusearray-Accounts m h =
      let (total, keys) = numusearray_parts m 27 0 none_yet refl h in
      let at_m : slice_or m 0 ≡ m = ground arith in
      (omega (arith, total), omega (arith, keys, ap behind at_m, keys_below-zero m))

  from_slice-IsBounded :
      (rounds lg : ℕ) (i : ℕ) (ttlg : ℕ) (c : Tally)
      → rounds + lg ≤ 27
      → IsBounded c.nums
      → IsBounded (Tally.nums (numusearray array rounds lg ttlg i c))
  unfolding numusearray
  from_slice-IsBounded zero lg i ttlg c h b = b
  from_slice-IsBounded (suc rounds) lg i ttlg c h b =
      let lim = if ltb (length array) ttlg then length array else ttlg in
      elim (Bool-cases (ltb (length array) ttlg && ltb lim i)) [
        | inl last ↦ rw (numusearray, last) b
        | inr more ↦
            rw (numusearray, more)
              (from_slice-IsBounded rounds (lg + 1) (lim + 1) (ttlg * 2) _ (omega (arith, h))
                (add_at-IsBounded c.nums lg _ (omega (arith, h)) b))
      ]

  pub numusearray-IsBounded : IsBounded (Tally.nums (numusearray array 27 0 1 1 none_yet))
  numusearray-IsBounded = from_slice-IsBounded 27 0 1 1 none_yet (omega arith) (λ i h. refl)
