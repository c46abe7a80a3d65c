-- ===== src/Table/Resize.antt =====
-- `resize` of src/ltable.c keeps what the table holds.
use lua_reading.Prelude.{
  ℕ, suc, ◌+◌, ◌^◌, ◌≤◌, ◌<◌, true, false, ltb, ◌≡◌, refl, sym, ap, ◌∙◌, ◌⊎◌, inl, inr, arith,
  if◌then◌else◌, Bool-cases, length, length-drop, get_or, take, drop,
}
use lua_reading.Table.{Value, nil, Host, Node, Table, Place, sizenode, is_nil}
use lua_reading.Table.Keys.{ComparesNumbers}
use lua_reading.Table.Contents.{IsTable}
use lua_reading.Table.Traversal.{arrayindex, is_in_array}
use lua_reading.Table.Visits.{ConvertsIndices}
use lua_reading.Table.Lookup.{
  SameIntegers, IsKey, read, Holds-hash_read, read-hash, is_in_array-index, nil-eq,
}
use lua_reading.Table.Growth.{
  Answer, answer, throws, table_overflow, setarrayvector, insert_nodes, resize, newkey_at,
}
use lua_reading.Table.Store.{room, IsLive}
use lua_reading.Table.Refill.{
  is_in_array-fits, count_values, count_hashed, Follows, Refills, Refills-none,
}
use lua_reading.Table.Slice.{SliceSettled, slice-Refills}
use lua_reading.Table.Values.{length-resized, get_or-resized, length-take, get_or-take, get_or-drop}
use lua_reading.Table.Fresh.{fresh_nodes-IsFresh}
use lua_reading.Table.Start.{used_inside, bare-Follows, bare-settles}
use lua_reading.Table.Nodes.{NodesSettled, nodes-Refills}

module _ (host : Host) where
  -- The resized table reads as the old one did, with `extra` nodes free.
  pub record IsResized (t : Table) (nasize extra : ℕ) (t' : Table) : Type 0 where
    pub live : IsLive host t'
    pub reads : (k : Value) → IsKey host k → read host t' k ≡ read host t k
    pub size : length t'.array ≡ nasize
    pub left : extra ≤ room t'

  module _ (law : ComparesNumbers host) (ints : SameIntegers host)
      (indices : ConvertsIndices host (2 ^ 26)) (t : Table) (ok : IsLive host t)
      (nasize extra depth : ℕ) where
    -- The new table before its entries: the array part that it shares with the old one.
    record IsStart (s : Table) : Type 0 where
      pub follows : Follows host law ints indices t ok s
      pub size : length s.array ≡ nasize
      pub settles :
          (k : Value)
          → IsKey host k
          → is_in_array host s (arrayindex host k) ≡ true
          → is_in_array host t (arrayindex host k) ≡ true
          → read host s k ≡ read host t k

    abbrev needed : ℕ
    needed = count_hashed host nasize t.node (sizenode t)

    module _ (s s' t' : Table) (c : ℕ) (start : IsStart s)
        (sliced : Refills host law ints indices t ok s c s')
        (slice : SliceSettled host law ints indices t ok depth nasize s')
        (filled : Refills host law ints indices t ok s' needed t')
        (nodes : NodesSettled host law ints indices t ok nasize depth (sizenode t) t') where
      array_settled :
          (k : Value)
          → IsKey host k
          → is_in_array host t (arrayindex host k) ≡ true
          → read host t' k ≡ read host t k
      array_settled k kk e =
          let (i, index, less) = is_in_array-index host t _ e in
          filled.keeps k kk (elim (Bool-cases (ltb i nasize)) [
            | inr out ↦ slice k i kk (ground (arith, out)) less index
            | inl fits ↦ sliced.keeps k kk (
                start.settles k kk
                  (is_in_array-fits host s _ ∙ rw (index, start.size) (ground (arith, fits))) e)
          ])

      hash_settled :
          (k : Value)
          → IsKey host k
          → is_in_array host t (arrayindex host k) ≡ false
          → is_nil (read host t k) ≡ false
          → read host t' k ≡ read host t k
      hash_settled k kk f full =
          let e = read-hash host law t k kk.present f in
          let full' = sym (ap is_nil e) ∙ full in
          let h = Holds-hash_read host law t k kk.present full' in
          nodes h.position (used_inside host t ok.traversable.table h.position h.used)
            (ap is_nil h.value ∙ full') k kk h.same

      all_settled : (k : Value) → IsKey host k → read host t' k ≡ read host t k
      all_settled k kk = elim (Bool-cases (is_nil (read host t k))) [
        | inl gone ↦ elim (filled.follows.sound k kk) [
          | inl e ↦ e ∙ sym (nil-eq _ gone)
          | inr e ↦ e
        ]
        | inr full ↦ elim (Bool-cases (is_in_array host t (arrayindex host k))) [
          | inl e ↦ array_settled k kk e
          | inr f ↦ hash_settled k kk f full
        ]
      ]

      settled-IsResized : c + needed + extra ≤ room s → IsResized t nasize extra t'
      settled-IsResized enough = record {
        live = filled.follows.live;
        reads = all_settled;
        size = filled.same_length ∙ (sliced.same_length ∙ start.size);
        left = omega (arith, enough, sliced.spends, filled.spends);
      }

    abbrev enter : Table → Value → Answer (Table × Place)
    enter = newkey_at host (suc depth)

    -- The nodes, after the slice.
    insert_old :
        (s s' : Table) (c : ℕ)
        → IsStart s
        → Refills host law ints indices t ok s c s'
        → SliceSettled host law ints indices t ok depth nasize s'
        → c + needed + extra ≤ room s
        → (t' : Table) × (insert_nodes host enter t.node (sizenode t) s' ≡ answer t')
          × IsResized t nasize extra t'
    insert_old s s' c start sliced slice enough =
        let (t', go, filled, nodes) =
          nodes-Refills host law ints indices t ok nasize depth (sizenode t) s' sliced.follows
            (sliced.same_length ∙ start.size) (omega (arith, enough, sliced.spends)) in
        (t', go, settled-IsResized s s' t' c start sliced slice filled nodes enough)

    bare-IsStart :
        (s : Table)
        → IsTable host s
        → ((j : ℕ) → is_nil (Node.key (s.node j)) ≡ true)
        → s.lsizenode ≤ 26
        → nasize ≤ 2 ^ 26
        → length s.array ≡ nasize
        → ((i : ℕ) → i < length s.array → get_or s.array i nil ≡ get_or t.array i nil)
        → IsStart s
    bare-IsStart s table bare small few size same = record {
      follows =
          bare-Follows host law ints indices t ok s table bare (omega (arith, few, size)) small
            same;
      size = size;
      settles =
          bare-settles host law ints indices t ok s table bare (omega (arith, few, size)) small
            same;
    }

    -- The array part that does not shrink.
    abbrev grown : Table
    grown = if ltb (length t.array) nasize then setarrayvector nasize t else t

    grown_array :
        ltb nasize (length t.array) ≡ false
        → (length grown.array ≡ nasize)
          × ((i : ℕ) → i < length grown.array → get_or grown.array i nil ≡ get_or t.array i nil)
    unfolding setarrayvector
    grown_array f = elim (Bool-cases (ltb (length t.array) nasize)) [
      | inl more ↦ rw more (
        length-resized nasize t.array,
        λ i h. get_or-resized nasize t.array i (omega (arith, h, length-resized nasize t.array)),
      )
      | inr same ↦ rw same (ground (arith, f, same), λ i h. refl)
    ]

    -- `resize` of a well-formed table whose parts are not above their largest sizes, to an array part
    -- of up to 2 ^ 26 values and a hash part of up to 2 ^ 32 nodes, with room for the entries that do
    -- not go to the array part and for `extra` more: it throws "table overflow" if the hash part is
    -- above 2 ^ 26, or gives a well-formed table of that array size which reads as before under every
    -- key that is not nil and no NaN, with `extra` nodes free. No insertion has to grow the table
    -- again. The host compares doubles as numbers, equal ones have the same integer, and indices up to
    -- 2 ^ 26 are converted back.
    pub resize-IsResized :
        (nhsize : ℕ)
        → nasize ≤ 2 ^ 26
        → nhsize ≤ 2 ^ 32
        → count_values (drop nasize t.array) + needed + extra ≤ nhsize
        → ((2 ^ 26 < nhsize) × (resize host enter t nasize nhsize ≡ throws table_overflow))
          ⊎ ((t' : Table) × (resize host enter t nasize nhsize ≡ answer t')
              × IsResized t nasize extra t')
    unfolding resize
    resize-IsResized nhsize few fits enough = elim (fresh_nodes-IsFresh host nhsize grown fits) [
      | inl (over, e) ↦ inl (over, rw e refl)
      | inr (b, e, fresh) ↦ elim (Bool-cases (ltb nasize (length t.array))) [
        | inr f ↦
            let (size, same) = grown_array f in
            let start =
              bare-IsStart b fresh.table fresh.bare fresh.small few
                (ap length fresh.same_array ∙ size)
                (λ i h.
                  ap (λ xs. get_or xs i nil) fresh.same_array
                  ∙ same i (omega (arith, h, ap length fresh.same_array))) in
            let (t', go, r) =
              insert_old b b 0 start (Refills-none host law ints indices t ok b start.follows)
                (λ k j kk h less index. absurd (ground (arith, f, h, less)))
                (omega (arith, enough, fresh.large)) in
            inr (t', rw (e, f) go, r)
        | inl shrinks ↦
            let cut = record b { array = take nasize t.array } in
            let shorter : nasize < length t.array = ground (arith, shrinks) in
            let size = length-take nasize t.array (omega (arith, shorter)) in
            let start =
              bare-IsStart cut (record { chained = fresh.table.chained; dummy = fresh.table.dummy })
                fresh.bare fresh.small few size
                (λ i h. get_or-take nasize t.array i (omega (arith, h, size))) in
            let (s', go, sliced, slice) =
              slice-Refills host law ints indices t ok depth (drop nasize t.array) nasize cut
                start.follows (omega (arith, shorter, length-drop nasize t.array))
                (omega (arith, size)) (get_or-drop nasize t.array)
                (omega (arith, enough, fresh.large)) in
            let (t', go', r) =
              insert_old cut s' (count_values (drop nasize t.array)) start sliced slice
                (omega (arith, enough, fresh.large)) in
            inr (t', rw (e, shrinks, go) go', r)
      ]
    ]
