-- ===== src/Table/Nodes.antt =====
-- `resize` of src/ltable.c: the loop that inserts the nodes of the old table.
use lua_reading.Prelude.{
  ℕ, zero, suc, ◌+◌, ◌^◌, ◌≤◌, ◌<◌, true, false, ◌==◌, ==_iff, ◌≡◌, refl, sym, ap, ◌∙◌, ◌⊎◌, inl,
  inr, arith, Bool-cases, length,
}
use lua_reading.Table.{Value, Host, Node, Table, is_nil, rawequal}
use lua_reading.Table.Chains.{IsUsed}
use lua_reading.Table.Keys.{ComparesNumbers}
use lua_reading.Table.Traversal.{arrayindex, is_in_array}
use lua_reading.Table.Visits.{ConvertsIndices}
use lua_reading.Table.Lookup.{SameIntegers, IsKey, read, arrayindex-eq, hash_read-Holds, read-hash}
use lua_reading.Table.Growth.{answer, insert_nodes, newkey_at, store}
use lua_reading.Table.Store.{room, IsLive}
use lua_reading.Table.Enter.{Puts, set_key-Puts}
use lua_reading.Table.Refill.{
  index_fits, is_in_array-fits, hashed, count_hashed, Settled, Follows, Refills, Refills-none,
  Refills-trans, put-settles, put-Refills, put-Refills_none,
}

module _ (host : Host) where
  module _ (law : ComparesNumbers host) (ints : SameIntegers host)
      (indices : ConvertsIndices host (2 ^ 26)) (old : Table) (ok : IsLive host old) where
    -- What a node of the old table has, it reads under every key that is equal to the node's.
    node_value :
        (j : ℕ)
        → is_nil (Node.val (old.node j)) ≡ false
        → IsKey host (Node.key (old.node j))
          × ((k : Value)
              → IsKey host k
              → rawequal host (Node.key (old.node j)) k ≡ true
              → read host old k ≡ Node.val (old.node j))
    node_value j full =
        let c = ok.traversable.table.chained in
        let used : IsUsed (old.node j) = elim (Bool-cases (is_nil (Node.key (old.node j)))) [
          | inl e ↦ let clash : true ≡ false = sym (ap is_nil (c.bare j e).1) ∙ full in cc
          | inr e ↦ e
        ] in
        (
          record { present = used; self = ok.traversable.no_nan j used },
          λ k kk s.
              let outside =
                sym (ap (is_in_array host old) (arrayindex-eq host law ints _ k s))
                ∙ ok.traversable.in_hash j used in
              read-hash host law old k kk.present outside
              ∙ hash_read-Holds host law old k _ ok.traversable.table kk.present
                  (record { position = j; used = used; same = s; value = refl }),
        )

    module _ (n depth : ℕ) where
      -- The entries of nodes below `i` are settled.
      abbrev pub NodesSettled : ℕ → Table → Type 0
      NodesSettled i t =
          (j : ℕ)
          → j < i
          → is_nil (Node.val (old.node j)) ≡ false
          → (k : Value) → IsKey host k
          → rawequal host (Node.key (old.node j)) k ≡ true
          → Settled host law ints indices old ok t k

      has_room :
          (t : Table) (i : ℕ)
          → length t.array ≡ n
          → is_nil (Node.val (old.node i)) ≡ false
          → hashed host n (old.node i) + count_hashed host n old.node i ≤ room t
          → (is_in_array host t (arrayindex host (Node.key (old.node i))) ≡ true) ⊎ (1 ≤ room t)
      has_room t i e full enough =
          elim (Bool-cases (index_fits n (arrayindex host (Node.key (old.node i))))) [
            | inl fits ↦ inl (is_in_array-fits host t _ ∙ rw e fits)
            | inr f ↦
                let one : hashed host n (old.node i) ≡ 1 = rw (full, f) refl in
                inr (omega (arith, enough, one))
          ]

      node-Refills :
          (t : Table) (f : Follows host law ints indices old ok t) (i : ℕ)
          → length t.array ≡ n
          → is_nil (Node.val (old.node i)) ≡ false
          → (t' : Table) → Puts host t (Node.key (old.node i)) (Node.val (old.node i)) t'
          → Refills host law ints indices old ok t (hashed host n (old.node i)) t'
      node-Refills t f i e full t' p =
          let (is_key, value) = node_value i full in
          elim (Bool-cases (index_fits n (arrayindex host (Node.key (old.node i))))) [
            | inl fits ↦
                rw (full, fits)
                  (put-Refills_none host law ints indices old ok t f _ _ t' p value
                    (is_in_array-fits host t _ ∙ rw e fits))
            | inr out ↦ rw (full, out) (put-Refills host law ints indices old ok t f _ _ t' p value)
          ]

      node_next :
          (i : ℕ) (t : Table)
          → NodesSettled i t
          → (is_nil (Node.val (old.node i)) ≡ false
              → (k : Value) → IsKey host k
              → rawequal host (Node.key (old.node i)) k ≡ true
              → Settled host law ints indices old ok t k)
          → NodesSettled (suc i) t
      node_next i t settled here j h full k kk s = elim (Bool-cases (j == i)) [
        | inr other ↦ settled j (ground (arith, other, h)) full k kk s
        | inl one ↦
            let j_is : i ≡ j = sym ((==_iff j i).0 one) in
            here (ap (λ x. is_nil (Node.val (old.node x))) j_is ∙ full) k kk
              (ap (λ x. rawequal host (Node.key (old.node x)) k) j_is ∙ s)
      ]

      abbrev NodesFilled : ℕ → Table → Type 0
      NodesFilled i t =
          (t' : Table) × (insert_nodes host (newkey_at host (suc depth)) old.node i t ≡ answer t')
          × Refills host law ints indices old ok t (count_hashed host n old.node i) t'
          × NodesSettled i t'

      -- A node with no value is passed.
      nodes_empty :
          (i : ℕ) (t : Table)
          → Follows host law ints indices old ok t
          → is_nil (Node.val (old.node i)) ≡ true
          → NodesFilled i t
          → NodesFilled (suc i) t
      unfolding insert_nodes
      nodes_empty i t f empty (t', same, r, settled) =
          let none_here : hashed host n (old.node i) ≡ 0 = rw empty refl in
          let nothing = Refills-none host law ints indices old ok t f in
          (
            t',
            rw empty same,
            Refills-trans host law ints indices old ok t t t' _ _ (rw none_here nothing) r,
            node_next i t' settled
                (λ full k kk s. let clash : true ≡ false = sym empty ∙ full in cc),
          )

      pub nodes-Refills :
          (i : ℕ) (t : Table)
          → Follows host law ints indices old ok t
          → length t.array ≡ n
          → count_hashed host n old.node i ≤ room t
          → NodesFilled i t
      unfolding insert_nodes
      nodes-Refills zero t f e enough =
          (t, refl, Refills-none host law ints indices old ok t f, λ j h. absurd (omega arith))
      nodes-Refills (suc i) t f e enough = elim (Bool-cases (is_nil (Node.val (old.node i)))) [
        | inl empty ↦
            let none_here : hashed host n (old.node i) ≡ 0 = rw empty refl in
            nodes_empty i t f empty (nodes-Refills i t f e (omega (arith, enough, none_here)))
        | inr full ↦
            let (is_key, value) = node_value i full in
            let key = Node.key (old.node i) in
            let v = Node.val (old.node i) in
            let (r, same, p) =
              set_key-Puts host law ints t f.live key is_key depth v (has_room t i e full enough) in
            let t1 = store r.0 r.1 v in
            let first = node-Refills t f i e full t1 p in
            let (t', same', rest, settled) =
              nodes-Refills i t1 first.follows (first.same_length ∙ e)
                (omega (arith, enough, first.spends)) in
            (
              t',
              rw (full, same) same',
              Refills-trans host law ints indices old ok t t1 t' _ _ first rest,
              node_next i t' settled (λ full' k kk s.
                  rest.keeps k kk
                    (put-settles host law ints indices old ok t f key v t1 p value k kk s)),
            )
      ]
