-- ===== src/Table/History.antt =====
-- A table of src/ltable.c from `luaH_new` on: after any assignments it is the map that they make.
use lua_reading.Prelude.{
  ℕ, zero, suc, ◌^◌, ◌≤◌, true, false, ◌≡◌, refl, sym, ap, ◌∙◌, ◌⊎◌, inl, inr, arith, if◌then◌else◌,
  Bool-cases, List, [], ◌∷◌, none, All, length, take, get_or,
}
use lua_reading.Table.{Value, nil, Host, Node, Table, is_nil, rawequal}
use lua_reading.Table.Keys.{ComparesNumbers}
use lua_reading.Table.Traversal.{arrayindex, is_in_array}
use lua_reading.Table.Visits.{ConvertsIndices}
use lua_reading.Table.Lookup.{
  SameIntegers, IsKey, read, hash_read, Holds-hash_read, read-array, read-hash, nil-eq,
}
use lua_reading.Table.Growth.{
  Answer, answer, throws, table_overflow, ◌>>=◌, resized, setarrayvector, set_key, newkey_at, store,
  new_table,
}
use lua_reading.Table.Store.{IsLive}
use lua_reading.Table.Values.{length-resized}
use lua_reading.Table.Fresh.{fresh_nodes-IsFresh}
use lua_reading.Table.Rehash.{entries}
use lua_reading.Table.Assignment.{set_key-Sets}

get_or-nils : (n i : ℕ) → get_or (resized n []) i nil ≡ nil
get_or-nils zero i = refl
get_or-nils (suc n) zero = refl
get_or-nils (suc n) (suc i) = get_or-nils n i

module _ (host : Host) where
  -- `t[k] = v` for each key and value, in this order.
  unfoldable pub put_all : List (Value × Value) → Table → Answer Table
  put_all [] t = answer t
  put_all ((k, v) ∷ l) t = do
    (t', p) ← set_key host (newkey_at host 2) t k
    put_all l (store t' p v)

  -- The value that was assigned last to a key, or `d` without one.
  abbrev pub last_value : List (Value × Value) → Value → Value → Value
  last_value [] k d = d
  last_value ((k', v) ∷ l) k d = last_value l k (if rawequal host k' k then v else d)

  -- What a list of assignments to the table `t` comes to: it reads as they say, or some of them have
  -- filled it.
  abbrev pub Assigned : Table → List (Value × Value) → Answer Table → Type 0
  Assigned t l r =
      ((n : ℕ) × (t' : Table) × (put_all (take n l) t ≡ answer t')
        × (2 ^ 26 ≤ entries host t')
        × (r ≡ throws table_overflow))
      ⊎ ((t' : Table) × (r ≡ answer t')
          × IsLive host t'
          × ((k : Value) → IsKey host k → read host t' k ≡ last_value l k (read host t k)))

  bare_reads :
      ComparesNumbers host
      → (t : Table) → ((j : ℕ) → is_nil (Node.key (t.node j)) ≡ true)
      → ((i : ℕ) → get_or t.array i nil ≡ nil)
      → (k : Value) → IsKey host k
      → read host t k ≡ nil
  bare_reads law t bare nils k kk = elim (Bool-cases (is_in_array host t (arrayindex host k))) [
    | inl e ↦ read-array host law t k kk.present e ∙ nils _
    | inr f ↦ elim (Bool-cases (is_nil (hash_read host t k))) [
      | inl e ↦ read-hash host law t k kk.present f ∙ nil-eq _ e
      | inr full ↦
          let h = Holds-hash_read host law t k kk.present full in
          let clash : true ≡ false = sym (bare h.position) ∙ h.used in cc
    ]
  ]

  -- An empty table.
  new_table-IsLive :
      ComparesNumbers host
      → (narray nhash : ℕ) → narray ≤ 2 ^ 26
      → nhash ≤ 2 ^ 26
      → (t : Table) × (new_table narray nhash ≡ answer t)
        × IsLive host t
        × ((k : Value) → IsKey host k → read host t k ≡ nil)
  unfolding new_table setarrayvector
  new_table-IsLive law narray nhash few fits =
      let node : Node = record { val = nil; key = nil; next = none } in
      let blank : Table = record {
        array = [];
        node = λ i. node;
        lsizenode = 0;
        lastfree = 0;
        is_dummy = true;
      } in
      elim (fresh_nodes-IsFresh host nhash (setarrayvector narray blank) (omega (arith, fits))) [
        | inl (over, _) ↦ absurd (omega (arith, over, fits))
        | inr (t, e, f) ↦
            let size = ap length f.same_array ∙ length-resized narray [] in
            (
              t,
              e,
              record {
                traversable = record {
                  table = f.table;
                  no_nan = λ j u. let clash : true ≡ false = sym (f.bare j) ∙ u in cc;
                  in_hash = λ j u. let clash : true ≡ false = sym (f.bare j) ∙ u in cc;
                };
                small_array = omega (arith, size, few);
                small_hash = f.small;
              },
              bare_reads law t f.bare
                  (λ i. ap (λ xs. get_or xs i nil) f.same_array ∙ get_or-nils narray i),
            )
      ]

  module _ (law : ComparesNumbers host) (ints : SameIntegers host)
      (indices : ConvertsIndices host (2 ^ 26)) where
    put_all-Assigned :
        (l : List (Value × Value)) (t : Table)
        → All (λ (e : Value × Value). IsKey host e.0) l
        → IsLive host t
        → Assigned t l (put_all l t)
    unfolding put_all
    put_all-Assigned [] t keys ok = inr (t, refl, ok, λ k kk. refl)
    put_all-Assigned ((k, v) ∷ l) t (kk, keys) ok =
        elim (set_key-Sets host law ints indices t ok k kk) [
          | inl (full, e) ↦ inl (0, t, refl, full, rw e refl)
          | inr ((t', p), e, s) ↦ elim (put_all-Assigned l (store t' p v) keys (s.stored_live v)) [
            | inl (n, t'', e', full, r) ↦ inl (suc n, t'', rw e e', full, rw e r)
            | inr (t'', r, live, reads) ↦ inr (
              t'',
              rw e r,
              live,
              λ k' kk'. reads k' kk' ∙ ap (last_value l k') (s.stored v k' kk'),
            )
          ]
        ]

    -- From `luaH_new`, with up to 2 ^ 26 values and as many nodes, comes a table that reads nil under every
    -- key. After any list of assignments by `luaH_set`, to keys that are not nil and no NaN, `luaH_get`
    -- reads under every key the value that was last assigned to an equal one, or what it read before;
    -- or some of the assignments lead to a table with 2 ^ 26 entries or more, and "table overflow" is
    -- thrown. The host compares doubles as numbers, equal ones have the same integer, and indices up to
    -- 2 ^ 26 are converted back.
    pub history-Assigned :
        (narray nhash : ℕ) (l : List (Value × Value))
        → narray ≤ 2 ^ 26
        → nhash ≤ 2 ^ 26
        → All (λ (e : Value × Value). IsKey host e.0) l
        → (t : Table) × (new_table narray nhash ≡ answer t)
          × ((k : Value) → IsKey host k → read host t k ≡ nil)
          × Assigned t l (put_all l t)
    history-Assigned narray nhash l few fits keys =
        let (t, e, live, empty) = new_table-IsLive law narray nhash few fits in
        (t, e, empty, put_all-Assigned l t keys live)
