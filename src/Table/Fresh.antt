-- ===== src/Table/Fresh.antt =====
-- `setnodevector` of src/ltable.c: a hash part with room for the entries that are asked for.
use lua_reading.Prelude.{
  ℕ, ◌^◌, ◌≤◌, ◌<◌, true, ltb, ◌==◌, none, some, ◌≡◌, refl, ◌⊎◌, inl, inr, arith, Bool-cases,
}
use lua_reading.Table.{Host, Node, Table, is_nil, setnodevector}
use lua_reading.Table.Free.{free_below-all}
use lua_reading.Table.Contents.{IsTable, setnodevector-IsTable}
use lua_reading.Table.Counting.{ceillog2}
use lua_reading.Table.Powers.{ceillog2-le}
use lua_reading.Table.Growth.{answer, throws, table_overflow, fresh_nodes}
use lua_reading.Table.Store.{room}

module _ (host : Host) where
  -- A new hash part for `size` entries.
  pub record IsFresh (t : Table) (size : ℕ) (t' : Table) : Type 0 where
    pub table : IsTable host t'
    pub bare : (j : ℕ) → is_nil (Node.key (t'.node j)) ≡ true
    pub small : t'.lsizenode ≤ 26
    pub same_array : t'.array ≡ t.array
    pub large : size ≤ room t'

  pub fresh_nodes-IsFresh :
      (size : ℕ) (t : Table)
      → size ≤ 2 ^ 32
      → ((2 ^ 26 < size) × (fresh_nodes size t ≡ throws table_overflow))
        ⊎ ((t' : Table) × (fresh_nodes size t ≡ answer t') × IsFresh t size t')
  unfolding fresh_nodes setnodevector
  fresh_nodes-IsFresh size t h = elim (Bool-cases (size == 0)) [
    | inl e ↦ inr (
      setnodevector none t,
      rw e refl,
      record {
        table = (setnodevector-IsTable host none t).0;
        bare = λ j. refl;
        small = omega arith;
        same_array = refl;
        large = ground (arith, e);
      },
    )
    | inr f ↦
        let lsize = ceillog2 size in
        let some_size : 1 ≤ size = ground (arith, f) in
        elim (Bool-cases (ltb 26 lsize)) [
          | inl over ↦
              inl (ground (arith, over, ceillog2-le size 26 some_size h), rw (f, over) refl)
          | inr under ↦ inr (
            setnodevector (some lsize) t,
            rw (f, under) refl,
            record {
              table = (setnodevector-IsTable host (some lsize) t).0;
              bare = λ j. refl;
              small = ground (arith, under);
              same_array = refl;
              large = omega (
                arith,
                free_below-all (Table.node (setnodevector (some lsize) t)) (2 ^ lsize) (λ i. refl),
                (ceillog2-le size lsize some_size h).0 (omega arith),
              );
            },
          )
        ]
  ]
