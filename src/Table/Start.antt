-- ===== src/Table/Start.antt =====
-- `resize` of src/ltable.c: the new table before the entries of the old one are inserted.
use lua_reading.Prelude.{
  ℕ, suc, ◌-◌, ◌^◌, ◌≤◌, ◌<◌, true, false, ◌≡◌, sym, ap, ◌∙◌, ◌⊎◌, some, inl, inr, arith,
  Bool-cases, length, get_or,
}
use lua_reading.Prelude.Int.{pos}
use lua_reading.Table.{Value, nil, Host, Node, Table, sizenode, is_nil}
use lua_reading.Table.Chains.{Reach, here, onward, IsUsed}
use lua_reading.Table.Keys.{ComparesNumbers, mainposition-lt}
use lua_reading.Table.Contents.{IsTable}
use lua_reading.Table.Traversal.{arrayindex, is_in_array, pos_index}
use lua_reading.Table.Visits.{ConvertsIndices}
use lua_reading.Table.Lookup.{
  SameIntegers, IsKey, read, hash_read, Holds-hash_read, read-array, read-hash, is_in_array-index,
  nil-eq,
}
use lua_reading.Table.Store.{IsLive}
use lua_reading.Table.Refill.{index_fits, is_in_array-fits, Follows}
use lua_reading.Table.Values.{get_or_outside}

Reach-inside :
    (node : ℕ → Node) (size : ℕ)
    → ((i j : ℕ) → Node.next (node i) ≡ some j → IsUsed (node j) × (j < size))
    → {j i : ℕ} → Reach node j i
    → i < size
    → j < size
Reach-inside node size linked here h = h
Reach-inside node size linked (onward {i = i} {k = k} e r) h =
    Reach-inside node size linked r (linked i k e).1

module _ (host : Host) where
  -- A node with a key is one of the table's.
  pub used_inside : (t : Table) → IsTable host t → (j : ℕ) → IsUsed (t.node j) → j < sizenode t
  used_inside t ok j u =
      Reach-inside t.node (sizenode t) ok.chained.linked (ok.chained.reached j u)
        (mainposition-lt host t.lsizenode (Node.key (t.node j)))

  module _ (law : ComparesNumbers host) (ints : SameIntegers host)
      (indices : ConvertsIndices host (2 ^ 26)) (old : Table) (ok : IsLive host old) where
    -- A table with no nodes in use yet, and the first `n` values of the array part.
    module _ (t : Table) (table : IsTable host t)
        (bare : (j : ℕ) → is_nil (Node.key (t.node j)) ≡ true) (small : length t.array ≤ 2 ^ 26)
        (small_hash : t.lsizenode ≤ 26)
        (same : (i : ℕ) → i < length t.array → get_or t.array i nil ≡ get_or old.array i nil) where
      bare-IsLive : IsLive host t
      bare-IsLive = record {
        traversable = record {
          table = table;
          no_nan = λ j u. let clash : true ≡ false = sym (bare j) ∙ u in cc;
          in_hash = λ j u. let clash : true ≡ false = sym (bare j) ∙ u in cc;
        };
        small_array = small;
        small_hash = small_hash;
      }

      -- What is in both array parts is there.
      pub bare-settles :
          (k : Value)
          → IsKey host k
          → is_in_array host t (arrayindex host k) ≡ true
          → is_in_array host old (arrayindex host k) ≡ true
          → read host t k ≡ read host old k
      bare-settles k kk e e' =
          let (i, index, less) = is_in_array-index host t _ e in
          let slot : pos_index host (arrayindex host k) - 1 ≡ i = rw index (omega arith) in
          read-array host law t k kk.present e
          ∙ (same _ (omega (arith, slot, less)) ∙ sym (read-array host law old k kk.present e'))

      bare_sound :
          (k : Value) → IsKey host k → (read host t k ≡ nil) ⊎ (read host t k ≡ read host old k)
      bare_sound k kk = elim (Bool-cases (is_in_array host t (arrayindex host k))) [
        | inl e ↦ elim (Bool-cases (is_in_array host old (arrayindex host k))) [
          | inl e' ↦ inr (bare-settles k kk e e')
          | inr f ↦
              let (i, index, less) = is_in_array-index host t _ e in
              let slot : pos_index host (arrayindex host k) - 1 ≡ i = rw index (omega arith) in
              let f' : index_fits (length old.array) (pos (suc i)) ≡ false =
                sym (is_in_array-fits host old (pos (suc i)))
                ∙ (ap (is_in_array host old) (sym index) ∙ f) in
              inl (
                read-array host law t k kk.present e
                ∙ (same _ (omega (arith, slot, less))
                    ∙ get_or_outside old.array _ (ground (arith, f', slot))))
        ]
        | inr f ↦ elim (Bool-cases (is_nil (hash_read host t k))) [
          | inl e ↦ inl (read-hash host law t k kk.present f ∙ nil-eq _ e)
          | inr full ↦
              let h = Holds-hash_read host law t k kk.present full in
              let clash : true ≡ false = sym (bare h.position) ∙ h.used in cc
        ]
      ]

      pub bare-Follows : Follows host law ints indices old ok t
      bare-Follows = record { live = bare-IsLive; sound = bare_sound }
