-- ===== src/Table/Store.antt =====
-- A value is stored at the place of a key, src/ltable.c.
use lua_reading.Prelude.{
  ℕ, zero, suc, ◌-◌, ◌^◌, ◌≤◌, ◌<◌, true, false, ◌==◌, ◌≡◌, refl, sym, ap, ◌∙◌, inl, inr, arith,
  if◌then◌else◌, Bool-cases, List, [], ◌∷◌, length, get_or, set, ==_iff,
}
use lua_reading.Prelude.Int.{ℤ, pos}
use lua_reading.Table.{
  Value, nil, Host, Node, Table, in_array, in_node, is_nil, find, rawequal, get_default, assign,
}
use lua_reading.Table.Chains.{IsUsed}
use lua_reading.Table.Keys.{ComparesNumbers, rawequal_swap, used_key, same_key}
use lua_reading.Table.Free.{free_below, free_below-le}
use lua_reading.Table.Assign.{assign-Assigns, same_node}
use lua_reading.Table.Length.{value_at}
use lua_reading.Table.Traversal.{arrayindex, is_in_array, pos_index}
use lua_reading.Table.Visits.{IsTraversable}
use lua_reading.Table.Lookup.{
  SameIntegers, IsKey, read, hash_read, arrayindex-eq, same_index, hash_read-Holds, hash_read-eq,
  read-array, read-hash, is_in_array-eq, is_in_array-index,
}
use lua_reading.Table.Growth.{store}

pub length-set : (xs : List Value) (i : ℕ) (v : Value) → length (set xs i v) ≡ length xs
length-set [] i v = refl
length-set (x ∷ xs) zero v = refl
length-set (x ∷ xs) (suc i) v = ap suc (length-set xs i v)

get_or-set :
    (xs : List Value) (i j : ℕ) (v : Value)
    → i < length xs
    → get_or (set xs i v) j nil ≡ (if i == j then v else get_or xs j nil)
get_or-set [] i j v h = absurd (omega arith)
get_or-set (x ∷ xs) zero zero v h = refl
get_or-set (x ∷ xs) zero (suc j) v h = ground arith
get_or-set (x ∷ xs) (suc i) zero v h = ground arith
get_or-set (x ∷ xs) (suc i) (suc j) v h = ground (arith, get_or-set xs i j v)

-- The nodes with no key that are left.
abbrev pub room : Table → ℕ
room t = free_below t.node t.lastfree

module _ (host : Host) where
  -- A table that is well formed, with parts that are not above their largest sizes.
  pub record IsLive (t : Table) : Type 0 where
    pub traversable : IsTraversable host t
    pub small_array : length t.array ≤ 2 ^ 26
    pub small_hash : t.lsizenode ≤ 26

  -- After a value was stored under a key.
  pub record Stores (t : Table) (key v : Value) (t' : Table) : Type 0 where
    pub live : IsLive t'
    pub reads :
        (k : Value)
        → IsKey host k
        → read host t' k ≡ (if rawequal host key k then v else read host t k)
    pub same_length : length t'.array ≡ length t.array
    pub same_room : room t ≤ room t'

  -- A write to the array does not change what the hash part has.
  hash_read-array :
      (t : Table) (xs : List Value) (k : Value)
      → hash_read host (record t { array = xs }) k ≡ hash_read host t k
  unfolding get_default find value_at
  hash_read-array t xs k = ground arith

  -- A key of the array part is no key of the hash part.
  other_index :
      ComparesNumbers host
      → SameIntegers host
      → (t : Table) (a b : Value) → is_in_array host t (arrayindex host a) ≡ true
      → is_in_array host t (arrayindex host b) ≡ false
      → rawequal host a b ≡ false
  other_index law ints t a b inside f = elim (Bool-cases (rawequal host a b)) [
    | inl s ↦
        let clash : true ≡ false =
          sym inside ∙ (ap (is_in_array host t) (arrayindex-eq host law ints a b s) ∙ f) in
        cc
    | inr s ↦ s
  ]

  module _ (law : ComparesNumbers host) (ints : SameIntegers host) (t : Table) (ok : IsLive t)
      (key : Value) (is_key : IsKey host key) (v : Value) where
    same_slot :
        (k : Value)
        → is_in_array host t (arrayindex host key) ≡ true
        → is_in_array host t (arrayindex host k) ≡ true
        → ((pos_index host (arrayindex host key) - 1) == (pos_index host (arrayindex host k) - 1))
          ≡ rawequal host key k
    same_slot k inside e =
        let (i, at_i, _) = is_in_array-index host t _ inside in
        let (j, at_j, _) = is_in_array-index host t _ e in
        let slots : (suc i - 1 == suc j - 1) ≡ (i == j) = ground arith in
        rw (at_i, at_j, slots)
          (elim (Bool-cases (i == j)) [
            | inl n ↦
                let same = (==_iff i j).0 n in
                n ∙ sym (same_index host law key k (suc j) (at_i ∙ ap (λ x. pos (suc x)) same) at_j)
            | inr n ↦ elim (Bool-cases (rawequal host key k)) [
              | inr s ↦ n ∙ sym s
              | inl s ↦
                  let same = sym at_i ∙ (arrayindex-eq host law ints key k s ∙ at_j) in
                  let same' : i ≡ j = ground (arith, same) in
                  let n' : true ≡ false = sym ((==_iff i j).1 same') ∙ n in cc
            ]
          ])

    array_reads :
        is_in_array host t (arrayindex host key) ≡ true
        → (i : ℕ) → arrayindex host key ≡ pos (suc i)
        → i < length t.array
        → (k : Value) → IsKey host k
        → let at_key = pos_index host (arrayindex host key) - 1 in
          read host (store t (in_array at_key) v) k
          ≡ (if rawequal host key k then v else read host t k)
    unfolding store
    array_reads inside i index less k kk =
        let at_key = pos_index host (arrayindex host key) - 1 in
        let at_k = pos_index host (arrayindex host k) - 1 in
        let t' = store t (in_array at_key) v in
        let same_length = length-set t.array at_key v in
        let here : at_key ≡ i = rw index (omega arith) in
        let in_t' = is_in_array-eq host t' t (arrayindex host k) same_length in
        elim (Bool-cases (is_in_array host t (arrayindex host k))) [
          | inr f ↦ rw (other_index law ints t key k inside f) (
              read-hash host law t' k kk.present (in_t' ∙ f)
              ∙ (hash_read-array t _ k ∙ sym (read-hash host law t k kk.present f)))
          | inl e ↦
              read-array host law t' k kk.present (in_t' ∙ e)
              ∙ (get_or-set t.array at_key at_k v (omega (arith, here, less))
                  ∙ rw (same_slot k inside e, read-array host law t k kk.present e) refl)
        ]

    pub key_in_array :
        is_in_array host t (arrayindex host key) ≡ true
        → Stores t key v (store t (in_array (pos_index host (arrayindex host key) - 1)) v)
    unfolding store
    key_in_array inside =
        let (i, index, less) = is_in_array-index host t _ inside in
        let t' = store t (in_array (pos_index host (arrayindex host key) - 1)) v in
        let same_length = length-set t.array (pos_index host (arrayindex host key) - 1) v in
        record {
          live = record {
            traversable = record {
              table = record {
                chained = ok.traversable.table.chained;
                dummy = ok.traversable.table.dummy;
              };
              no_nan = ok.traversable.no_nan;
              in_hash = λ j u. is_in_array-eq host t' t _ same_length ∙ ok.traversable.in_hash j u;
            };
            small_array = omega (arith, ok.small_array, same_length);
            small_hash = ok.small_hash;
          };
          reads = λ k kk. array_reads inside i index less k kk;
          same_length = same_length;
          same_room = omega arith;
        }

    -- A key that is in a node.
    module _ (outside : is_in_array host t (arrayindex host key) ≡ false) (j : ℕ)
        (same : rawequal host (Node.key (t.node j)) key ≡ true) where
      used : IsUsed (t.node j)
      used = used_key host law _ key is_key.present same

      same_as : (k : Value) → rawequal host (Node.key (t.node j)) k ≡ rawequal host key k
      same_as k = elim (Bool-cases (rawequal host key k)) [
        | inl s ↦ same_key host law _ k key same (rawequal_swap host law k key ∙ s) ∙ sym s
        | inr f ↦ elim (Bool-cases (rawequal host (Node.key (t.node j)) k)) [
          | inr g ↦ g ∙ sym f
          | inl g ↦
              let s =
                same_key host law key k (Node.key (t.node j)) (rawequal_swap host law key _ ∙ same)
                  (rawequal_swap host law k _ ∙ g) in
              let clash : true ≡ false = sym s ∙ f in cc
        ]
      ]

      in_assign : (z : ℤ) → is_in_array host (assign t j v) z ≡ is_in_array host t z
      unfolding assign
      in_assign z = is_in_array-eq host (assign t j v) t z refl

      node_reads :
          (k : Value)
          → IsKey host k
          → read host (assign t j v) k ≡ (if rawequal host key k then v else read host t k)
      unfolding assign
      node_reads k kk =
          let a = assign-Assigns host t ok.traversable.table j used v in
          let t' = assign t j v in
          elim (Bool-cases (is_in_array host t (arrayindex host k))) [
            | inl e ↦ rw (rawequal_swap host law key k ∙ other_index law ints t k key e outside) (
                read-array host law t' k kk.present (in_assign _ ∙ e)
                ∙ sym (read-array host law t k kk.present e))
            | inr e ↦ elim (Bool-cases (rawequal host key k)) [
              | inl s ↦ rw s (
                  read-hash host law t' k kk.present (in_assign _ ∙ e)
                  ∙ hash_read-Holds host law t' k v a.table kk.present (a.holds k (same_as k ∙ s)))
              | inr f ↦
                  let other = same_as k ∙ f in
                  rw f (
                    read-hash host law t' k kk.present (in_assign _ ∙ e)
                    ∙ (hash_read-eq host law t t' k ok.traversable.table a.table kk.present
                          (λ w full. a.keeps k w other) (λ w full. a.adds_none k w other)
                        ∙ sym (read-hash host law t k kk.present e)))
            ]
          ]

      pub key_in_node : Stores t key v (store t (in_node j) v)
      unfolding store assign
      key_in_node =
          let a = assign-Assigns host t ok.traversable.table j used v in
          record {
            live = record {
              traversable = record {
                table = a.table;
                no_nan = λ i u.
                    let e = (same_node host t ok.traversable.table j used v i).1 in
                    rw e (ok.traversable.no_nan i (sym (ap is_nil e) ∙ u));
                in_hash = λ i u.
                    let e = (same_node host t ok.traversable.table j used v i).1 in
                    rw e (
                      in_assign (arrayindex host (Node.key (t.node i)))
                      ∙ ok.traversable.in_hash i (sym (ap is_nil e) ∙ u));
              };
              small_array = ok.small_array;
              small_hash = ok.small_hash;
            };
            reads = node_reads;
            same_length = refl;
            same_room =
                free_below-le t.node (Table.node (assign t j v)) t.lastfree
                  (λ i h e. ground (arith, e));
          }
