-- ===== src/Table/Visits.antt =====
-- A traversal by `luaH_next` of src/ltable.c visits every entry once.
use lua_reading.Prelude.{
  ℕ, zero, suc, ◌+◌, ◌-◌, ◌≤◌, ◌<◌, ◌≡◌, refl, ap, ◌∙◌, inl, inr, true, false, Option, none, some,
  List, [], arith, ltb, leb, ltb→lt, Bool-cases, length,
}
use lua_reading.Prelude.Int.{pos}
use lua_reading.Table.{
  Value, nil, number, Host, Node, Table, is_nil, found, rawequal, in_node, get_default,
}
use lua_reading.Table.Chains.{IsUsed}
use lua_reading.Table.Keys.{ComparesNumbers}
use lua_reading.Table.Contents.{IsTable, Holds, get_default-Holds}
use lua_reading.Table.Traversal.{
  entry, no_more, invalid_key, arrayindex, is_in_array, findindex, next_entry, place, size,
  first_from, entries, preceded, traverse, array_first,
}

-- What the code relies on of the host's conversion of an index of the array part to a double.
pub record ConvertsIndices (host : Host) (n : ℕ) : Type 0 where
  pub back : (k : ℕ) → k ≤ n → Host.number2int host (Host.cast_num host (pos k)) ≡ pos k
  pub self :
      (k : ℕ)
      → k ≤ n
      → Host.numeq host (Host.cast_num host (pos k)) (Host.cast_num host (pos k)) ≡ true

found_one : (o : Option ℕ) (i : ℕ) → found o ≡ in_node i → o ≡ some i
found_one none i e = cc
found_one (some j) i e = cc

valued : (v : Value) → is_nil v ≡ false → v ≡ nil → ⊥
valued v h e = let h' = (rw e at h) in cc

module _ (host : Host) where
  -- The hash part is well formed, and its keys are no NaN and belong in it.
  pub record IsTraversable (t : Table) : Type 0 where
    pub table : IsTable host t
    pub no_nan :
        (i : ℕ)
        → IsUsed (t.node i)
        → rawequal host (Node.key (t.node i)) (Node.key (t.node i)) ≡ true
    pub in_hash :
        (i : ℕ)
        → IsUsed (t.node i)
        → is_in_array host t (arrayindex host (Node.key (t.node i))) ≡ false

  module _ (t : Table) where
    -- `findindex` finds the place of the key of every entry.
    abbrev FindsPlaces : Type 0
    FindsPlaces =
        (j : ℕ)
        → is_nil (place host t j).1 ≡ false
        → findindex host t (place host t j).0 ≡ some (suc j)

    module _ (finds : FindsPlaces) (fuel : ℕ)
        (again : (key : Value) (j : ℕ)
          → findindex host t key ≡ some j
          → size host t - j < fuel
          → traverse host t fuel key ≡ some (entries host t (size host t - j) j)) where
      walk_from :
          (left j : ℕ)
          → left ≡ size host t - j
          → left ≤ fuel
          → (elim (first_from host t left j) as (λ x. Option (List (Value × Value))) [
            | entry k v ↦ preceded (k, v) (traverse host t fuel k)
            | no_more ↦ some []
            | invalid_key ↦ none
          ])
            ≡ some (entries host t left j)
      walk_from zero j h enough = refl
      walk_from (suc left) j h enough = elim (Bool-cases (is_nil (place host t j).1)) [
        | inl e ↦ rw e (walk_from left (suc j) (omega (arith, h)) (omega arith))
        | inr e ↦
            let rounds : size host t - suc j ≡ left = omega (arith, h) in
            let rest = again (place host t j).0 (suc j) (finds j e) (omega (arith, h, enough)) in
            rw e (
              ap (preceded (place host t j))
                (rest ∙ ap (λ n. some (entries host t n (suc j))) rounds))
      ]

    next_first :
        (key : Value) (j : ℕ)
        → findindex host t key ≡ some j
        → next_entry host t key ≡ first_from host t (size host t - j) j
    unfolding next_entry
    next_first key j e =
        rw (next_entry, e) (array_first host t (length t.array - j) (size host t - j) j refl refl)

    traverse-entries_of :
        FindsPlaces
        → (fuel : ℕ) (key : Value) (j : ℕ) → findindex host t key ≡ some j
        → size host t - j < fuel
        → traverse host t fuel key ≡ some (entries host t (size host t - j) j)
    traverse-entries_of finds zero key j e enough = absurd (omega arith)
    traverse-entries_of finds (suc fuel) key j e enough =
        rw (traverse, next_first key j e)
          (walk_from finds fuel (traverse-entries_of finds fuel) (size host t - j) j refl
            (omega arith))

  module _ (law : ComparesNumbers host) where
    node_key :
        (t : Table) (i : ℕ)
        → IsTraversable t
        → is_nil (Node.val (t.node i)) ≡ false
        → findindex host t (Node.key (t.node i)) ≡ some (suc (i + length t.array))
    unfolding findindex get_default
    node_key t i ok present =
        let used : IsUsed (t.node i) = elim (Bool-cases (is_nil (Node.key (t.node i)))) [
          | inl e ↦ absurd (valued (Node.val (t.node i)) present (ok.table.chained.bare i e).1)
          | inr e ↦ e
        ] in
        let held : Holds host t (Node.key (t.node i)) (Node.val (t.node i)) = record {
          position = i;
          used = used;
          same = ok.no_nan i used;
          value = refl;
        } in
        rw
          (
            used,
            ok.in_hash i used,
            found_one _ i (get_default-Holds host law t _ _ ok.table used held),
          )
          refl

    array_key :
        (t : Table) (i : ℕ)
        → ConvertsIndices host (length t.array)
        → i < length t.array
        → findindex host t (number (Host.cast_num host (pos (suc i)))) ≡ some (suc i)
    unfolding findindex arrayindex is_in_array
    array_key t i ints h =
        let inside : leb (suc i) (length t.array) ≡ true = ground (arith, h) in
        let some_index : ltb 0 (suc i) ≡ true = ground arith in
        rw (ints.back (suc i) h, ints.self (suc i) h, inside, some_index) refl

    finds_places :
        (t : Table) → IsTraversable t → ConvertsIndices host (length t.array) → FindsPlaces t
    finds_places t ok ints j present = elim (Bool-cases (ltb j (length t.array))) [
      | inl e ↦ rw e (array_key t j ints (ltb→lt _ _ e))
      | inr e ↦
          let behind : j - length t.array + length t.array ≡ j = ground (arith, e) in
          rw e
            (node_key t (j - length t.array) ok (rw e at present) ∙ ap (λ n. some (suc n)) behind)
    ]

    -- In a well-formed table whose keys are no NaN and in the part where they belong, a loop over
    -- `luaH_next` from nil sees every key with a value that is not nil, once, the array part first,
    -- and then `luaH_next` reports the end, with no error, in one call more than there are places at
    -- most. The host converts the indices of the array part back, and compares them equal to
    -- themselves.
    pub traverse-entries :
        (t : Table) (fuel : ℕ)
        → IsTraversable t
        → ConvertsIndices host (length t.array)
        → size host t < fuel
        → traverse host t fuel nil ≡ some (entries host t (size host t) 0)
    unfolding findindex
    traverse-entries t fuel ok ints enough =
        let whole : size host t - 0 ≡ size host t = omega arith in
        traverse-entries_of t (finds_places t ok ints) fuel nil 0 refl (omega (arith, enough))
        ∙ ap (λ n. some (entries host t n 0)) whole
