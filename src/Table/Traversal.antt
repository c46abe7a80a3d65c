-- ===== src/Table/Traversal.antt =====
-- `luaH_next` of src/ltable.c: the traversal of a table, first the array part and then the nodes. Dead
-- keys, which the collector leaves behind, are not modelled.
use lua_reading.Prelude.{
  ℕ, zero, suc, ◌+◌, ◌-◌, ◌≡◌, refl, ap, ◌∙◌, Bool, true, false, ◌&&◌, Option, none, some, List, [],
  ◌∷◌, arith, ltb, leb, if◌then◌else◌, length, get_or,
}
use lua_reading.Prelude.Int.{ℤ, pos, negsuc}
use lua_reading.Table.{
  Value, nil, number, Host, Node, Table, sizenode, is_nil, find, rawequal, mainposition,
}

-- What `luaH_next` gives: the next key and value, or the end, or "invalid key to 'next'".
pub data Following : Type 0 where
  entry : Value → Value → Following
  no_more invalid_key : Following

-- An entry before those of the rest of a traversal, if that comes to its end.
abbrev pub preceded {ℓ} : {A : Type ℓ} → A → Option (List A) → Option (List A)
preceded x none = none
preceded x (some xs) = some (x ∷ xs)

module _ (host : Host) where
  unfoldable pub arrayindex : Value → ℤ
  arrayindex (number n) =
      let k = Host.number2int host n in
      if Host.numeq host (Host.cast_num host k) n then k else negsuc 0
  arrayindex _ = negsuc 0

  -- `0 < i && i <= t->sizearray`
  unfoldable pub is_in_array : Table → ℤ → Bool
  is_in_array t (pos i) = ltb 0 i && leb i (length t.array)
  is_in_array t (negsuc i) = false

  abbrev pub pos_index : ℤ → ℕ
  pos_index (pos i) = i
  pos_index (negsuc i) = 0

  -- A node's index, after `findindex` has counted the array part and `luaH_next` moved on by one.
  abbrev pub after_node : Table → Option ℕ → Option ℕ
  after_node t none = none
  after_node t (some i) = some (suc (i + length t.array))

  -- `findindex` plus 1, which is where `luaH_next` goes on; `none` is the error.
  unfoldable pub findindex : Table → Value → Option ℕ
  findindex t key =
      if is_nil key
      then some 0
      else if is_in_array t (arrayindex key)
      then some (pos_index (arrayindex key))
      else after_node t
          (find host t (λ k. rawequal host k key) (mainposition host (sizenode t) key))

  module _ (t : Table) where
    -- `for (i -= t->sizearray; i < sizenode(t); i++)`, with the rounds that are left.
    unfoldable pub next_in_nodes : ℕ → ℕ → Following
    next_in_nodes zero i = no_more
    next_in_nodes (suc left) i =
        let rest = next_in_nodes left (suc i) in
        let n = t.node i in if is_nil (Node.val n) then rest else entry (Node.key n) (Node.val n)

    -- `for (i++; i < t->sizearray; i++)`, and the nodes behind it.
    unfoldable pub next_in_array : ℕ → ℕ → Following
    next_in_array zero i = let j = i - length t.array in next_in_nodes (sizenode t - j) j
    next_in_array (suc left) i =
        let rest = next_in_array left (suc i) in
        let v = get_or t.array i nil in
        if is_nil v then rest else entry (number (Host.cast_num host (pos (suc i)))) v

    -- `luaH_next`
    unfoldable pub next_entry : Value → Following
    next_entry key = elim (findindex t key) [
      | none ↦ invalid_key
      | some i ↦ next_in_array (length t.array - i) i
    ]

    -- The key and the value at an index, of the array part or behind it.
    abbrev pub place : ℕ → Value × Value
    place j =
        if ltb j (length t.array)
        then (number (Host.cast_num host (pos (suc j))), get_or t.array j nil)
        else (let n = t.node (j - length t.array) in (Node.key n, Node.val n))

    abbrev pub size : ℕ
    size = length t.array + sizenode t

    -- The first of the places that is not empty.
    abbrev pub first_from : ℕ → ℕ → Following
    first_from zero j = no_more
    first_from (suc left) j =
        let rest = first_from left (suc j) in
        if is_nil (place j).1 then rest else entry (place j).0 (place j).1

    -- The places that are not empty, in order.
    abbrev pub entries : ℕ → ℕ → List (Value × Value)
    entries zero j = []
    entries (suc left) j =
        let rest = entries left (suc j) in if is_nil (place j).1 then rest else place j ∷ rest

    -- What a loop over `luaH_next` sees from a key on, up to the end that it reports; `none` if it has
    -- an error or does not end in that many calls.
    abbrev pub traverse : ℕ → Value → Option (List (Value × Value))
    traverse zero key = none
    traverse (suc fuel) key = elim (next_entry key) [
      | entry k v ↦ preceded (k, v) (traverse fuel k)
      | no_more ↦ some []
      | invalid_key ↦ none
    ]

    nodes_first : (left i : ℕ) → next_in_nodes left i ≡ first_from left (i + length t.array)
    unfolding next_in_nodes
    nodes_first zero i = refl
    nodes_first (suc left) i =
        let behind : ltb (i + length t.array) (length t.array) ≡ false = ground arith in
        let back : i + length t.array - length t.array ≡ i = omega arith in
        let onward : suc (i + length t.array) ≡ suc i + length t.array = omega arith in
        rw (behind, back, onward, nodes_first left (suc i)) refl

    pub array_first :
        (left m i : ℕ)
        → left ≡ length t.array - i
        → m ≡ size - i
        → next_in_array left i ≡ first_from m i
    unfolding next_in_array
    array_first zero m i h e =
        let j = i - length t.array in
        let whole : j + length t.array ≡ i = omega (arith, h) in
        let rounds : sizenode t - j ≡ m = omega (arith, h, e) in
        rw rounds (nodes_first m j ∙ ap (first_from m) whole)
    array_first (suc left) zero i h e = absurd (omega (arith, h, e))
    array_first (suc left) (suc m) i h e =
        let before : ltb i (length t.array) ≡ true = ground (arith, h) in
        rw (before, array_first left m (suc i) (omega (arith, h)) (omega (arith, e))) refl
