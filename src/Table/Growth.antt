-- ===== src/Table/Growth.antt =====
-- src/ltable.c: a table that is full grows. `luaH_set` and the functions that call one another with
-- it: `newkey`, `rehash`, `resize`, `luaH_setnum`, `luaH_setstr`. The flags of absent metamethods are not
-- modelled.
use lua_reading.Prelude.{
  ℕ, zero, suc, ◌+◌, ◌-◌, Bool, true, false, not, List, [], ◌∷◌, none, some, ltb, ◌==◌,
  if◌then◌else◌, length, set, take, drop,
}
use lua_reading.Prelude.Int.{ℤ, pos}
use lua_reading.Table.{
  Value, nil, number, string, Host, Node, Table, Place, missing, in_array, in_node, sizenode,
  is_nil, get, getnum, getstr, newkey, assign, setnodevector,
}
use lua_reading.Table.Sizes.{computesizes}
use lua_reading.Table.Counting.{Tally, ceillog2, countint, numusehash, numusearray}

pub data Trouble : Type 0 where
  index_is_nil index_is_nan table_overflow : Trouble

-- A result, a thrown error, or calls that are nested deeper than the depth that was given.
pub data Answer {ℓ} (A : Type ℓ) : Type ℓ where
  answer : A → Answer A
  throws : Trouble → Answer A
  too_deep : Answer A

infixl 5 ◌>>=◌
abbrev pub ◌>>=◌ {ℓ κ} : {A : Type ℓ} {B : Type κ} → Answer A → (A → Answer B) → Answer B
answer a >>= f = f a
throws e >>= f = throws e
too_deep >>= f = too_deep

-- The values of a reallocated array: the first ones are kept, new ones are nil.
abbrev pub resized : ℕ → List Value → List Value
resized zero xs = []
resized (suc n) [] = nil ∷ resized n []
resized (suc n) (x ∷ xs) = x ∷ resized n xs

-- `setarrayvector`, for a size that is not below the old one.
unfoldable pub setarrayvector : ℕ → Table → Table
setarrayvector size t = record t { array = resized size t.array }

-- `setnodevector`
unfoldable pub fresh_nodes : ℕ → Table → Answer Table
fresh_nodes size t =
    let lsize = ceillog2 size in
    if size == 0
    then answer (setnodevector none t)
    else if ltb 26 lsize
    then throws table_overflow
    else answer (setnodevector (some lsize) t)

-- An assignment to the value at a place.
unfoldable pub store : Table → Place → Value → Table
store t missing v = t
store t (in_array i) v = record t { array = set t.array i v }
store t (in_node i) v = assign t i v

-- A place that was found, or what is done for a missing one.
abbrev pub found_or : Table → Place → Answer (Table × Place) → Answer (Table × Place)
found_or t missing otherwise = otherwise
found_or t (in_array i) otherwise = answer (t, in_array i)
found_or t (in_node i) otherwise = answer (t, in_node i)

module _ (host : Host) where
  -- `luai_numisnan`
  abbrev pub is_nan : Value → Bool
  is_nan (number n) = not (Host.numeq host n n)
  is_nan _ = false

  -- The counts of `rehash`, with the extra key.
  unfoldable pub tally : Table → Value → Tally
  tally t ek =
      let none_yet : Tally = record { nums = λ i. 0; ause = 0; total = 0 } in
      let c = numusehash host t.node (sizenode t) (numusearray t.array 27 0 1 1 none_yet) in
      let (nums, one) = countint host ek c.nums in
      record { nums = nums; ause = c.ause + one; total = c.total + 1 }

  module _ (enter : Table → Value → Answer (Table × Place)) where
    -- `luaH_set`
    unfoldable pub set_key : Table → Value → Answer (Table × Place)
    set_key t key = found_or t (get host t key) (
        if is_nil key
        then throws index_is_nil
        else if is_nan key
        then throws index_is_nan
        else enter t key)

    -- `luaH_setnum`
    unfoldable pub set_num : Table → ℤ → Answer (Table × Place)
    set_num t key = found_or t (getnum host t key) (enter t (number (Host.cast_num host key)))

    -- `luaH_setstr`
    unfoldable pub set_str : Table → ℕ → Answer (Table × Place)
    set_str t key = found_or t (getstr host t key) (enter t (string key))

    -- The values of a vanishing slice of the array, behind the first `i`.
    unfoldable pub insert_slice : List Value → ℕ → Table → Answer Table
    insert_slice [] i t = answer t
    insert_slice (v ∷ vs) i t =
        let entered : Answer Table = (do
          (t', p) ← set_num t (pos (suc i))
          insert_slice vs (suc i) (store t' p v)) in
        let passed = insert_slice vs (suc i) t in if is_nil v then passed else entered

    -- The nodes of the old hash part below `i`, the last one first.
    unfoldable pub insert_nodes : (ℕ → Node) → ℕ → Table → Answer Table
    insert_nodes old zero t = answer t
    insert_nodes old (suc i) t =
        let entered : Answer Table = (do
          (t', p) ← set_key t (Node.key (old i))
          insert_nodes old i (store t' p (Node.val (old i)))) in
        let passed = insert_nodes old i t in if is_nil (Node.val (old i)) then passed else entered

    unfoldable pub resize : Table → ℕ → ℕ → Answer Table
    resize t nasize nhsize = do
      let oldasize = length t.array
      let grown = if ltb oldasize nasize then setarrayvector nasize t else t
      bare ← fresh_nodes nhsize grown
      let cut = record bare { array = take nasize t.array }
      sliced ←
          if ltb nasize oldasize then insert_slice (drop nasize t.array) nasize cut else answer bare
      insert_nodes t.node (sizenode t) sliced

    -- `luaH_resizearray`
    unfoldable pub resizearray : Table → ℕ → Answer Table
    resizearray t nasize = resize t nasize (if t.is_dummy then 0 else sizenode t)

    unfoldable pub rehash : Table → Value → Answer Table
    rehash t ek =
        let c = tally t ek in
        let (nasize, na) = computesizes c.nums c.ause in resize t nasize (c.total - na)

  -- `newkey`, with the depth that its calls of itself may have.
  unfoldable pub newkey_at : ℕ → Table → Value → Answer (Table × Place)
  newkey_at zero t key = too_deep
  newkey_at (suc depth) t key =
      let grown : Answer (Table × Place) = (do
        t' ← rehash (newkey_at depth) t key
        set_key (newkey_at depth) t' key) in
      elim (newkey host t key) [ none ↦ grown | some (t', n) ↦ answer (t', in_node n) ]

-- `luaH_new`
unfoldable pub new_table : ℕ → ℕ → Answer Table
new_table narray nhash =
    let node : Node = record { val = nil; key = nil; next = none } in
    let t : Table = record {
      array = [];
      node = λ i. node;
      lsizenode = 0;
      lastfree = 0;
      is_dummy = true;
    } in
    fresh_nodes nhash (setarrayvector narray t)
