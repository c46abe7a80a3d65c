-- ===== src/Table.antt =====
-- src/ltable.c: the hash part of a table, a chained scatter table, and the search in both parts.
-- The node vector is a function of the index; its size is 2 ^ lsizenode. A pointer into a table is a
-- `Place`. Operations on doubles are the host's: a number is the 8 bytes of its double.
pub mod Chains
pub mod Insert
pub mod Move
pub mod Keys
pub mod Free
pub mod Contents
pub mod NewKey
pub mod Assign
pub mod Length
pub mod Border
pub mod Sizes
pub mod Traversal
pub mod Visits
pub mod Lookup
pub mod Store
pub mod Enter
pub mod Counting
pub mod Growth
pub mod Refill
pub mod Values
pub mod Start
pub mod Nodes
pub mod Slice
pub mod Fresh
pub mod Powers
pub mod Resize
pub mod Tallies
pub mod Slots
pub mod Rehash
pub mod Assignment
pub mod History
use lua_reading.Prelude.{
  ℕ, zero, suc, ◌+◌, ◌-◌, ◌/◌, ◌%◌, ◌^◌, Bool, true, false, not, ◌&&◌, ◌||◌, ltb, ◌==◌,
  if◌then◌else◌, List, Option, none, some, length,
}
use lua_reading.Prelude.Int.{ℤ, pos, negsuc}
use Prim.Native.Nat.{bit_and, bit_or}

-- The types of a key: an object is a table, a function, a userdata or a thread, given by its
-- address; so is a string, since strings are interned.
pub data Value : Type 0 where
  nil : Value
  boolean number pointer string object : ℕ → Value

-- `luai_numeq`, `lua_number2int`, `cast_num` and `luai_numisnan`, and the hash that each string keeps.
pub record Host : Type 0 where
  pub numeq : ℕ → ℕ → Bool
  pub number2int : ℕ → ℤ
  pub cast_num : ℤ → ℕ
  pub string_hash : ℕ → ℕ

pub record Node : Type 0 where
  pub val : Value
  pub key : Value
  pub next : Option ℕ

pub record Table : Type 0 where
  pub array : List Value
  pub node : ℕ → Node
  pub lsizenode : ℕ
  pub lastfree : ℕ
  pub is_dummy : Bool

abbrev pub sizenode : Table → ℕ
sizenode t = 2 ^ t.lsizenode

abbrev pub is_nil : Value → Bool
is_nil nil = true
is_nil _ = false

-- Where a value is: `missing` is luaO_nilobject.
pub data Place : Type 0 where
  missing : Place
  in_array in_node : ℕ → Place

abbrev pub put : (ℕ → Node) → ℕ → Node → ℕ → Node
put node i x j = if j == i then x else node j

-- The loop of the search functions: the first node of the chain from `i` on whose key passes.
unfoldable pub search : ℕ → (ℕ → Node) → (Value → Bool) → ℕ → Option ℕ
search zero node test i = none
search (suc fuel) node test i =
    let onward : Option ℕ = elim (Node.next (node i)) [
      | none ↦ none
      | some j ↦ search fuel node test j
    ] in
    if test (Node.key (node i)) then some i else onward

abbrev pub found : Option ℕ → Place
found none = missing
found (some i) = in_node i

-- `getfreepos`: the last node below `lastfree` whose key is nil, where `lastfree` then is.
unfoldable pub getfreepos : (ℕ → Node) → ℕ → Option ℕ
getfreepos node zero = none
getfreepos node (suc i) =
    let below = getfreepos node i in if is_nil (Node.key (node i)) then some i else below

-- `while (gnext(othern) != mp) othern = gnext(othern)`
unfoldable pub previous : ℕ → (ℕ → Node) → ℕ → ℕ → Option ℕ
previous zero node mp i = none
previous (suc fuel) node mp i = elim (Node.next (node i)) [
  | none ↦ none
  | some j ↦ let onward = previous fuel node mp j in if j == mp then some i else onward
]

-- The colliding node moves to the free node `n`; `before` links to it.
unfoldable pub move : (ℕ → Node) → ℕ → ℕ → ℕ → Value → ℕ → Node
move node mp n before key =
    let relinked = put node before (record (node before) { next = some n }) in
    let copied = put relinked n (relinked mp) in
    put copied mp (record { val = nil; key = key; next = none })

-- The new key goes to the free node `n`, behind `mp`.
unfoldable pub chain : (ℕ → Node) → ℕ → ℕ → Value → ℕ → Node
chain node mp n key =
    let entered =
      put node n (record { val = Node.val (node n); key = key; next = Node.next (node mp) }) in
    put entered mp (record (entered mp) { next = some n })

module _ (host : Host) where
  -- `luaO_rawequalObj`
  unfoldable pub rawequal : Value → Value → Bool
  rawequal nil nil = true
  rawequal (number x) (number y) = Host.numeq host x y
  rawequal (boolean x) (boolean y) = x == y
  rawequal (pointer x) (pointer y) = x == y
  rawequal (string x) (string y) = x == y
  rawequal (object x) (object y) = x == y
  rawequal _ _ = false

  -- A main position, for the number of nodes.
  unfoldable pub hashpow2 : ℕ → ℕ → ℕ
  hashpow2 size n = bit_and n (size - 1)

  unfoldable pub hashmod : ℕ → ℕ → ℕ
  hashmod size n = n % bit_or (size - 1) 1

  -- `IntPoint` keeps 32 bits of an address.
  unfoldable pub hashpointer : ℕ → ℕ → ℕ
  hashpointer size p = hashmod size (p % 2 ^ 32)

  unfoldable pub hashnum : ℕ → ℕ → ℕ
  hashnum size n =
      if Host.numeq host n 0 then 0 else hashmod size ((n % 2 ^ 32 + n / 2 ^ 32 % 2 ^ 32) % 2 ^ 32)

  unfoldable pub mainposition : ℕ → Value → ℕ
  mainposition size (number n) = hashnum size n
  mainposition size (string s) = hashpow2 size (Host.string_hash host s)
  mainposition size (boolean b) = hashpow2 size b
  mainposition size (pointer p) = hashpointer size p
  mainposition size (object p) = hashpointer size p
  mainposition size nil = hashpointer size 0

  -- A chain has no more links than nodes.
  unfoldable pub find : Table → (Value → Bool) → ℕ → Option ℕ
  find t test i = search (sizenode t + 1) t.node test i

  unfoldable pub is_number : ℕ → Value → Bool
  is_number n (number x) = Host.numeq host x n
  is_number n _ = false

  unfoldable pub is_string_key : ℕ → Value → Bool
  is_string_key s (string x) = x == s
  is_string_key s _ = false

  unfoldable pub number_in_hash : Table → ℤ → Place
  number_in_hash t key =
      let nk = Host.cast_num host key in found (find t (is_number nk) (hashnum (sizenode t) nk))

  -- `luaH_getnum`; `key - 1` as an unsigned number is above any size of an array for a key below 1.
  unfoldable pub getnum : Table → ℤ → Place
  getnum t (pos zero) = number_in_hash t (pos zero)
  getnum t (pos (suc i)) =
      if ltb i (length t.array) then in_array i else number_in_hash t (pos (suc i))
  getnum t (negsuc i) = number_in_hash t (negsuc i)

  -- `luaH_getstr`
  unfoldable pub getstr : Table → ℕ → Place
  getstr t s = found (find t (is_string_key s) (hashpow2 (sizenode t) (Host.string_hash host s)))

  unfoldable pub get_default : Table → Value → Place
  get_default t key = found (find t (λ k. rawequal k key) (mainposition (sizenode t) key))

  -- `luaH_get`
  unfoldable pub get : Table → Value → Place
  get t nil = missing
  get t (string s) = getstr t s
  get t (number n) =
      let k = Host.number2int host n in
      if Host.numeq host (Host.cast_num host k) n then getnum t k else get_default t (number n)
  get t (boolean b) = get_default t (boolean b)
  get t (pointer p) = get_default t (pointer p)
  get t (object p) = get_default t (object p)

  -- The case of a main position that is taken, with the free node `n`.
  unfoldable pub collide : Table → ℕ → Value → ℕ → Option (Table × ℕ)
  collide t mp key n =
      let othern = mainposition (sizenode t) (Node.key (t.node mp)) in
      let t' = record t { lastfree = n } in
      if othern == mp
      then some (record t' { node = chain t.node mp n key }, n)
      else elim (previous (sizenode t + 1) t.node mp othern) [
        | none ↦ none
        | some before ↦ some (record t' { node = move t.node mp n before key }, mp)
      ]

  -- `newkey` up to `rehash`: `none` is a table with no free node left, which has to grow.
  unfoldable pub newkey : Table → Value → Option (Table × ℕ)
  newkey t key =
      let mp = mainposition (sizenode t) key in
      if not (is_nil (Node.val (t.node mp))) || t.is_dummy
      then elim (getfreepos t.node t.lastfree) [ none ↦ none | some n ↦ collide t mp key n ]
      else some (record t { node = put t.node mp (record (t.node mp) { key = key }) }, mp)

abbrev empty_node : Node
empty_node = record { val = nil; key = nil; next = none }

-- `setnodevector` for `2 ^ lsize` nodes, all of them free, or for none: then the node is the dummy.
unfoldable pub setnodevector : Option ℕ → Table → Table
setnodevector none t = record t {
  node = λ i. empty_node;
  lsizenode = 0;
  lastfree = 0;
  is_dummy = true;
}
setnodevector (some lsize) t = record t {
  node = λ i. empty_node;
  lsizenode = lsize;
  lastfree = 2 ^ lsize;
  is_dummy = false;
}

-- An assignment to the value in node `p`, as in `setobjt2t(L, luaH_set(L, t, key), v)`.
unfoldable pub assign : Table → ℕ → Value → Table
assign t p v = record t { node = put t.node p (record (t.node p) { val = v }) }
