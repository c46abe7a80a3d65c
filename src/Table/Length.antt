-- ===== src/Table/Length.antt =====
-- `luaH_getn` of src/ltable.c: the end of a table, by binary search.
use lua_reading.Prelude.{
  ℕ, zero, suc, ◌+◌, ◌-◌, ◌*◌, ◌/◌, ◌^◌, Bool, not, ◌&&◌, ltb, leb, if◌then◌else◌, Option, none,
  some, length, get_or,
}
use lua_reading.Prelude.Int.{pos}
use lua_reading.Table.{
  Value, nil, Host, Node, Table, Place, missing, in_array, in_node, is_nil, getnum,
}

-- The value at a place.
unfoldable pub value_at : Table → Place → Value
value_at t missing = nil
value_at t (in_array i) = get_or t.array i nil
value_at t (in_node i) = Node.val (t.node i)

-- `!ttisnil(luaH_getnum(t, j))`
unfoldable pub is_present : Host → Table → ℕ → Bool
is_present host t j = not (is_nil (value_at t (getnum host t (pos j))))

-- The loops `while (j - i > 1)`; the distance halves in each round.
unfoldable pub bisect : ℕ → (ℕ → Bool) → ℕ → ℕ → ℕ
bisect zero present i j = i
bisect (suc fuel) present i j =
    let m = (i + j) / 2 in
    let lower = bisect fuel present i m in
    let upper = bisect fuel present m j in
    if ltb 1 (j - i) then (if present m then upper else lower) else i

-- `while (!ttisnil(luaH_getnum(t, i))) i++;` and `return i - 1`
unfoldable pub linear_search : ℕ → (ℕ → Bool) → ℕ → Option ℕ
linear_search zero present i = none
linear_search (suc fuel) present i =
    let onward = linear_search fuel present (i + 1) in if present i then onward else some (i - 1)

-- The loop of `unbound_search`: `j` doubles until it is not present or above MAX_INT.
unfoldable pub double : ℕ → ℕ → (ℕ → Bool) → ℕ → ℕ → Option ℕ
double linear zero present i j = none
double linear (suc fuel) present i j =
    let onward = double linear fuel present j (j * 2) in
    if present j
    then (if leb (2 ^ 31) (j * 2) then linear_search linear present 1 else onward)
    else some (bisect (j - i) present i j)

-- `unbound_search`, given the rounds that the linear search may take: `none` when it needs more.
unfoldable pub unbound_search : ℕ → (ℕ → Bool) → ℕ → Option ℕ
unbound_search linear present j = double linear 32 present j (j + 1)

-- `luaH_getn`
unfoldable pub getn : Host → ℕ → Table → Option ℕ
getn host linear t =
    let j = length t.array in
    let present : ℕ → Bool = λ k. not (is_nil (get_or t.array (k - 1) nil)) in
    if ltb 0 j && not (present j)
    then some (bisect j present 0 j)
    else if t.is_dummy
    then some j
    else unbound_search linear (is_present host t) j
