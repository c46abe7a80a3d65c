-- ===== src/Table/Counting.antt =====
-- src/ltable.c: the counts by which `rehash` chooses the new sizes of a table. `nums i` is the number
-- of integer keys in (2 ^ (i - 1), 2 ^ i]. MAXBITS is 26.
use lua_reading.Prelude.{
  ℕ, zero, suc, ◌+◌, ◌-◌, ◌*◌, ◌^◌, ◌&&◌, List, ltb, leb, ◌==◌, if◌then◌else◌, length, get_or,
}
use lua_reading.Prelude.Int.{ℤ, pos, negsuc, pos_part, ◌+ℤ◌}
use lua_reading.Logarithm.{log2}
use lua_reading.Table.{Value, nil, Host, Node, is_nil}
use lua_reading.Table.Traversal.{arrayindex}

unfoldable pub ceillog2 : ℕ → ℕ
ceillog2 x = pos_part (log2 (x - 1) +ℤ pos 1)

-- `nums[i] += n`
abbrev pub add_at : (ℕ → ℕ) → ℕ → ℕ → ℕ → ℕ
add_at nums i n j = if j == i then nums j + n else nums j

-- The counts of `rehash`: `ause` is the number of integer keys, `total` that of all keys.
pub record Tally : Type 0 where
  pub nums : ℕ → ℕ
  pub ause : ℕ
  pub total : ℕ

module _ (host : Host) where
  -- `countint`, which adds to `nums`, and its result.
  unfoldable pub count_index : ℤ → (ℕ → ℕ) → (ℕ → ℕ) × ℕ
  count_index (negsuc k) nums = (nums, 0)
  count_index (pos k) nums =
      if ltb 0 k && leb k (2 ^ 26) then (add_at nums (ceillog2 k) 1, 1) else (nums, 0)

  abbrev pub countint : Value → (ℕ → ℕ) → (ℕ → ℕ) × ℕ
  countint key nums = count_index (arrayindex host key) nums

  -- The loop of `numusehash`, down from node `i`.
  unfoldable pub numusehash : (ℕ → Node) → ℕ → Tally → Tally
  numusehash node zero c = c
  numusehash node (suc i) c =
      let (nums, one) = countint (Node.key (node i)) c.nums in
      let c' : Tally = record { nums = nums; ause = c.ause + one; total = c.total + 1 } in
      numusehash node i (if is_nil (Node.val (node i)) then c else c')

-- `for (; i <= lim; i++)` of `numusearray`, with the rounds that are left.
unfoldable pub count_slots : List Value → ℕ → ℕ → ℕ
count_slots array zero i = 0
count_slots array (suc left) i =
    let rest = count_slots array left (suc i) in
    if is_nil (get_or array (i - 1) nil) then rest else suc rest

-- The loop of `numusearray` over the slices; `ttlg` is `2 ^ lg`.
unfoldable pub numusearray : List Value → ℕ → ℕ → ℕ → ℕ → Tally → Tally
numusearray array zero lg ttlg i c = c
numusearray array (suc rounds) lg ttlg i c =
    let over = ltb (length array) ttlg in
    let lim = if over then length array else ttlg in
    let lc = count_slots array (lim + 1 - i) i in
    let c' : Tally = record {
      nums = add_at c.nums lg lc;
      ause = c.ause + lc;
      total = c.total + lc;
    } in
    let rest = numusearray array rounds (lg + 1) (ttlg * 2) (lim + 1) c' in
    if over && ltb lim i then c else rest
