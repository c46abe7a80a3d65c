-- ===== src/Sorting.antt =====
-- src/ltablib.c: `auxsort`, the quicksort behind `table.sort`. The table is a function of the index;
-- `lua_rawgeti` and `lua_rawseti` read and write it. The comparison, `lua_lessthan` or a function of
-- the program, is a parameter without effects.
pub mod Swaps
pub mod Partition
pub mod Median
pub mod Sorted
use lua_reading.Prelude.{
  ℕ, zero, suc, ◌+◌, ◌-◌, ◌*◌, ◌/◌, ◌%◌, ◌^◌, ◌≤◌, ◌<◌, min, ◌≡◌, refl, sym, ap, ap₂, ◌∙◌, ◌≢◌, ◌↔◌,
  ◌⊎◌, inl, inr, Bool, true, false, not, ◌&&◌, ◌||◌, Option, none, some, List, [], ◌∷◌, ◌++◌, map,
  arith, ltb, leb, ◌==◌, if◌then◌else◌, ltb→lt, lt→ltb, ==_iff, Bool-cases, Option-cases, length,
  get_elem?, get_or, take, drop, All, length-append, length-drop, take-append, drop-append,
  get_elem?-lt,
}

pub data Outcome (A : Type 0) : Type 0 where
  done : A → Outcome A
  -- "invalid order function for sorting"
  invalid_order : Outcome A
  -- a loop out of fuel
  exhausted : Outcome A

module _ {V : Type 0} where
  -- `lua_rawgeti` of both, and `set2(L, i, j)`
  unfoldable pub swap : ℕ → ℕ → (ℕ → V) → ℕ → V
  swap i j a k = if k == i then a j else if k == j then a i else a k

  module _ (less : V → V → Bool) where
    -- `if (sort_comp(…)) set2(L, i, j)`, comparing a[j] with a[i]
    unfoldable pub order : ℕ → ℕ → (ℕ → V) → ℕ → V
    order i j a = if less (a j) (a i) then swap i j a else a

    -- The second and the third comparison, of a[l], a[i] and a[u].
    unfoldable pub order_middle : ℕ → ℕ → ℕ → (ℕ → V) → ℕ → V
    order_middle l i u a = if less (a i) (a l) then swap i l a else order i u a

    module _ (l u : ℕ) (p : V) where
      -- `while (a[++i] < P)`: the next `i`. Each round moves `i` up, and above `u` is an error.
      unfoldable pub scan_up : ℕ → ℕ → (ℕ → V) → Outcome ℕ
      scan_up zero i a = exhausted
      scan_up (suc fuel) i a =
          let rest = scan_up fuel (suc i) a in
          if less (a (suc i)) p
          then (if ltb u (suc i) then invalid_order else rest)
          else done (suc i)

      -- `while (P < a[--j])`: the next `j`.
      unfoldable pub scan_down : ℕ → (ℕ → V) → Outcome ℕ
      scan_down zero a = invalid_order
      scan_down (suc j) a =
          let rest = scan_down j a in
          if less p (a j) then (if ltb j l then invalid_order else rest) else done j

      -- `for (;;)`: the `i` where the partition ends, and the table. Each round moves `i` up.
      unfoldable pub partition : ℕ → ℕ → ℕ → (ℕ → V) → Outcome (ℕ × (ℕ → V))
      partition zero i j a = exhausted
      partition (suc fuel) i j a = elim (scan_up (suc (suc u)) i a) [
        | invalid_order ↦ invalid_order
        | exhausted ↦ exhausted
        | done i' ↦ elim (scan_down j a) [
          | invalid_order ↦ invalid_order
          | exhausted ↦ exhausted
          | done j' ↦
              let rest = partition fuel i' j' (swap i' j' a) in
              if ltb j' i' then done (i', a) else rest
        ]
      ]

    -- The body of `while (l < u)` for more than three elements, up to the recursive call.
    unfoldable pub split : ℕ → ℕ → (ℕ → V) → Outcome (ℕ × (ℕ → V))
    split l u a =
        let i = (l + u) / 2 in
        let b = swap i (u - 1) a in
        elim (partition l u (a i) u l (u - 1) b) [
          | invalid_order ↦ invalid_order
          | exhausted ↦ exhausted
          | done (i', c) ↦ done (i', swap (u - 1) i' c)
        ]

    -- The first elements in order: a[l], a[(l+u)/2] and a[u].
    unfoldable pub median : ℕ → ℕ → (ℕ → V) → ℕ → V
    median l u a = order_middle l ((l + u) / 2) u (order l u a)

    -- The next round of the loop, after the recursive call.
    unfoldable pub next_part :
        (ℕ → ℕ → (ℕ → V) → Outcome (ℕ → V)) → ℕ → ℕ → Outcome (ℕ → V) → Outcome (ℕ → V)
    next_part again l u (done a) = again l u a
    next_part again l u invalid_order = invalid_order
    next_part again l u exhausted = exhausted

    -- After the partition at `i`: the smaller part by a recursive call, then the larger one by the
    -- next round of the loop.
    unfoldable pub parts :
        (ℕ → ℕ → (ℕ → V) → Outcome (ℕ → V)) → ℕ → ℕ → Outcome (ℕ × (ℕ → V)) → Outcome (ℕ → V)
    parts again l u (done (i, a)) =
        if ltb (i - l) (u - i)
        then next_part again (i + 1) u (again l (i - 1) a)
        else next_part again l (i - 1) (again (i + 1) u a)
    parts again l u invalid_order = invalid_order
    parts again l u exhausted = exhausted

    -- `auxsort`; the parts are shorter, so the number of elements is enough fuel.
    unfoldable pub auxsort : ℕ → ℕ → ℕ → (ℕ → V) → Outcome (ℕ → V)
    auxsort zero l u a = exhausted
    auxsort (suc fuel) l u a =
        let a1 = order l u a in
        let a2 = median l u a in
        let rest = parts (auxsort fuel) l u (split l u a2) in
        if ltb l u
        then (if u - l == 1 then done a1 else if u - l == 2 then done a2 else rest)
        else done a

    -- `sort`, where `n` is the length of the table
    unfoldable pub sort : ℕ → (ℕ → V) → Outcome (ℕ → V)
    sort n a = auxsort (suc n) 1 n a
