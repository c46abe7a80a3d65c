-- ===== src/Tests/Sorts.antt =====
-- `table.sort`, `table.insert` and `table.remove` on small tables, src/ltablib.c.
use lua_reading.Prelude.{
  ℕ, zero, suc, ◌≡◌, refl, Bool, some, ◌&&◌, List, [], ◌∷◌, arith, ltb, get_or,
}
use lua_reading.Prelude.Int.{ℤ, pos, negsuc}
use lua_reading.Sequence.{tinsert, tremove}
use lua_reading.Sequence.Moves.{tremove-tinsert}
use lua_reading.Sorting.{
  Outcome, done, invalid_order, exhausted, swap, order, order_middle, median, scan_up, scan_down,
  partition, split, next_part, parts, auxsort, sort,
}
use lua_reading.Sorting.Sorted.{Sorts, sort-Sorts}

unfoldable sorter : Unit {0}
unfolding swap order order_middle median scan_up scan_down partition split next_part parts auxsort
    sort
sorter = tt

-- The elements from `i` on.
abbrev elements : ℕ → ℕ → Outcome (ℕ → ℕ) → List ℕ
elements i zero x = []
elements i (suc n) (done a) = a i ∷ elements (suc i) n (done a)
elements i (suc n) invalid_order = []
elements i (suc n) exhausted = []

-- 3 1 5 2 4 6, from index 1
abbrev mixed : ℕ → ℕ
mixed i = get_or (0 ∷ 3 ∷ 1 ∷ 5 ∷ 2 ∷ 4 ∷ 6 ∷ []) i 0

sort_of_mixed : elements 1 6 (sort ltb 6 mixed) ≡ 1 ∷ 2 ∷ 3 ∷ 4 ∷ 5 ∷ 6 ∷ []
unfolding sorter
sort_of_mixed = refl

-- 0 stands for nil. The function answers true on any two values that are not nil.
abbrev always : ℕ → ℕ → Bool
always x y = ltb 0 x && ltb 0 y

-- The elements 0 to 6 after the partition.
abbrev places : Outcome (ℕ × (ℕ → ℕ)) → List ℕ
places (done (i, a)) = a 0 ∷ a 1 ∷ a 2 ∷ a 3 ∷ a 4 ∷ a 5 ∷ a 6 ∷ []
places invalid_order = []
places exhausted = []

-- Four elements from index 1. The search from the left leaves the range with no error: the pivot is
-- put behind the table, at 5, and a nil into it, at 3.
partition_escapes :
    places (split always 1 4 (median always 1 4 (λ i. get_or (0 ∷ 1 ∷ 2 ∷ 3 ∷ 4 ∷ []) i 0)))
    ≡ 0 ∷ 2 ∷ 3 ∷ 0 ∷ 1 ∷ 4 ∷ 0 ∷ []
unfolding sorter
partition_escapes = refl

sort-Sorts_example : Sorts ltb 1 6 mixed (sort ltb 6 mixed)
sort-Sorts_example = sort-Sorts ltb 6 mixed (λ x y h. ground (arith, h))

-- 7 put in at place 2 of 5, 6, and taken out. 0 stands for nil.
abbrev pair : ℤ → ℕ
pair (pos i) = get_or (0 ∷ 5 ∷ 6 ∷ []) i 0
pair (negsuc i) = 0

tremove-tinsert_example :
    (t' : ℤ → ℕ) × (tinsert 0 3 2 (pos 2) 7 pair ≡ some t')
    × ((tremove 0 3 (some (pos 2)) t').0 ≡ some 7)
    × ((i : ℤ) → (tremove 0 3 (some (pos 2)) t').1 i ≡ pair i)
tremove-tinsert_example = tremove-tinsert 0 2 2 7 pair (omega arith) (omega arith) refl
