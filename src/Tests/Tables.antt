-- ===== src/Tests/Tables.antt =====
-- Keys that collide in a table of two nodes, src/ltable.c.
use lua_reading.Prelude.{
  ◌+◌, ltb, if◌then◌else◌, ℕ, ◌^◌, Bool, true, false, ◌||◌, ◌&&◌, ◌==◌, [], ◌∷◌, none, some, ◌≡◌,
  refl, inl, inr, arith,
}
use mathlib.Core.Path.{subst}
use lua_reading.Prelude.Int.{pos, pos_part}
use lua_reading.Table.{
  nil, boolean, number, string, Host, Node, Table, is_nil, missing, setnodevector, newkey,
  get_default, rawequal, assign, mainposition, put, hashpow2, search, find,
}
use lua_reading.Table.Keys.{ComparesNumbers}
use lua_reading.Table.Contents.{IsTable, setnodevector-IsTable}
use lua_reading.Table.NewKey.{Enters, newkey-Enters}
use lua_reading.Table.Traversal.{
  arrayindex, is_in_array, entries, traverse, findindex, next_entry, next_in_array, next_in_nodes,
}
use lua_reading.Table.Visits.{ConvertsIndices, IsTraversable, traverse-entries}
use lua_reading.Table.Length.{getn, is_present, bisect}
use lua_reading.Table.Border.{SearchOutcome, getn-IsBorder}
use lua_reading.Table.Sizes.{
  computesizes, count_slices, count_slice, IsUsedByHalf, computesizes-IsUsedByHalf,
}
use lua_reading.Table.Assign.{Assigns, assign-Assigns}

-- Doubles are equal if they have the same bytes or are the two zeros.
abbrev is_zero : ℕ → Bool
is_zero x = x == 0 || x == 2 ^ 63

abbrev host : Host
host = record {
  numeq = λ x y. x == y || (is_zero x && is_zero y);
  number2int = λ x. pos x;
  cast_num = pos_part;
  string_hash = λ s. s;
}

law : ComparesNumbers host
law = record {
  swap = λ x y. ground arith;
  zeros = λ x y e. ground arith;
  zero = λ x y e e'. ground arith;
}

abbrev blank : Table
blank = record {
  array = [];
  node = λ i. record { val = nil; key = nil; next = none };
  lsizenode = 0;
  lastfree = 0;
  is_dummy = true;
}

abbrev fresh : Table
fresh = setnodevector (some 1) blank

fresh-IsTable : IsTable host fresh
fresh-IsTable = (setnodevector-IsTable host (some 1) blank).0

-- A key in its main position, node 0.
abbrev first : Table
first = record fresh { node = put fresh.node 0 (record { val = nil; key = string 4; next = none }) }

first-Enters : Enters host fresh (string 4) (first, 0)
unfolding setnodevector newkey mainposition hashpow2 rawequal
first-Enters = elim (newkey-Enters host law fresh fresh-IsTable (string 4) refl (λ j. refl)) [
  | inl (e, _) ↦ cc
  | inr (r, e, h) ↦ let same : r ≡ (first, 0) = cc in subst (Enters host fresh (string 4)) same h
]

-- Its value is set.
abbrev filled : Table
filled = assign first 0 (boolean 1)

first_used : is_nil (Node.key (first.node 0)) ≡ false
first_used = refl

filled-Assigns : Assigns host first 0 (boolean 1) filled
filled-Assigns = assign-Assigns host first first-Enters.table 0 first_used (boolean 1)

filled_absent : (j : ℕ) → rawequal host (Node.key (filled.node j)) (string 6) ≡ false
unfolding setnodevector rawequal assign
filled_absent j = ground arith

filled_missing : get_default host filled (string 6) ≡ missing
unfolding get_default find search assign setnodevector rawequal mainposition hashpow2
filled_missing = refl

-- Two values, a gap, and a value.
abbrev gap : Table
gap = record blank { array = boolean 1 ∷ boolean 1 ∷ nil ∷ nil ∷ [] }

getn-IsBorder_example : SearchOutcome (is_present host gap) 9 (getn host 9 gap)
getn-IsBorder_example = getn-IsBorder host 9 gap (omega arith) (λ e i. refl)

border_of_gap : getn host 9 gap ≡ some 2
unfolding getn bisect
border_of_gap = refl

-- The keys 1, 2, 3, 4 and 9: four go to the array part.
abbrev slices : ℕ → ℕ
slices i = if i == 2 then 2 else if i == 4 then 1 else if ltb i 2 then 1 else 0

computesizes-IsUsedByHalf_example :
    IsUsedByHalf slices (computesizes slices 5).0 (computesizes slices 5).1
computesizes-IsUsedByHalf_example = computesizes-IsUsedByHalf slices 5

four_of_five : computesizes slices 5 ≡ (4, 4)
unfolding computesizes count_slices count_slice
four_of_five = refl

-- A value and a gap in the array part, and a string key.
abbrev mixed : Table
mixed = record filled { array = boolean 1 ∷ nil ∷ [] }

mixed-IsTable : IsTable host mixed
mixed-IsTable = record {
  chained = filled-Assigns.table.chained;
  dummy = filled-Assigns.table.dummy;
}

mixed-IsTraversable : IsTraversable host mixed
unfolding rawequal arrayindex is_in_array assign setnodevector
mixed-IsTraversable = record {
  table = mixed-IsTable;
  no_nan = λ i used. ground arith;
  in_hash = λ i used. ground arith;
}

indices : ConvertsIndices host 2
indices = record { back = λ k h. refl; self = λ k h. ground arith }

traverse-entries_example : traverse host mixed 9 nil ≡ some (entries host mixed (2 + 2 ^ 1) 0)
unfolding assign setnodevector
traverse-entries_example =
    traverse-entries host law mixed 9 mixed-IsTraversable indices (omega arith)

walk_of_mixed :
    traverse host mixed 9 nil ≡ some ((number 1, boolean 1) ∷ (string 4, boolean 1) ∷ [])
unfolding next_entry next_in_array next_in_nodes findindex is_in_array arrayindex find search
    rawequal mainposition hashpow2 assign setnodevector
walk_of_mixed = refl
