-- ===== src/Tests/Growth.antt =====
-- Tables that grow, src/ltable.c.
use lua_reading.Prelude.{
  ℕ, ◌-◌, ◌%◌, ◌^◌, ◌≤◌, ◌<◌, List, Bool, true, ◌||◌, ◌&&◌, ◌==◌, [], ◌∷◌, none, ◌≡◌, refl, ◌⊎◌,
  inl, arith,
}
use lua_reading.Prelude.Int.{pos, pos_part}
use lua_reading.Table.{
  nil, boolean, number, string, Value, Host, Table, Place, missing, in_array, setnodevector,
  rawequal, get, getnum, number_in_hash, find, search, is_number, newkey, getfreepos, hashmod,
  hashnum, mainposition,
}
use lua_reading.Table.Keys.{ComparesNumbers}
use lua_reading.Table.Contents.{setnodevector-IsTable}
use lua_reading.Table.Visits.{ConvertsIndices}
use lua_reading.Table.Traversal.{arrayindex}
use lua_reading.Logarithm.{log2, log2_loop}
use lua_reading.Table.Sizes.{computesizes, count_slice, count_slices}
use lua_reading.Table.Lookup.{SameIntegers, IsKey, read}
use lua_reading.Table.Counting.{ceillog2, count_index, numusehash, count_slots, numusearray}
use lua_reading.Table.Growth.{
  Answer, answer, throws, too_deep, table_overflow, index_is_nil, set_key, newkey_at, rehash,
  resize, fresh_nodes, insert_nodes, setarrayvector, tally, new_table,
}
use lua_reading.Table.Store.{IsLive}
use lua_reading.Table.Resize.{IsResized, resize-IsResized}
use lua_reading.Table.Rehash.{entries, Fits, rehash-Fits}
use lua_reading.Table.History.{Assigned, put_all, last_value, history-Assigned}
use lua_reading.Table.Assignment.{Sets, set_key-Sets, set_key-throws}

-- Doubles are equal if they have the same bytes or are the two zeros; small ones are their numbers.
abbrev is_zero : ℕ → Bool
is_zero x = x == 0 || x == 2 ^ 63

abbrev host : Host
host = record {
  numeq = λ x y. x == y || (is_zero x && is_zero y);
  number2int = λ x. pos (x % 2 ^ 63);
  cast_num = pos_part;
  string_hash = λ s. s;
}

law : ComparesNumbers host
law = record {
  swap = λ x y. ground arith;
  zeros = λ x y e. ground arith;
  zero = λ x y e e'. ground arith;
}

ints : SameIntegers host
ints x y e = ground (arith, e)

indices : ConvertsIndices host (2 ^ 26)
indices = record { back = λ k h. ground arith; self = λ k h. ground arith }

-- A value in the array part, and no node.
abbrev small : Table
small = setnodevector none (record {
  array = boolean 1 ∷ [];
  node = λ i. record { val = nil; key = nil; next = none };
  lsizenode = 0;
  lastfree = 0;
  is_dummy = true;
})

small-IsLive : IsLive host small
unfolding setnodevector
small-IsLive = record {
  traversable = record {
    table = (setnodevector-IsTable host none small).0;
    no_nan = λ i u. cc;
    in_hash = λ i u. cc;
  };
  small_array = omega arith;
  small_hash = omega arith;
}

abbrev key : Value
key = number 2

key-IsKey : IsKey host key
unfolding rawequal
key-IsKey = record { present = refl; self = refl }

-- The table has to grow for the key.
set_key-Sets_example :
    ((2 ^ 26 ≤ entries host small)
      × (set_key host (newkey_at host 2) small key ≡ throws table_overflow))
    ⊎ ((r : Table × Place) × (set_key host (newkey_at host 2) small key ≡ answer r)
        × Sets host small key r)
set_key-Sets_example = set_key-Sets host law ints indices small small-IsLive key key-IsKey

set_key-throws_example : set_key host (newkey_at host 2) small nil ≡ throws index_is_nil
set_key-throws_example = set_key-throws host law (newkey_at host 2) small nil (inl refl)

rehash-Fits_example :
    let c = tally host small key in
    let (n, na) = computesizes c.nums c.ause in Fits host small key n (c.total - na)
rehash-Fits_example = rehash-Fits host small small-IsLive key

resize-IsResized_example :
    ((2 ^ 26 < 2) × (resize host (newkey_at host 1) small 0 2 ≡ throws table_overflow))
    ⊎ ((t' : Table) × (resize host (newkey_at host 1) small 0 2 ≡ answer t')
        × IsResized host small 0 1 t')
unfolding setnodevector
resize-IsResized_example =
    resize-IsResized host law ints indices small small-IsLive 0 1 0 2 (omega arith) (omega arith)
      (omega arith)

-- Where the value under a key is, after it was set.
abbrev placed : Answer (Table × Place) → Place
placed (answer (t, p)) = p
placed (throws e) = missing
placed too_deep = missing

-- The two keys go to the array part.
two_in_array : placed (set_key host (newkey_at host 2) small key) ≡ in_array 1
unfolding set_key get getnum setnodevector number_in_hash find search is_number newkey_at newkey
    getfreepos rehash resize fresh_nodes tally numusehash numusearray count_slots log2 log2_loop
    ceillog2 count_index insert_nodes setarrayvector computesizes count_slice count_slices
    arrayindex hashmod hashnum mainposition
two_in_array = refl

-- A key of the array part, a string, and the first key again.
abbrev assigned : List (Value × Value)
assigned = (number 1, boolean 1) ∷ (string 5, number 3) ∷ (number 1, nil) ∷ []

one-IsKey : IsKey host (number 1)
unfolding rawequal
one-IsKey = record { present = refl; self = refl }

five-IsKey : IsKey host (string 5)
unfolding rawequal
five-IsKey = record { present = refl; self = refl }

history-Assigned_example :
    (t : Table) × (new_table 0 0 ≡ answer t)
    × ((k : Value) → IsKey host k → read host t k ≡ nil)
    × Assigned host t assigned (put_all host assigned t)
history-Assigned_example =
    history-Assigned host law ints indices 0 0 assigned (omega arith) (omega arith)
      (one-IsKey, (five-IsKey, (one-IsKey, tt)))

five_after : last_value host assigned (string 5) nil ≡ number 3
unfolding rawequal
five_after = refl
