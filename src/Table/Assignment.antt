-- ===== src/Table/Assignment.antt =====
-- `luaH_set` of src/ltable.c, with the growth of the table: an assignment to a key of a table.
use lua_reading.Prelude.{
  ℕ, ◌^◌, ◌≤◌, true, false, ◌≡◌, refl, sym, ◌∙◌, ◌⊎◌, inl, inr, arith, if◌then◌else◌, Bool-cases,
  Option-cases, none,
}
use lua_reading.Table.{
  Value, nil, boolean, number, pointer, string, object, Host, Node, Table, Place, missing, in_node,
  sizenode, is_nil, find, rawequal, mainposition, get_default, get, newkey,
}
use lua_reading.Table.Keys.{ComparesNumbers}
use lua_reading.Table.Chains.{search_passes}
use lua_reading.Table.Traversal.{arrayindex, is_in_array}
use lua_reading.Table.Visits.{ConvertsIndices}
use lua_reading.Table.Lookup.{SameIntegers, IsKey, read}
use lua_reading.Table.Growth.{
  Answer, answer, throws, table_overflow, index_is_nil, index_is_nan, is_nan, set_key, newkey_at,
  store,
}
use lua_reading.Table.Store.{room, IsLive, Stores}
use lua_reading.Table.Refill.{index_fits, is_in_array-fits}
use lua_reading.Table.Enter.{
  Adds, Place-cases, found_or-there, not_nan, store-Stores, there-Adds, newkey_or_full,
  set_key-Adds,
}
use lua_reading.Table.Resize.{IsResized}
use lua_reading.Table.Rehash.{entries, new_hashed, rehash-IsResized}

-- The table and the place that `luaH_set` gives: what is read stays as it was, and a value that is
-- stored at the place is read under the key, and under no other.
pub record Sets (host : Host) (t : Table) (key : Value) (r : Table × Place) : Type 0 where
  pub live : IsLive host r.0
  pub reads : (k : Value) → IsKey host k → read host r.0 k ≡ read host t k
  pub stored_live : (v : Value) → IsLive host (store r.0 r.1 v)
  pub stored :
      (v k : Value)
      → IsKey host k
      → read host (store r.0 r.1 v) k ≡ (if rawequal host key k then v else read host t k)

module _ (host : Host) (law : ComparesNumbers host) where
  numeq_nan : (x n : ℕ) → Host.numeq host n n ≡ false → Host.numeq host x n ≡ false
  numeq_nan x n e = ground (arith, law.zeros x n, law.zero n n, e)

  rawequal_nan :
      (a : Value) (n : ℕ) → Host.numeq host n n ≡ false → rawequal host a (number n) ≡ false
  unfolding rawequal
  rawequal_nan (number x) n e = numeq_nan x n e
  rawequal_nan nil n e = refl
  rawequal_nan (boolean x) n e = refl
  rawequal_nan (pointer x) n e = refl
  rawequal_nan (string x) n e = refl
  rawequal_nan (object x) n e = refl

  get_nan : (t : Table) (n : ℕ) → Host.numeq host n n ≡ false → get host t (number n) ≡ missing
  unfolding get get_default find
  get_nan t n e =
      let other = numeq_nan (Host.cast_num host (Host.number2int host n)) n e in
      rw other
        (elim (Option-cases (
          find host t (λ x. rawequal host x (number n))
            (mainposition host (sizenode t) (number n)))) [
              | inl none_found ↦ rw (get_default, none_found) refl
              | inr (j, found) ↦
                  let clash : true ≡ false =
                    sym (search_passes t.node _ _ _ j found)
                    ∙ rawequal_nan (Node.key (t.node j)) n e in
                  cc
            ])

  -- On a nil key `luaH_set` throws "table index is nil", and on a NaN "table index is NaN", whatever
  -- the table. Two different doubles are equal only if both are zeros.
  pub set_key-throws :
      (enter : Table → Value → Answer (Table × Place)) (t : Table) (key : Value)
      → (is_nil key ≡ true) ⊎ (is_nan host key ≡ true)
      → set_key host enter t key ≡ throws (if is_nil key then index_is_nil else index_is_nan)
  unfolding set_key get
  set_key-throws enter t nil bad = refl
  set_key-throws enter t (number n) (inr bad) =
      let self : Host.numeq host n n ≡ false = ground (arith, bad) in
      rw (get_nan t n self, self) refl
  set_key-throws enter t (number n) (inl bad) = cc
  set_key-throws enter t (boolean b) bad = ground (arith, bad)
  set_key-throws enter t (string s) bad = ground (arith, bad)
  set_key-throws enter t (pointer p) bad = ground (arith, bad)
  set_key-throws enter t (object p) bad = ground (arith, bad)

module _ (host : Host) (law : ComparesNumbers host) (ints : SameIntegers host)
    (indices : ConvertsIndices host (2 ^ 26)) (t : Table) (ok : IsLive host t) (key : Value)
    (is_key : IsKey host key) where
  Adds-Sets :
      (t' : Table) (r : Table × Place)
      → ((k : Value) → IsKey host k → read host t' k ≡ read host t k)
      → Adds host t' key r.0 r.1
      → Sets host t key r
  Adds-Sets t' (t'', p) same a =
      let s =
        λ (v : Value). store-Stores host law ints t'' a.live key is_key p v a.placed a.there in
      record {
        live = a.live;
        reads = λ k kk. a.reads k kk ∙ same k kk;
        stored_live = λ v. Stores.live (s v);
        stored = λ v k kk. Stores.reads (s v) k kk ∙ rw (a.reads k kk ∙ same k kk) refl;
      }

  -- The new key after the table has grown.
  grown_set :
      (t' : Table) (n : ℕ)
      → IsResized host t n (new_hashed host key n) t'
      → (r : Table × Place) × (set_key host (newkey_at host 1) t' key ≡ answer r)
        × Sets host t key r
  grown_set t' n resized =
      let free : (is_in_array host t' (arrayindex host key) ≡ true) ⊎ (1 ≤ room t') =
        elim (Bool-cases (index_fits n (arrayindex host key))) [
          | inl fits ↦ inl (is_in_array-fits host t' _ ∙ rw resized.size fits)
          | inr out ↦
              let one : new_hashed host key n ≡ 1 = rw out refl in
              inr (omega (arith, one, resized.left))
        ] in
      let (r, e, a, _) = set_key-Adds host law ints t' resized.live key is_key 0 free in
      (r, e, Adds-Sets t' r resized.reads a)

  -- A full table grows.
  full_set :
      get host t key ≡ missing
      → newkey host t key ≡ none
      → ((2 ^ 26 ≤ entries host t)
          × (set_key host (newkey_at host 2) t key ≡ throws table_overflow))
        ⊎ ((r : Table × Place) × (set_key host (newkey_at host 2) t key ≡ answer r)
            × Sets host t key r)
  unfolding set_key newkey_at
  full_set absent full = elim (rehash-IsResized host law ints indices t ok key 0) [
    | inl (over, e) ↦
        inl (over, rw (absent, is_key.present, not_nan host key is_key, newkey_at, full, e) refl)
    | inr (t', n, e, resized) ↦
        let (r, e', s) = grown_set t' n resized in
        inr (r, rw (absent, is_key.present, not_nan host key is_key, newkey_at, full, e) e', s)
  ]

  -- For a key that is not nil and no NaN, `luaH_set` on a well-formed table whose parts are not above
  -- their largest sizes, with calls nested two deep at most, throws "table overflow", with 2 ^ 26
  -- entries or more, or gives a well-formed table that reads as before, and a place: a value stored
  -- there is read under the key by `luaH_get`, and every other key reads as before, in a well-formed
  -- table. The host compares doubles as numbers, equal ones have the same integer, and indices up to
  -- 2 ^ 26 are converted back.
  pub set_key-Sets :
      ((2 ^ 26 ≤ entries host t) × (set_key host (newkey_at host 2) t key ≡ throws table_overflow))
      ⊎ ((r : Table × Place) × (set_key host (newkey_at host 2) t key ≡ answer r)
          × Sets host t key r)
  unfolding set_key newkey_at
  set_key-Sets = elim (Place-cases (get host t key)) [
    | inr there ↦
        let self = there-Adds host law ints t ok key is_key there in
        inr ((t, get host t key), found_or-there t _ _ there, Adds-Sets t _ (λ k kk. refl) self)
    | inl absent ↦ elim (newkey_or_full host law ints t ok key is_key absent) [
      | inl (full, _) ↦ full_set absent full
      | inr ((t', n), e, a) ↦ inr (
        (t', in_node n),
        rw (absent, is_key.present, not_nan host key is_key, newkey_at, e) refl,
        Adds-Sets t _ (λ k kk. refl) a,
      )
    ]
  ]
