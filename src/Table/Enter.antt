-- ===== src/Table/Enter.antt =====
-- `luaH_set` of src/ltable.c where there is room: the key is found, or enters a free node.
use lua_reading.Prelude.{
  ℕ, suc, ◌-◌, ◌≤◌, true, false, ◌≡◌, ◌≢◌, refl, sym, ap, ◌∙◌, ◌⊎◌, inl, inr, arith, if◌then◌else◌,
  Bool-cases, Option-cases, length, get_or, none, some,
}
use lua_reading.Prelude.Int.{ℤ}
use lua_reading.Table.{
  Value, nil, boolean, number, pointer, string, object, Host, Table, Place, getfreepos, newkey,
  missing, in_array, in_node, is_nil, find, rawequal, sizenode, mainposition, get_default, get,
}
use lua_reading.Table.Chains.{search_passes}
use lua_reading.Table.Keys.{ComparesNumbers}
use lua_reading.Table.Free.{getfreepos-none}
use lua_reading.Table.Contents.{Holds, get_default-Holds, get_default_missing}
use lua_reading.Table.NewKey.{Enters, newkey-Enters}
use lua_reading.Table.Traversal.{arrayindex, is_in_array, pos_index}
use lua_reading.Table.Lookup.{
  SameIntegers, IsKey, read, get-array, hash_read-eq, read-array, read-hash, get-hash,
  is_in_array-eq,
}
use lua_reading.Table.Growth.{Answer, answer, found_or, is_nan, set_key, newkey_at, store}
use lua_reading.Table.Store.{room, IsLive, Stores, key_in_array, key_in_node}

pub Place-cases : (p : Place) → (p ≡ missing) ⊎ (p ≢ missing)
Place-cases missing = inl refl
Place-cases (in_array i) = inr (λ e. cc)
Place-cases (in_node i) = inr (λ e. cc)

pub found_or-there :
    (t : Table) (p : Place) (otherwise : Answer (Table × Place))
    → p ≢ missing
    → found_or t p otherwise ≡ answer (t, p)
found_or-there t missing otherwise there = absurd (there refl)
found_or-there t (in_array i) otherwise there = refl
found_or-there t (in_node i) otherwise there = refl

module _ (host : Host) where
  -- The table has a place for the key, and reads as it did.
  pub record Adds (t : Table) (key : Value) (t' : Table) (p : Place) : Type 0 where
    pub live : IsLive host t'
    pub reads : (k : Value) → IsKey host k → read host t' k ≡ read host t k
    pub same_length : length t'.array ≡ length t.array
    pub takes_one : room t ≤ suc (room t')
    pub placed : get host t' key ≡ p
    pub there : p ≢ missing

  -- After a value was put under a key.
  pub record Puts (t : Table) (key v : Value) (t' : Table) : Type 0 where
    pub live : IsLive host t'
    pub reads :
        (k : Value)
        → IsKey host k
        → read host t' k ≡ (if rawequal host key k then v else read host t k)
    pub same_length : length t'.array ≡ length t.array
    pub takes_one : room t ≤ suc (room t')
    pub takes_none : is_in_array host t (arrayindex host key) ≡ true → room t ≤ room t'

  pub not_nan : (key : Value) → IsKey host key → is_nan host key ≡ false
  unfolding rawequal
  not_nan (number n) h = rw h.self refl
  not_nan nil h = refl
  not_nan (boolean b) h = refl
  not_nan (pointer p) h = refl
  not_nan (string s) h = refl
  not_nan (object p) h = refl

  module _ (law : ComparesNumbers host) (ints : SameIntegers host) (t : Table) (ok : IsLive host t)
      (key : Value) (is_key : IsKey host key) where
    pub store-Stores :
        (p : Place) (v : Value)
        → get host t key ≡ p
        → p ≢ missing
        → Stores host t key v (store t p v)
    unfolding get_default find
    store-Stores p v e there = elim (Bool-cases (is_in_array host t (arrayindex host key))) [
      | inl inside ↦
          let same : p ≡ in_array (pos_index host (arrayindex host key) - 1) =
            sym e ∙ get-array host law t key is_key.present inside in
          rw same (key_in_array host law ints t ok key is_key v inside)
      | inr outside ↦
          elim (Option-cases
            (find host t (λ x. rawequal host x key) (mainposition host (sizenode t) key))) [
              | inl n ↦
                  let absent : get host t key ≡ missing =
                    get-hash host law t key is_key.present outside ∙ rw (get_default, n) refl in
                  absurd (there (sym e ∙ absent))
              | inr (j, n) ↦
                  let found : get host t key ≡ in_node j =
                    get-hash host law t key is_key.present outside ∙ rw (get_default, n) refl in
                  rw (sym e ∙ found) (
                    key_in_node host law ints t ok key is_key v outside j
                      (search_passes t.node _ _ _ j n))
            ]
    ]

    module _ (absent : get host t key ≡ missing) where
      pub outside : is_in_array host t (arrayindex host key) ≡ false
      outside = elim (Bool-cases (is_in_array host t (arrayindex host key))) [
        | inl inside ↦
            let clash : missing ≡ in_array (pos_index host (arrayindex host key) - 1) =
              sym absent ∙ get-array host law t key is_key.present inside in
            cc
        | inr f ↦ f
      ]

      pub newkey-Adds : (t' : Table) (n : ℕ) → Enters host t key (t', n) → Adds t key t' (in_node n)
      newkey-Adds t' n h =
          let same_in : (z : ℤ) → is_in_array host t' z ≡ is_in_array host t z =
            λ z. is_in_array-eq host t' t z (ap length h.same_array) in
          record {
            live = record {
              traversable = record {
                table = h.table;
                no_nan = λ j u. elim (h.keys_stay j u) [
                  | inl e ↦ rw e is_key.self
                  | inr (i, u', e) ↦ rw (← e) (ok.traversable.no_nan i u')
                ];
                in_hash = λ j u. elim (h.keys_stay j u) [
                  | inl e ↦ rw e (same_in _ ∙ outside)
                  | inr (i, u', e) ↦ rw (← e) (same_in _ ∙ ok.traversable.in_hash i u')
                ];
              };
              small_array = rw h.same_array ok.small_array;
              small_hash = rw h.same_size ok.small_hash;
            };
            reads = λ k kk. elim (Bool-cases (is_in_array host t (arrayindex host k))) [
              | inl e ↦
                  read-array host law t' k kk.present (same_in _ ∙ e)
                  ∙ (ap (λ xs. get_or xs (pos_index host (arrayindex host k) - 1) nil) h.same_array
                      ∙ sym (read-array host law t k kk.present e))
              | inr e ↦
                  read-hash host law t' k kk.present (same_in _ ∙ e)
                  ∙ (hash_read-eq host law t t' k ok.traversable.table h.table kk.present
                        (h.keeps k) (h.adds_none k)
                      ∙ sym (read-hash host law t k kk.present e))
            ];
            same_length = ap length h.same_array;
            takes_one = h.takes_one;
            placed =
                let held : Holds host t' key nil = record {
                  position = n;
                  used = ap is_nil h.key_there ∙ is_key.present;
                  same = ap (λ x. rawequal host x key) h.key_there ∙ is_key.self;
                  value = h.no_value;
                } in
                get-hash host law t' key is_key.present (same_in _ ∙ outside)
                ∙ get_default-Holds host law t' key nil h.table is_key.present held;
            there = λ e. cc;
          }

    -- A place that is found needs no new one.
    pub there-Adds : get host t key ≢ missing → Adds t key t (get host t key)
    there-Adds there = record {
      live = ok;
      reads = λ k kk. refl;
      same_length = refl;
      takes_one = omega arith;
      placed = refl;
      there = there;
    }

    -- A key that is not found enters a node, unless there is none.
    pub newkey_or_full :
        get host t key ≡ missing
        → ((newkey host t key ≡ none) × (getfreepos t.node t.lastfree ≡ none))
          ⊎ ((r : Table × ℕ) × (newkey host t key ≡ some r) × Adds t key r.0 (in_node r.1))
    newkey_or_full absent =
        let missed = sym (get-hash host law t key is_key.present (outside absent)) ∙ absent in
        elim (newkey-Enters host law t ok.traversable.table key is_key.present
          (get_default_missing host law t key ok.traversable.table is_key.present missed)) [
            | inl full ↦ inl full
            | inr ((t', n), e, h) ↦ inr ((t', n), e, newkey-Adds absent t' n h)
          ]

    -- With a free node left, `luaH_set` finds a place without a larger table.
    pub set_key-Adds :
        (depth : ℕ)
        → (is_in_array host t (arrayindex host key) ≡ true) ⊎ (1 ≤ room t)
        → (r : Table × Place) × (set_key host (newkey_at host (suc depth)) t key ≡ answer r)
          × Adds t key r.0 r.1
          × (is_in_array host t (arrayindex host key) ≡ true → room t ≤ room r.0)
    unfolding set_key newkey_at
    set_key-Adds depth free = elim (Place-cases (get host t key)) [
      | inr there ↦
          ((t, get host t key), found_or-there t _ _ there, there-Adds there, λ inside. omega arith)
      | inl absent ↦
          let not_inside = λ (inside : is_in_array host t (arrayindex host key) ≡ true).
            let clash : true ≡ false = sym inside ∙ outside absent in let never : ⊥ = cc in never in
          elim (newkey_or_full absent) [
            | inl (_, full) ↦ elim free [
              | inl inside ↦ absurd (not_inside inside)
              | inr some_left ↦ absurd (omega (arith, getfreepos-none t.node t.lastfree full))
            ]
            | inr ((t', n), e, a) ↦ (
              (t', in_node n),
              rw (absent, is_key.present, not_nan key is_key, newkey_at, e) refl,
              a,
              λ inside. absurd (not_inside inside),
            )
          ]
    ]

  -- And a value stored there.
  pub set_key-Puts :
      ComparesNumbers host
      → SameIntegers host
      → (t : Table) → IsLive host t
      → (key : Value) → IsKey host key
      → (depth : ℕ) (v : Value) → (is_in_array host t (arrayindex host key) ≡ true) ⊎ (1 ≤ room t)
      → (r : Table × Place) × (set_key host (newkey_at host (suc depth)) t key ≡ answer r)
        × Puts t key v (store r.0 r.1 v)
  set_key-Puts law ints t ok key is_key depth v free =
      let (r, e, a, same_room) = set_key-Adds law ints t ok key is_key depth free in
      let s = store-Stores law ints r.0 a.live key is_key r.1 v a.placed a.there in
      (
        r,
        e,
        record {
          live = s.live;
          reads = λ k kk. s.reads k kk ∙ rw (a.reads k kk) refl;
          same_length = s.same_length ∙ a.same_length;
          takes_one = omega (arith, a.takes_one, s.same_room);
          takes_none = λ inside. omega (arith, same_room inside, s.same_room);
        },
      )
