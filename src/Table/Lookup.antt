-- ===== src/Table/Lookup.antt =====
-- `luaH_get` of src/ltable.c: its searches for integers and strings agree with the general one, and what
-- a table reads depends on what it holds only.
use lua_reading.Prelude.{
  ℕ, zero, suc, ◌-◌, ◌<◌, true, false, ◌≡◌, refl, sym, ap, ap₂, ◌∙◌, inl, inr, arith, ltb, leb,
  if◌then◌else◌, Bool-cases, Option-cases, length, get_or,
}
use lua_reading.Prelude.Int.{ℤ, pos, negsuc}
use mathlib.Core.Path.{fun_ext}
use lua_reading.Table.{
  Value, nil, boolean, number, pointer, string, object, Host, Table, in_array, sizenode, is_nil,
  find, found, rawequal, mainposition, is_number, is_string_key, number_in_hash, getnum, getstr,
  get_default, get,
}
use lua_reading.Table.Chains.{search_passes}
use lua_reading.Table.Keys.{ComparesNumbers, used_key, mainposition-eq}
use lua_reading.Table.Contents.{IsTable, Holds, get_default-Holds}
use lua_reading.Table.Length.{value_at}
use lua_reading.Table.Traversal.{arrayindex, is_in_array, pos_index}

-- What the code relies on of the host: equal doubles have the same integer.
abbrev pub SameIntegers : Host → Type 0
SameIntegers host =
    (x y : ℕ) → Host.numeq host x y ≡ true → Host.number2int host x ≡ Host.number2int host y

pub nil-eq : (v : Value) → is_nil v ≡ true → v ≡ nil
nil-eq v e = ground (arith, e)

module _ (host : Host) where
  -- The value that `luaH_get` finds.
  unfoldable pub read : Table → Value → Value
  read t k = value_at t (get host t k)

  -- The value of the general search.
  abbrev pub hash_read : Table → Value → Value
  hash_read t k = value_at t (get_default host t k)

  -- Not nil, and no NaN.
  pub record IsKey (k : Value) : Type 0 where
    pub present : is_nil k ≡ false
    pub self : rawequal host k k ≡ true

  module _ (law : ComparesNumbers host) where
    numeq_right :
        (x c n : ℕ) → Host.numeq host c n ≡ true → Host.numeq host x c ≡ Host.numeq host x n
    numeq_right x c n e =
        ground (arith, law.zeros c n e, law.zeros x c, law.zeros x n, law.zero x c, law.zero x n)

    same_test :
        (c n : ℕ)
        → Host.numeq host c n ≡ true
        → (k : Value) → is_number host c k ≡ rawequal host k (number n)
    unfolding is_number rawequal
    same_test c n e nil = refl
    same_test c n e (boolean b) = refl
    same_test c n e (number x) = numeq_right x c n e
    same_test c n e (pointer p) = refl
    same_test c n e (string s) = refl
    same_test c n e (object p) = refl

    string_test : (s : ℕ) (k : Value) → is_string_key host s k ≡ rawequal host k (string s)
    unfolding is_string_key rawequal
    string_test s nil = refl
    string_test s (boolean b) = refl
    string_test s (number x) = refl
    string_test s (pointer p) = refl
    string_test s (string x) = refl
    string_test s (object p) = refl

    number_in_hash_lem :
        (t : Table) (k : ℤ) (n : ℕ)
        → Host.numeq host (Host.cast_num host k) n ≡ true
        → number_in_hash host t k ≡ get_default host t (number n)
    unfolding number_in_hash get_default mainposition rawequal
    number_in_hash_lem t k n e =
        ap₂ (λ test i. found (find host t test i)) (fun_ext (same_test (Host.cast_num host k) n e))
          (mainposition-eq host law (sizenode t) (number (Host.cast_num host k)) (number n) e)

    getstr_lem : (t : Table) (s : ℕ) → getstr host t s ≡ get_default host t (string s)
    unfolding getstr get_default mainposition
    getstr_lem t s = rw (fun_ext (string_test s)) refl

    getnum_lem :
        (t : Table) (k : ℤ) (n : ℕ)
        → Host.numeq host (Host.cast_num host k) n ≡ true
        → getnum host t k ≡ (
            if is_in_array host t k
            then in_array (pos_index host k - 1)
            else get_default host t (number n))
    unfolding getnum is_in_array
    getnum_lem t (pos zero) n e = number_in_hash_lem t (pos zero) n e
    getnum_lem t (negsuc i) n e = number_in_hash_lem t (negsuc i) n e
    getnum_lem t (pos (suc i)) n e = elim (Bool-cases (ltb i (length t.array))) [
      | inl h ↦
          let h' : leb (suc i) (length t.array) ≡ true = ground (arith, h) in
          let first : ltb 0 (suc i) ≡ true = ground arith in
          let back : suc i - 1 ≡ i = omega arith in rw (h, h', first, back) refl
      | inr h ↦
          let h' : leb (suc i) (length t.array) ≡ false = ground (arith, h) in
          let first : ltb 0 (suc i) ≡ true = ground arith in
          rw (h, h', first) (number_in_hash_lem t (pos (suc i)) n e)
    ]

    -- `luaH_get` in the two parts.
    pub get_lem :
        (t : Table) (k : Value)
        → is_nil k ≡ false
        → get host t k ≡ (
            if is_in_array host t (arrayindex host k)
            then in_array (pos_index host (arrayindex host k) - 1)
            else get_default host t k)
    unfolding get arrayindex is_in_array
    get_lem t (string s) present = getstr_lem t s
    get_lem t (boolean b) present = refl
    get_lem t (pointer p) present = refl
    get_lem t (object p) present = refl
    get_lem t (number n) present =
        elim (Bool-cases (Host.numeq host (Host.cast_num host (Host.number2int host n)) n)) [
          | inl e ↦ rw e (getnum_lem t (Host.number2int host n) n e)
          | inr f ↦ rw f refl
        ]
    get_lem t nil present = cc

    -- Equal keys have the same integer, and the other way round.
    pub arrayindex-eq :
        SameIntegers host
        → (a b : Value) → rawequal host a b ≡ true
        → arrayindex host a ≡ arrayindex host b
    unfolding rawequal arrayindex
    arrayindex-eq ints (number x) (number y) e =
        rw (ints x y e, numeq_right (Host.cast_num host (Host.number2int host y)) x y e) refl
    arrayindex-eq ints a b e = ground (arith, e)

    of_index :
        (x i : ℕ)
        → arrayindex host (number x) ≡ pos i
        → Host.numeq host (Host.cast_num host (pos i)) x ≡ true
    unfolding arrayindex
    of_index x i e =
        elim (Bool-cases (Host.numeq host (Host.cast_num host (Host.number2int host x)) x)) [
          | inl h ↦
              let e' : Host.number2int host x ≡ pos i = (rw (arrayindex, h) at e) in (rw e' at h)
          | inr h ↦ cc
        ]

    pub same_index :
        (a b : Value) (i : ℕ)
        → arrayindex host a ≡ pos i
        → arrayindex host b ≡ pos i
        → rawequal host a b ≡ true
    unfolding rawequal arrayindex
    same_index (number x) (number y) i e e' =
        sym (numeq_right x (Host.cast_num host (pos i)) y (of_index y i e'))
        ∙ (law.swap x _ ∙ of_index x i e)
    same_index a b i e e' = ground (arith, e, e')

    -- What a node has under a key is what the search reads, and nothing else is.
    pub hash_read-Holds :
        (t : Table) (k v : Value)
        → IsTable host t
        → is_nil k ≡ false
        → Holds host t k v
        → hash_read t k ≡ v
    unfolding value_at
    hash_read-Holds t k v ok present h =
        ap (value_at t) (get_default-Holds host law t k v ok present h) ∙ h.value

    pub Holds-hash_read :
        (t : Table) (k : Value)
        → is_nil k ≡ false
        → is_nil (hash_read t k) ≡ false
        → Holds host t k (hash_read t k)
    unfolding get_default find value_at
    Holds-hash_read t k present full =
        elim (Option-cases
          (find host t (λ x. rawequal host x k) (mainposition host (sizenode t) k))) [
            | inl e ↦ absurd (let full' = (rw (get_default, e) at full) in cc)
            | inr (j, e) ↦
                let same = search_passes t.node _ _ _ j e in
                record {
                  position = j;
                  used = used_key host law _ k present same;
                  same = same;
                  value = rw (get_default, e) refl;
                }
          ]

    -- Tables that hold the same are read alike.
    pub hash_read-eq :
        (t t' : Table) (k : Value)
        → IsTable host t
        → IsTable host t'
        → is_nil k ≡ false
        → ((v : Value) → is_nil v ≡ false → Holds host t k v → Holds host t' k v)
        → ((v : Value) → is_nil v ≡ false → Holds host t' k v → Holds host t k v)
        → hash_read t' k ≡ hash_read t k
    hash_read-eq t t' k ok ok' present there back = elim (Bool-cases (is_nil (hash_read t k))) [
      | inr full ↦
          hash_read-Holds t' k _ ok' present (there _ full (Holds-hash_read t k present full))
      | inl e ↦ elim (Bool-cases (is_nil (hash_read t' k))) [
        | inl e' ↦ nil-eq _ e' ∙ sym (nil-eq _ e)
        | inr full ↦
            sym (hash_read-Holds t k _ ok present (back _ full (Holds-hash_read t' k present full)))
      ]
    ]

    module _ (t : Table) (k : Value) (present : is_nil k ≡ false) where
      pub read-array :
          is_in_array host t (arrayindex host k) ≡ true
          → read t k ≡ get_or t.array (pos_index host (arrayindex host k) - 1) nil
      unfolding read value_at
      read-array e = rw (read, get_lem t k present, e) refl

      pub get-array :
          is_in_array host t (arrayindex host k) ≡ true
          → get host t k ≡ in_array (pos_index host (arrayindex host k) - 1)
      get-array e = rw (get_lem t k present, e) refl

      pub get-hash :
          is_in_array host t (arrayindex host k) ≡ false → get host t k ≡ get_default host t k
      get-hash e = rw (get_lem t k present, e) refl

      pub read-hash : is_in_array host t (arrayindex host k) ≡ false → read t k ≡ hash_read t k
      unfolding read
      read-hash e = ap (value_at t) (get-hash e)

  -- Which keys are in the array part, depends on its length only.
  pub is_in_array-eq :
      (t t' : Table) (z : ℤ)
      → length t.array ≡ length t'.array
      → is_in_array host t z ≡ is_in_array host t' z
  unfolding is_in_array
  is_in_array-eq t t' (pos k) e = rw e refl
  is_in_array-eq t t' (negsuc k) e = refl

  pub is_in_array-index :
      (t : Table) (z : ℤ)
      → is_in_array host t z ≡ true
      → (i : ℕ) × (z ≡ pos (suc i)) × (i < length t.array)
  unfolding is_in_array
  is_in_array-index t (pos zero) e = cc
  is_in_array-index t (pos (suc i)) e = (i, refl, ground (arith, e))
  is_in_array-index t (negsuc i) e = cc
