-- ===== src/Table/Refill.antt =====
-- `resize` of src/ltable.c: an entry of the old table that is inserted into the new one.
use lua_reading.Prelude.{
  ℕ, zero, suc, ◌+◌, ◌^◌, ◌≤◌, Bool, true, false, ◌&&◌, ◌||◌, ltb, leb, ◌≡◌, refl, sym, ◌∙◌, ◌⊎◌,
  inl, inr, arith, if◌then◌else◌, Bool-cases, List, [], ◌∷◌, length,
}
use lua_reading.Prelude.Int.{ℤ, pos, negsuc}
use lua_reading.Table.{Value, nil, Host, Node, Table, is_nil, rawequal}
use lua_reading.Table.Keys.{ComparesNumbers}
use lua_reading.Table.Traversal.{arrayindex, is_in_array}
use lua_reading.Table.Visits.{ConvertsIndices}
use lua_reading.Table.Lookup.{SameIntegers, IsKey, read}
use lua_reading.Table.Store.{room, IsLive}
use lua_reading.Table.Enter.{Puts}

-- An index of an array part of `n` values.
abbrev pub index_fits : ℕ → ℤ → Bool
index_fits n (pos i) = ltb 0 i && leb i n
index_fits n (negsuc i) = false

-- The values that are not nil.
abbrev pub count_values : List Value → ℕ
count_values [] = 0
count_values (v ∷ vs) = (if is_nil v then 0 else 1) + count_values vs

module _ (host : Host) where
  pub is_in_array-fits : (t : Table) (z : ℤ) → is_in_array host t z ≡ index_fits (length t.array) z
  unfolding is_in_array
  is_in_array-fits t (pos i) = refl
  is_in_array-fits t (negsuc i) = refl

  -- 1 for an entry that does not go to an array part of `n` values.
  abbrev pub hashed : ℕ → Node → ℕ
  hashed n x = if is_nil (Node.val x) || index_fits n (arrayindex host (Node.key x)) then 0 else 1

  -- Such entries in the nodes below `i`.
  abbrev pub count_hashed : ℕ → (ℕ → Node) → ℕ → ℕ
  count_hashed n node zero = 0
  count_hashed n node (suc i) = hashed n (node i) + count_hashed n node i

  module _ (law : ComparesNumbers host) (ints : SameIntegers host)
      (indices : ConvertsIndices host (2 ^ 26)) (old : Table) (ok : IsLive host old) where
    -- The table reads under the key what the old one does.
    abbrev pub Settled : Table → Value → Type 0
    Settled t k = read host t k ≡ read host old k

    -- A table with some of the entries of the old one.
    pub record Follows (t : Table) : Type 0 where
      pub live : IsLive host t
      pub sound : (k : Value) → IsKey host k → (read host t k ≡ nil) ⊎ Settled t k

    -- One that has more of them, with `spent` nodes taken.
    pub record Refills (t : Table) (spent : ℕ) (t' : Table) : Type 0 where
      pub follows : Follows t'
      pub keeps : (k : Value) → IsKey host k → Settled t k → Settled t' k
      pub same_length : length t'.array ≡ length t.array
      pub spends : room t ≤ spent + room t'

    pub Refills-none : (t : Table) → Follows t → Refills t 0 t
    Refills-none t f = record {
      follows = f;
      keeps = λ k kk e. e;
      same_length = refl;
      spends = omega arith;
    }

    pub Refills-trans :
        (t t' t'' : Table) (a b : ℕ) → Refills t a t' → Refills t' b t'' → Refills t (a + b) t''
    Refills-trans t t' t'' a b r s = record {
      follows = s.follows;
      keeps = λ k kk e. s.keeps k kk (r.keeps k kk e);
      same_length = s.same_length ∙ r.same_length;
      spends = omega (arith, r.spends, s.spends);
    }

    -- An entry of the old table is put.
    module _ (t : Table) (f : Follows t) (key v : Value) (t' : Table) (p : Puts host t key v t')
        (old_value : (k : Value)
          → IsKey host k
          → rawequal host key k ≡ true
          → read host old k ≡ v) where
      pub put-settles : (k : Value) → IsKey host k → rawequal host key k ≡ true → Settled t' k
      put-settles k kk s = p.reads k kk ∙ rw s (sym (old_value k kk s))

      pub put-keeps : (k : Value) → IsKey host k → Settled t k → Settled t' k
      put-keeps k kk e = elim (Bool-cases (rawequal host key k)) [
        | inl s ↦ put-settles k kk s
        | inr n ↦ p.reads k kk ∙ rw n e
      ]

      pub put-Follows : Follows t'
      put-Follows = record {
        live = p.live;
        sound = λ k kk. elim (f.sound k kk) [
          | inr e ↦ inr (put-keeps k kk e)
          | inl e ↦ elim (Bool-cases (rawequal host key k)) [
            | inl s ↦ inr (put-settles k kk s)
            | inr n ↦ inl (p.reads k kk ∙ rw n e)
          ]
        ];
      }

      pub put-Refills : Refills t 1 t'
      put-Refills = record {
        follows = put-Follows;
        keeps = put-keeps;
        same_length = p.same_length;
        spends = omega (arith, p.takes_one);
      }

      pub put-Refills_none : is_in_array host t (arrayindex host key) ≡ true → Refills t 0 t'
      put-Refills_none inside = record {
        follows = put-Follows;
        keeps = put-keeps;
        same_length = p.same_length;
        spends = omega (arith, p.takes_none inside);
      }
