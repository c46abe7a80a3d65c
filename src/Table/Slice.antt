-- ===== src/Table/Slice.antt =====
-- `resize` of src/ltable.c: the slice of the old array part that vanishes.
use lua_reading.Prelude.{
  ℕ, suc, ◌+◌, ◌-◌, ◌^◌, ◌≤◌, ◌<◌, true, false, ◌==◌, ==_iff, ◌≡◌, refl, sym, ap, ◌∙◌, inl, inr,
  arith, Bool-cases, List, [], ◌∷◌, length, get_or,
}
use lua_reading.Prelude.Int.{pos}
use lua_reading.Table.{Value, nil, number, Host, Table, Place, is_nil, rawequal, get}
use lua_reading.Table.Keys.{ComparesNumbers}
use lua_reading.Table.Traversal.{arrayindex, is_in_array, pos_index}
use lua_reading.Table.Visits.{ConvertsIndices}
use lua_reading.Table.Lookup.{
  SameIntegers, IsKey, read, arrayindex-eq, same_index, read-array, nil-eq,
}
use lua_reading.Table.Growth.{Answer, answer, set_key, set_num, insert_slice, newkey_at, store}
use lua_reading.Table.Store.{room, IsLive}
use lua_reading.Table.Enter.{set_key-Puts}
use lua_reading.Table.Refill.{
  is_in_array-fits, count_values, Follows, Refills, Refills-none, Refills-trans, put-settles,
  put-Refills,
}

module _ (host : Host) where
  abbrev index_key : ℕ → Value
  index_key i = number (Host.cast_num host (pos (suc i)))

  module _ (indices : ConvertsIndices host (2 ^ 26)) (i : ℕ) (small : suc i ≤ 2 ^ 26) where
    index_key-IsKey : IsKey host (index_key i)
    unfolding rawequal
    index_key-IsKey = record { present = refl; self = indices.self (suc i) small }

    arrayindex-index_key : arrayindex host (index_key i) ≡ pos (suc i)
    unfolding arrayindex
    arrayindex-index_key = rw (indices.back (suc i) small, indices.self (suc i) small) refl

    -- `luaH_setnum` is `luaH_set` of the number.
    set_num-set_key :
        (enter : Table → Value → Answer (Table × Place)) (t : Table)
        → set_num host enter t (pos (suc i)) ≡ set_key host enter t (index_key i)
    unfolding set_num set_key get
    set_num-set_key enter t = rw (indices.back (suc i) small, indices.self (suc i) small) refl

  module _ (enter : Table → Value → Answer (Table × Place)) (vs : List Value) (i : ℕ) (v : Value)
      (t : Table) where
    insert_slice-empty :
        is_nil v ≡ true
        → insert_slice host enter (v ∷ vs) i t ≡ insert_slice host enter vs (suc i) t
    unfolding insert_slice
    insert_slice-empty e = rw e refl

    insert_slice-full :
        (r : Table × Place)
        → is_nil v ≡ false
        → set_num host enter t (pos (suc i)) ≡ answer r
        → insert_slice host enter (v ∷ vs) i t
          ≡ insert_slice host enter vs (suc i) (store r.0 r.1 v)
    unfolding insert_slice
    insert_slice-full r e s = rw (e, s) refl

  module _ (law : ComparesNumbers host) (ints : SameIntegers host)
      (indices : ConvertsIndices host (2 ^ 26)) (old : Table) (ok : IsLive host old) where
    module _ (depth : ℕ) where
      -- What is in the array part of the old table from `i` on, is settled.
      abbrev pub SliceSettled : ℕ → Table → Type 0
      SliceSettled i t =
          (k : Value) (j : ℕ)
          → IsKey host k
          → i ≤ j
          → j < length old.array
          → arrayindex host k ≡ pos (suc j)
          → read host t k ≡ read host old k

      old_slot :
          (k : Value) (j : ℕ)
          → IsKey host k
          → j < length old.array
          → arrayindex host k ≡ pos (suc j)
          → read host old k ≡ get_or old.array j nil
      old_slot k j kk less index =
          let slot : pos_index host (arrayindex host k) - 1 ≡ j = rw index (omega arith) in
          let inside : is_in_array host old (arrayindex host k) ≡ true =
            is_in_array-fits host old _ ∙ rw index (ground (arith, less)) in
          read-array host law old k kk.present inside ∙ ap (λ x. get_or old.array x nil) slot

      further :
          (v : Value) (vs : List Value) (i : ℕ)
          → ((j : ℕ) → get_or (v ∷ vs) j nil ≡ get_or old.array (i + j) nil)
          → (j : ℕ) → get_or vs j nil ≡ get_or old.array (suc i + j) nil
      further v vs i same j = let e : suc i + j ≡ i + suc j = omega arith in rw e (same (suc j))

      -- A value of the slice is what the old table reads under its index.
      slot_value :
          (v : Value) (i : ℕ)
          → v ≡ get_or old.array (i + 0) nil
          → i < length old.array
          → (k : Value) → IsKey host k
          → arrayindex host k ≡ pos (suc i)
          → read host old k ≡ v
      slot_value v i same less k kk index =
          let e : i ≡ i + 0 = omega arith in
          old_slot k i kk less index ∙ (ap (λ x. get_or old.array x nil) e ∙ sym same)

      slice_next :
          (i : ℕ) (t : Table)
          → SliceSettled (suc i) t
          → ((k : Value)
              → IsKey host k
              → i < length old.array
              → arrayindex host k ≡ pos (suc i)
              → read host t k ≡ read host old k)
          → SliceSettled i t
      slice_next i t settled here k j kk h less index = elim (Bool-cases (j == i)) [
        | inr other ↦ settled k j kk (ground (arith, other, h)) less index
        | inl one ↦
            let j_is : j ≡ i = (==_iff j i).0 one in
            here k kk (omega (arith, j_is, less)) (index ∙ ap (λ x. pos (suc x)) j_is)
      ]

      abbrev SliceFilled : List Value → ℕ → Table → Type 0
      SliceFilled vs i t =
          (t' : Table) × (insert_slice host (newkey_at host (suc depth)) vs i t ≡ answer t')
          × Refills host law ints indices old ok t (count_values vs) t'
          × SliceSettled i t'

      -- A nil in the slice is passed.
      slice_empty :
          (v : Value) (vs : List Value) (i : ℕ) (t : Table)
          → is_nil v ≡ true
          → v ≡ get_or old.array (i + 0) nil
          → SliceFilled vs (suc i) t
          → SliceFilled (v ∷ vs) i t
      slice_empty v vs i t empty same (t', go, r, settled) =
          let none : count_values vs ≡ count_values (v ∷ vs) = rw empty (omega arith) in
          (
            t',
            insert_slice-empty _ vs i v t empty ∙ go,
            rw (← none) r,
            slice_next i t' settled (λ k kk less index.
                let none_there = slot_value v i same less k kk index ∙ nil-eq v empty in
                elim (r.follows.sound k kk) [ inl gone ↦ gone ∙ sym none_there | inr done ↦ done ]),
          )

      pub slice-Refills :
          (vs : List Value) (i : ℕ) (t : Table)
          → Follows host law ints indices old ok t
          → i + length vs ≡ length old.array
          → length t.array ≤ i
          → ((j : ℕ) → get_or vs j nil ≡ get_or old.array (i + j) nil)
          → count_values vs ≤ room t
          → SliceFilled vs i t
      unfolding insert_slice
      slice-Refills [] i t f e outside same enough = (
        t,
        refl,
        Refills-none host law ints indices old ok t f,
        λ k j kk h h'. absurd (omega (arith, e)),
      )
      slice-Refills (v ∷ vs) i t f e outside same enough = elim (Bool-cases (is_nil v)) [
        | inl empty ↦
            let none : count_values (v ∷ vs) ≡ count_values vs = rw empty (omega arith) in
            slice_empty v vs i t empty (same 0) (
              slice-Refills vs (suc i) t f (omega (arith, e)) (omega (arith, outside))
                (further v vs i same) (omega (arith, none, enough)))
        | inr full ↦
            let small : suc i ≤ 2 ^ 26 = omega (arith, e, ok.small_array) in
            let key = index_key i in
            let at_key = arrayindex-index_key indices i small in
            let one : count_values (v ∷ vs) ≡ 1 + count_values vs = rw full refl in
            let (s, go, p) =
              set_key-Puts host law ints t f.live key (index_key-IsKey indices i small) depth v
                (inr (omega (arith, enough, one))) in
            let value = λ (k : Value) (kk : IsKey host k) (q : rawequal host key k ≡ true).
              slot_value v i (same 0) (omega (arith, e)) k kk
                (sym (arrayindex-eq host law ints key k q) ∙ at_key) in
            let t1 = store s.0 s.1 v in
            let first = put-Refills host law ints indices old ok t f key v t1 p value in
            let (t', go', rest, settled) =
              slice-Refills vs (suc i) t1 first.follows (omega (arith, e))
                (omega (arith, outside, first.same_length)) (further v vs i same)
                (omega (arith, enough, one, first.spends)) in
            (
              t',
              insert_slice-full _ vs i v t s full
                    (set_num-set_key indices i small (newkey_at host (suc depth)) t ∙ go)
                  ∙ go',
              rw one (
                  Refills-trans host law ints indices old ok t t1 t' 1 (count_values vs) first
                    rest),
              slice_next i t' settled (λ k kk less index. rest.keeps k kk (
                  put-settles host law ints indices old ok t f key v t1 p value k kk
                    (same_index host law key k (suc i) at_key index))),
            )
      ]
