-- ===== src/Upvalues/Sharing.antt =====
-- Closures share upvalues, and an upvalue keeps its value when its slot goes.
use lua_reading.Prelude.{
  ℕ, ◌<◌, ◌≡◌, refl, ◌∙◌, inl, inr, false, Option, none, some, List, [], ◌∷◌, arith, leb, ◌==◌,
  if◌then◌else◌, ==_iff, Bool-cases, All,
}
use lua_reading.Upvalues.{
  UpVal, walk, resurrect, chain_in, Closed, State, found_or_new, findupval, close_one, close_loop,
  close,
}
use lua_reading.Upvalues.Order.{AreBelow, AreBelow-le, IsOrdered}

walk-resurrect : (level : ℕ) (us : List UpVal) → walk level (resurrect level us) ≡ walk level us
unfolding walk resurrect
walk-resurrect level [] = refl
walk-resurrect level (u ∷ us) = ground (arith, walk-resurrect level us)

resurrect-resurrect :
    (level : ℕ) (us : List UpVal) → resurrect level (resurrect level us) ≡ resurrect level us
unfolding resurrect
resurrect-resurrect level [] = refl
resurrect-resurrect level (u ∷ us) = ground (arith, resurrect-resurrect level us)

walk-chain_in :
    (level : ℕ) (uv : UpVal) (us : List UpVal)
    → uv.v ≡ level
    → walk level us ≡ none
    → walk level (chain_in level uv us) ≡ some uv.addr
unfolding walk chain_in
walk-chain_in level uv [] e h = ground (arith, e)
walk-chain_in level uv (u ∷ us) e h = ground (arith, e, h, walk-chain_in level uv us)

resurrect-chain_in :
    (level : ℕ) (uv : UpVal) (us : List UpVal)
    → uv.v ≡ level
    → uv.is_dead ≡ false
    → walk level us ≡ none
    → resurrect level (chain_in level uv us) ≡ chain_in level uv us
unfolding walk chain_in resurrect
resurrect-chain_in level uv [] e live h = ground (arith, e, live)
resurrect-chain_in level uv (u ∷ us) e live h =
    ground (arith, e, live, h, resurrect-chain_in level uv us)

-- The slot of an open upvalue, by its address.
abbrev pub slot_of : ℕ → List UpVal → Option ℕ
slot_of a [] = none
slot_of a (u ∷ us) = let further = slot_of a us in if u.addr == a then some u.v else further

-- No two have the same address.
abbrev pub AreDistinct : List UpVal → Type 0
AreDistinct [] = Unit {0}
AreDistinct (u ∷ us) = (slot_of u.addr us ≡ none) × AreDistinct us

abbrev pub IsLive : ℕ → List UpVal → Type 0
IsLive a = All (λ u. u.addr ≡ a → u.is_dead ≡ false)

module _ (V : Type 0) where
  abbrev pub value_of : ℕ → List (Closed V) → Option V
  value_of a [] = none
  value_of a (c ∷ cs) = let further = value_of a cs in if c.addr == a then some c.value else further

  abbrev pub read_with : ℕ → State V → Option ℕ → Option V
  read_with a st (some slot) = some (st.stack slot)
  read_with a st none = value_of a st.gcroot

  -- The value of an upvalue, where its `v` points.
  abbrev pub read : ℕ → State V → Option V
  read a st = read_with a st (slot_of a st.openupval)

  found_or_new_again :
      (level new new' : ℕ) (st : State V) (o : Option ℕ)
      → walk level st.openupval ≡ o
      → let (a, st') = found_or_new V level new st o in
        found_or_new V level new' st' (walk level st'.openupval) ≡ (a, st')
  found_or_new_again level new new' st (some a) same =
      rw (walk-resurrect level st.openupval, same, resurrect-resurrect level st.openupval) refl
  found_or_new_again level new new' st none same =
      let uv : UpVal = record { addr = new; v = level; is_dead = false } in
      rw
        (
          walk-chain_in level uv st.openupval refl same,
          resurrect-chain_in level uv st.openupval refl refl same,
        )
        refl

  -- Asked again for a slot, `luaF_findupval` gives the same upvalue and changes nothing.
  pub findupval-findupval :
      (level new new' : ℕ) (st : State V)
      → let (a, st') = findupval V level new st in findupval V level new' st' ≡ (a, st')
  unfolding findupval
  findupval-findupval level new new' st = found_or_new_again level new new' st _ refl

  passed :
      (a : ℕ) (uv : UpVal) (rest : List UpVal) (st : State V)
      → (uv.addr == a) ≡ false
      → (o : Option ℕ)
      → read_with a (close_one V uv (record st { openupval = rest })) o ≡ read_with a st o
  passed a uv rest st h (some slot) = refl
  passed a uv rest st h none = elim (Bool-cases uv.is_dead) [
    | inl dead ↦ rw dead refl
    | inr alive ↦ rw (alive, h) refl
  ]

  close_one-read :
      (a : ℕ) (uv : UpVal) (rest : List UpVal) (st : State V)
      → st.openupval ≡ uv ∷ rest
      → slot_of uv.addr rest ≡ none
      → (uv.addr ≡ a → uv.is_dead ≡ false)
      → read a (close_one V uv (record st { openupval = rest })) ≡ read a st
  close_one-read a uv rest st e distinct live = elim (Bool-cases (uv.addr == a)) [
    | inl h ↦
        let same : uv.addr ≡ a = (==_iff _ _).0 h in
        let here : slot_of a rest ≡ none = rw same at distinct in rw (e, here, live same, h) refl
    | inr h ↦ rw (e, h) (passed a uv rest st h (slot_of a rest))
  ]

  close_loop-read :
      (a level : ℕ) (us : List UpVal) (st : State V)
      → st.openupval ≡ us
      → AreDistinct us
      → IsLive a us
      → read a (close_loop V level us st) ≡ read a st
  unfolding close_loop
  close_loop-read a level [] st e distinct live = refl
  close_loop-read a level (uv ∷ rest) st e distinct live = elim (Bool-cases (leb level uv.v)) [
    | inl h ↦ rw h (
        close_loop-read a level rest (close_one V uv (record st { openupval = rest })) refl
          distinct.1 live.1
        ∙ close_one-read a uv rest st e distinct.0 live.0)
    | inr h ↦ rw h refl
  ]

  close_loop-AreBelow :
      (level : ℕ) (us : List UpVal) (st : State V)
      → st.openupval ≡ us
      → IsOrdered us
      → AreBelow level (State.openupval (close_loop V level us st))
        × IsOrdered (State.openupval (close_loop V level us st))
  unfolding close_loop
  close_loop-AreBelow level [] st e h = rw e (tt, tt)
  close_loop-AreBelow level (uv ∷ rest) st e h = elim (Bool-cases (leb level uv.v)) [
    | inl above ↦
        rw above (
          close_loop-AreBelow level rest (close_one V uv (record st { openupval = rest })) refl h.1)
    | inr below ↦
        let less : uv.v < level = ground (arith, below) in
        rw (below, e) ((less, AreBelow-le uv.v level rest (omega arith) h.0), h)
  ]

  -- `luaF_close` keeps the chain ordered, and leaves no upvalue open at `level` or above it.
  pub close-AreBelow :
      (level : ℕ) (st : State V)
      → IsOrdered st.openupval
      → AreBelow level (State.openupval (close V level st))
        × IsOrdered (State.openupval (close V level st))
  unfolding close
  close-AreBelow level st h = close_loop-AreBelow level st.openupval st refl h

  -- If no two open upvalues have the same address, `luaF_close` changes the value of no live upvalue.
  pub read-close :
      (a level : ℕ) (st : State V)
      → AreDistinct st.openupval
      → IsLive a st.openupval
      → read a (close V level st) ≡ read a st
  unfolding close
  read-close a level st distinct live = close_loop-read a level st.openupval st refl distinct live
