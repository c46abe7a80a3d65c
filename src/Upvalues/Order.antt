-- ===== src/Upvalues/Order.antt =====
-- The chain of open upvalues is ordered by the slots of the stack.
use lua_reading.Prelude.{
  ℕ, ◌≤◌, ◌<◌, ◌≡◌, refl, ◌⊎◌, inl, inr, false, Option, none, some, List, [], ◌∷◌, arith, leb, ◌==◌,
  Bool-cases, All,
}
use lua_reading.Upvalues.{UpVal, walk, resurrect, chain_in, State, found_or_new, findupval}

-- Every slot is below `n`.
abbrev pub AreBelow : ℕ → List UpVal → Type 0
AreBelow n = All (λ u. u.v < n)

abbrev pub IsOrdered : List UpVal → Type 0
IsOrdered [] = Unit {0}
IsOrdered (u ∷ us) = AreBelow u.v us × IsOrdered us

-- A live upvalue of the chain has the address `a` and the slot `level`.
abbrev pub HasLive : ℕ → ℕ → List UpVal → Type 0
HasLive level a [] = ⊥
HasLive level a (u ∷ us) = ((u.v ≡ level) × (u.addr ≡ a) × (u.is_dead ≡ false)) ⊎ HasLive level a us

resurrect-AreBelow :
    (n level : ℕ) (us : List UpVal) → AreBelow n us → AreBelow n (resurrect level us)
unfolding resurrect
resurrect-AreBelow n level [] h = tt
resurrect-AreBelow n level (u ∷ us) h = ground (arith, h.0, h.1, resurrect-AreBelow n level us h.1)

resurrect-IsOrdered : (level : ℕ) (us : List UpVal) → IsOrdered us → IsOrdered (resurrect level us)
unfolding resurrect
resurrect-IsOrdered level [] h = tt
resurrect-IsOrdered level (u ∷ us) h =
    ground (arith, h.0, h.1, resurrect-IsOrdered level us h.1, resurrect-AreBelow u.v level us h.0)

pub AreBelow-le : (m n : ℕ) (us : List UpVal) → m ≤ n → AreBelow m us → AreBelow n us
AreBelow-le m n [] le h = tt
AreBelow-le m n (u ∷ us) le h = (omega (arith, le, h.0), AreBelow-le m n us le h.1)

chain_in-AreBelow :
    (n level : ℕ) (uv : UpVal) (us : List UpVal)
    → uv.v ≡ level
    → level < n
    → AreBelow n us
    → AreBelow n (chain_in level uv us)
unfolding chain_in
chain_in-AreBelow n level uv [] e le h = (omega arith, tt)
chain_in-AreBelow n level uv (u ∷ us) e le h =
    ground (arith, e, le, h.0, h.1, chain_in-AreBelow n level uv us e le h.1)

chain_in-IsOrdered :
    (level : ℕ) (uv : UpVal) (us : List UpVal)
    → uv.v ≡ level
    → walk level us ≡ none
    → IsOrdered us
    → IsOrdered (chain_in level uv us)
unfolding chain_in walk
chain_in-IsOrdered level uv [] e absent h = (tt, tt)
chain_in-IsOrdered level uv (u ∷ us) e absent h = elim (Bool-cases (leb level u.v)) [
  | inr below ↦
      let less : u.v < level = ground (arith, below) in
      let all = AreBelow-le u.v uv.v us (omega arith) h.0 in rw below ((omega arith, all), h)
  | inl above ↦
      let other : (u.v == level) ≡ false = ground (arith, absent, above) in
      let absent' : walk level us ≡ none = ground (arith, absent, above, other) in
      rw above (
        chain_in-AreBelow u.v level uv us e (ground (arith, above, other)) h.0,
        chain_in-IsOrdered level uv us e absent' h.1,
      )
]

walk-HasLive :
    (level a : ℕ) (us : List UpVal) → walk level us ≡ some a → HasLive level a (resurrect level us)
unfolding walk resurrect
walk-HasLive level a [] h = cc
walk-HasLive level a (u ∷ us) h = elim (Bool-cases (leb level u.v)) [
  | inr below ↦ ground (arith, h, below)
  | inl above ↦ elim (Bool-cases (u.v == level)) [
    | inl e ↦ rw (above, e) (inl (ground (arith, e), ground (arith, h, above, e), refl))
    | inr e ↦ rw (above, e) (inr (walk-HasLive level a us (ground (arith, h, above, e))))
  ]
]

chain_in-HasLive :
    (level : ℕ) (uv : UpVal) (us : List UpVal)
    → uv.v ≡ level
    → uv.is_dead ≡ false
    → HasLive level uv.addr (chain_in level uv us)
unfolding chain_in
chain_in-HasLive level uv [] e live = inl (e, refl, live)
chain_in-HasLive level uv (u ∷ us) e live = elim (Bool-cases (leb level u.v)) [
  | inr below ↦ rw below (inl (e, refl, live))
  | inl above ↦ rw above (inr (chain_in-HasLive level uv us e live))
]

module _ (V : Type 0) where
  found_or_new-IsOrdered :
      (level new : ℕ) (st : State V) (o : Option ℕ)
      → walk level st.openupval ≡ o
      → IsOrdered st.openupval
      → let (a, st') = found_or_new V level new st o in
        IsOrdered st'.openupval × HasLive level a st'.openupval
  found_or_new-IsOrdered level new st (some a) same h =
      (resurrect-IsOrdered level st.openupval h, walk-HasLive level a st.openupval same)
  found_or_new-IsOrdered level new st none same h = (
    chain_in-IsOrdered level _ st.openupval refl same h,
    chain_in-HasLive level _ st.openupval refl refl,
  )

  -- `luaF_findupval` keeps the chain ordered, and gives a live upvalue of it for the slot.
  pub findupval-IsOrdered :
      (level new : ℕ) (st : State V)
      → IsOrdered st.openupval
      → let (a, st') = findupval V level new st in
        IsOrdered st'.openupval × HasLive level a st'.openupval
  unfolding findupval
  findupval-IsOrdered level new st h = found_or_new-IsOrdered level new st _ refl h
