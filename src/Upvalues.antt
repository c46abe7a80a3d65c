-- ===== src/Upvalues.antt =====
-- src/lfunc.c: the open upvalues of a thread. An upvalue is known by its address. The chain of `next`
-- pointers is a list, the highest slot of the stack first; the doubly linked list `uvhead` of all
-- open upvalues is a list of addresses.
use lua_reading.Prelude.{
  ℕ, zero, suc, ◌+◌, ◌-◌, ◌*◌, ◌/◌, ◌%◌, ◌^◌, ◌≤◌, ◌<◌, min, ◌≡◌, refl, sym, ap, ap₂, ◌∙◌, ◌≢◌, ◌↔◌,
  ◌⊎◌, inl, inr, Bool, true, false, not, ◌&&◌, ◌||◌, Option, none, some, List, [], ◌∷◌, ◌++◌, map,
  arith, ltb, leb, ◌==◌, if◌then◌else◌, ltb→lt, lt→ltb, ==_iff, Bool-cases, Option-cases, length,
  get_elem?, get_or, take, drop, All, length-append, length-drop, take-append, drop-append,
  get_elem?-lt,
}
pub mod Order
pub mod Sharing

-- An open upvalue, whose value is the stack's slot `v`. `is_dead` is what `isdead` says of it.
pub record UpVal : Type 0 where
  pub addr : ℕ
  pub v : ℕ
  pub is_dead : Bool

-- The loop of `luaF_findupval`.
unfoldable pub walk : ℕ → List UpVal → Option ℕ
walk level [] = none
walk level (p ∷ ps) =
    let further = walk level ps in
    if leb level p.v then (if p.v == level then some p.addr else further) else none

-- `if (isdead(g, obj2gco(p))) changewhite(obj2gco(p));` for the upvalue that the loop finds.
unfoldable pub resurrect : ℕ → List UpVal → List UpVal
resurrect level [] = []
resurrect level (p ∷ ps) =
    let further = p ∷ resurrect level ps in
    if leb level p.v
    then (if p.v == level then record p { is_dead = false } ∷ ps else further)
    else p ∷ ps

-- `uv->next = *pp; *pp = obj2gco(uv);`, `pp` being where the loop has stopped.
unfoldable pub chain_in : ℕ → UpVal → List UpVal → List UpVal
chain_in level uv [] = uv ∷ []
chain_in level uv (p ∷ ps) =
    let further = p ∷ chain_in level uv ps in if leb level p.v then further else uv ∷ p ∷ ps

-- `unlinkupval`
unfoldable pub unlinkupval : ℕ → List ℕ → List ℕ
unlinkupval a [] = []
unlinkupval a (b ∷ bs) = let further = b ∷ unlinkupval a bs in if b == a then bs else further

module _ (V : Type 0) where
  -- A closed upvalue, which has its own value.
  pub record Closed : Type 0 where
    pub addr : ℕ
    pub value : V

  pub record State : Type 0 where
    pub stack : ℕ → V
    pub openupval : List UpVal
    pub uvhead : List ℕ
    pub gcroot : List Closed

  -- What `luaF_findupval` makes of the outcome of its loop; `new` is the address that `luaM_new` gives.
  abbrev pub found_or_new : ℕ → ℕ → State → Option ℕ → ℕ × State
  found_or_new level new st (some a) = (a, record st { openupval = resurrect level st.openupval })
  found_or_new level new st none =
      let uv : UpVal = record { addr = new; v = level; is_dead = false } in
      (new, record st { openupval = chain_in level uv st.openupval; uvhead = new ∷ st.uvhead })

  unfoldable pub findupval : ℕ → ℕ → State → ℕ × State
  findupval level new st = found_or_new level new st (walk level st.openupval)

  -- The body of the loop of `luaF_close`, after `uv` has left the chain. `luaF_freeupval` of a dead one
  -- unlinks it too.
  abbrev pub close_one : UpVal → State → State
  close_one uv st = record st {
    uvhead = unlinkupval uv.addr st.uvhead;
    gcroot =
        if uv.is_dead
        then st.gcroot
        else record { addr = uv.addr; value = st.stack uv.v } ∷ st.gcroot;
  }

  -- The loop of `luaF_close`, on the chain that is left.
  unfoldable pub close_loop : ℕ → List UpVal → State → State
  close_loop level [] st = st
  close_loop level (uv ∷ rest) st =
      let closed = close_loop level rest (close_one uv (record st { openupval = rest })) in
      if leb level uv.v then closed else st

  unfoldable pub close : ℕ → State → State
  close level st = close_loop level st.openupval st
