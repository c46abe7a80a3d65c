-- ===== src/References.antt =====
-- src/lauxlib.c: `luaL_ref` and `luaL_unref`, which keep values of the host in a table and number
-- them. The table is a function of the key; the free numbers are a list in it that begins at
-- FREELIST_REF, key 0. The border that `lua_objlen` answers is a parameter.
pub mod Free
use lua_reading.Prelude.{
  ℕ, zero, suc, ◌+◌, ◌-◌, ◌*◌, ◌/◌, ◌%◌, ◌^◌, ◌≤◌, ◌<◌, min, ◌≡◌, refl, sym, ap, ap₂, ◌∙◌, ◌≢◌, ◌↔◌,
  ◌⊎◌, inl, inr, Bool, true, false, not, ◌&&◌, ◌||◌, Option, none, some, List, [], ◌∷◌, ◌++◌, map,
  arith, ltb, leb, ◌==◌, if◌then◌else◌, ltb→lt, lt→ltb, ==_iff, Bool-cases, Option-cases, length,
  get_elem?, get_or, take, drop, All, length-append, length-drop, take-append, drop-append,
  get_elem?-lt,
}
use lua_reading.Prelude.Int.{ℤ, pos, negsuc}

-- What a key has: nothing, an integer that these functions store, or a value of the host. Integers
-- are the links of the free list.
pub data Slot (A : Type 0) : Type 0 where
  nil : Slot A
  integer : ℕ → Slot A
  value : A → Slot A

module _ {A : Type 0} where
  -- `(int)lua_tointeger`, which is 0 of nil
  unfoldable pub to_integer : Slot A → ℕ
  to_integer (integer n) = n
  to_integer _ = 0

  abbrev pub is_empty : Slot A → Bool
  is_empty nil = true
  is_empty _ = false

  abbrev pub put_slot : (ℕ → Slot A) → ℕ → Slot A → ℕ → Slot A
  put_slot t i v k = if k == i then v else t k

  module _ (objlen : (ℕ → Slot A) → ℕ) where
    -- `luaL_ref` of a value that is not nil: the reference, and the table.
    unfoldable pub ref_value : A → (ℕ → Slot A) → ℕ × (ℕ → Slot A)
    ref_value v t =
        let first = to_integer (t 0) in
        if not (first == 0)
        then (first, put_slot (put_slot t 0 (t first)) first (value v))
        else (let new = objlen t + 1 in (new, put_slot t new (value v)))

    -- `luaL_ref`; nil has the reference LUA_REFNIL.
    unfoldable pub ref : Option A → (ℕ → Slot A) → ℤ × (ℕ → Slot A)
    ref none t = (negsuc 0, t)
    ref (some v) t = let (r, t') = ref_value v t in (pos r, t')

  -- `luaL_unref`
  unfoldable pub unref : ℤ → (ℕ → Slot A) → ℕ → Slot A
  unref (negsuc r) t = t
  unref (pos r) t = put_slot (put_slot t r (t 0)) 0 (integer r)
