-- ===== src/Sequence.antt =====
-- src/ltablib.c: `table.insert` and `table.remove`, which move the elements of a table by one place.
-- The table is a function of the integer key; `lua_rawgeti` and `lua_rawseti` read and write it, and
-- `n` is what `aux_getn` answers.
pub mod Moves
use lua_reading.Prelude.{
  ℕ, zero, suc, ◌+◌, ◌-◌, ◌*◌, ◌/◌, ◌%◌, ◌^◌, ◌≤◌, ◌<◌, min, ◌≡◌, refl, sym, ap, ap₂, ◌∙◌, ◌≢◌, ◌↔◌,
  ◌⊎◌, inl, inr, Bool, true, false, not, ◌&&◌, ◌||◌, Option, none, some, List, [], ◌∷◌, ◌++◌, map,
  arith, ltb, leb, ◌==◌, if◌then◌else◌, ltb→lt, lt→ltb, ==_iff, Bool-cases, Option-cases, length,
  get_elem?, get_or, take, drop, All, length-append, length-drop, take-append, drop-append,
  get_elem?-lt,
}
use lua_reading.Prelude.Int.{ℤ, pos, negsuc, pos_part, ◌+ℤ◌, ltb_ℤ}

abbrev pub same_key : ℤ → ℤ → Bool
same_key (pos i) (pos j) = i == j
same_key (negsuc i) (negsuc j) = i == j
same_key (pos i) (negsuc j) = false
same_key (negsuc i) (pos j) = false

-- How far `a` is above `b`, or 0.
abbrev pub above : ℤ → ℤ → ℕ
above (pos a) (pos b) = a - b
above (pos a) (negsuc b) = a + suc b
above (negsuc a) (pos b) = 0
above (negsuc a) (negsuc b) = b - a

-- `luaL_optint(L, 2, e)`
abbrev pub given : ℕ → Option ℤ → ℤ
given n none = pos n
given n (some p) = p

module _ {V : Type 0} (nothing : V) where
  -- `lua_rawseti`
  abbrev pub rawset : (ℤ → V) → ℤ → V → ℤ → V
  rawset t i v j = if same_key j i then v else t j

  -- `for (i = e; i > pos; i--) t[i] = t[i-1]`, where `i` is `pos` and `k` more.
  unfoldable pub move_up : ℤ → ℕ → (ℤ → V) → ℤ → V
  move_up p zero t = t
  move_up p (suc k) t = move_up p k (rawset t (p +ℤ pos (suc k)) (t (p +ℤ pos k)))

  -- `case 3`
  unfoldable pub insert_at : ℕ → ℤ → V → (ℤ → V) → ℤ → V
  insert_at n p v t =
      let first_empty = pos (n + 1) in
      let e = if ltb_ℤ first_empty p then p else first_empty in rawset (move_up p (above e p) t) p v

  -- `tinsert` called with `top` arguments; `none` is the error about their number.
  unfoldable pub tinsert : ℕ → ℕ → ℤ → V → (ℤ → V) → Option (ℤ → V)
  tinsert top n p v t =
      if top == 2
      then some (rawset t (pos (n + 1)) v)
      else if top == 3
      then some (insert_at n p v t)
      else none

  -- `for ( ;pos<e; pos++) t[pos] = t[pos+1]`, with the rounds that are left.
  unfoldable pub move_down : ℕ → ℕ → (ℤ → V) → ℤ → V
  move_down zero p t = t
  move_down (suc left) p t = move_down left (suc p) (rawset t (pos p) (t (pos (suc p))))

  -- `tremove`: the results, and the table.
  unfoldable pub tremove : ℕ → Option ℤ → (ℤ → V) → Option V × (ℤ → V)
  tremove n argument t =
      let p = given n argument in
      if leb 1 (pos_part p) && leb (pos_part p) n
      then (some (t p), rawset (move_down (n - pos_part p) (pos_part p) t) (pos n) nothing)
      else (none, t)
