-- ===== src/Sequence/Moves.antt =====
-- What `table.insert` and `table.remove` of src/ltablib.c leave where.
use lua_reading.Prelude.{
  ℕ, zero, suc, ◌+◌, ◌-◌, ◌≤◌, ◌<◌, ◌≡◌, refl, ap, ◌∙◌, inl, inr, true, false, ◌&&◌, some, arith,
  ltb, leb, ◌==◌, if◌then◌else◌, ==_iff, Bool-cases,
}
use lua_reading.Prelude.Int.{ℤ, pos, negsuc, ◌+ℤ◌, ltb_ℤ}
use lua_reading.Sequence.{rawset, move_up, insert_at, tinsert, move_down, tremove}

plus : (p k : ℕ) → pos p +ℤ pos k ≡ pos (p + k)
plus p k = ground arith

module _ {V : Type 0} (nothing : V) where
  -- The elements from `p` to `p + k - 1` one place up.
  abbrev shifted_up : ℕ → ℕ → (ℤ → V) → ℤ → V
  shifted_up p k t (negsuc j) = t (negsuc j)
  shifted_up p k t (pos j) = if ltb p j && leb j (p + k) then t (pos (j - 1)) else t (pos j)

  move_up-shifted_up :
      (p k : ℕ) (t : ℤ → V) (i : ℤ) → move_up nothing (pos p) k t i ≡ shifted_up p k t i
  unfolding move_up
  move_up-shifted_up p zero t (negsuc j) = refl
  move_up-shifted_up p zero t (pos j) = ground arith
  move_up-shifted_up p (suc k) t (negsuc j) =
      rw (plus p (suc k), plus p k)
        (move_up-shifted_up p k (rawset nothing t (pos (p + suc k)) (t (pos (p + k)))) (negsuc j))
  move_up-shifted_up p (suc k) t (pos j) =
      rw (plus p (suc k), plus p k)
        (move_up-shifted_up p k (rawset nothing t (pos (p + suc k)) (t (pos (p + k)))) (pos j)
          ∙ elim (Bool-cases (j == p + suc k)) [
            | inl e ↦
                let here : j ≡ p + suc k = (==_iff j (p + suc k)).0 e in
                let before : p + suc k - 1 ≡ p + k = omega arith in
                let inside : leb (p + suc k) (p + k) ≡ false = ground arith in
                let low : ltb p (p + suc k) ≡ true = ground arith in
                let high : leb (p + suc k) (p + suc k) ≡ true = ground arith in
                let same : p + suc k == p + suc k ≡ true = ground arith in
                rw (here, inside, low, high, same, before) refl
            | inr n ↦ ground (arith, n)
          ])

  -- The elements from `p + 1` to `p + left` one place down.
  abbrev shifted_down : ℕ → ℕ → (ℤ → V) → ℤ → V
  shifted_down left p t (negsuc j) = t (negsuc j)
  shifted_down left p t (pos j) = if leb p j && ltb j (p + left) then t (pos (suc j)) else t (pos j)

  move_down-shifted_down :
      (left p : ℕ) (t : ℤ → V) (i : ℤ) → move_down nothing left p t i ≡ shifted_down left p t i
  unfolding move_down
  move_down-shifted_down zero p t (negsuc j) = refl
  move_down-shifted_down zero p t (pos j) = ground arith
  move_down-shifted_down (suc left) p t (negsuc j) =
      move_down-shifted_down left (suc p) (rawset nothing t (pos p) (t (pos (suc p)))) (negsuc j)
  move_down-shifted_down (suc left) p t (pos j) =
      move_down-shifted_down left (suc p) (rawset nothing t (pos p) (t (pos (suc p)))) (pos j)
      ∙ ground arith

  -- The value `v` at `p`, and what was from `p` to `n` one place up.
  abbrev pub inserted : ℕ → ℕ → V → (ℤ → V) → ℤ → V
  inserted n p v t (negsuc j) = t (negsuc j)
  inserted n p v t (pos j) =
      if j == p then v else if ltb p j && leb j (n + 1) then t (pos (j - 1)) else t (pos j)

  -- What was from `p + 1` to `n` one place down, and nothing at `n`.
  abbrev pub removed : ℕ → ℕ → (ℤ → V) → ℤ → V
  removed n p t (negsuc j) = t (negsuc j)
  removed n p t (pos j) =
      if j == n then nothing else if leb p j && ltb j n then t (pos (suc j)) else t (pos j)

  insert_at-inserted :
      (n p : ℕ) (v : V) (t : ℤ → V) (i : ℤ)
      → p ≤ n + 1
      → insert_at nothing n (pos p) v t i ≡ inserted n p v t i
  unfolding insert_at
  insert_at-inserted n p v t (negsuc j) h =
      let small : ltb_ℤ (pos (n + 1)) (pos p) ≡ false = ground (arith, h) in
      rw small (move_up-shifted_up p (n + 1 - p) t (negsuc j))
  insert_at-inserted n p v t (pos j) h =
      let small : ltb_ℤ (pos (n + 1)) (pos p) ≡ false = ground (arith, h) in
      let end : p + (n + 1 - p) ≡ n + 1 = omega (arith, h) in
      rw (small, move_up-shifted_up p (n + 1 - p) t (pos j), end) refl

  -- `insert` with a position from 1 to `n + 1` makes a place for the value there.
  pub tinsert-inserted :
      (n p : ℕ) (v : V) (t : ℤ → V)
      → p ≤ n + 1
      → (t' : ℤ → V) × (tinsert nothing 3 n (pos p) v t ≡ some t')
        × ((i : ℤ) → t' i ≡ inserted n p v t i)
  unfolding tinsert
  tinsert-inserted n p v t h = (_, refl, λ i. insert_at-inserted n p v t i h)

  removal :
      (n p : ℕ) (t : ℤ → V) (i : ℤ)
      → p ≤ n
      → rawset nothing (move_down nothing (n - p) p t) (pos n) nothing i ≡ removed n p t i
  removal n p t (negsuc j) h = move_down-shifted_down (n - p) p t (negsuc j)
  removal n p t (pos j) h =
      let end : p + (n - p) ≡ n = omega (arith, h) in
      rw (move_down-shifted_down (n - p) p t (pos j), end) refl

  -- `remove` with a position from 1 to `n` returns the value there, and closes its place.
  pub tremove-removed :
      (n p : ℕ) (t : ℤ → V)
      → 0 < p
      → p ≤ n
      → ((tremove nothing n (some (pos p)) t).0 ≡ some (t (pos p)))
        × ((i : ℤ) → (tremove nothing n (some (pos p)) t).1 i ≡ removed n p t i)
  unfolding tremove
  tremove-removed n p t h k =
      let first : leb 1 p ≡ true = ground (arith, h) in
      let second : leb p n ≡ true = ground (arith, k) in
      rw (first, second) (refl, λ i. removal n p t i k)

  back :
      (n p : ℕ) (v : V) (t : ℤ → V) (i : ℤ)
      → p ≤ n + 1
      → t (pos (n + 1)) ≡ nothing
      → removed (n + 1) p (inserted n p v t) i ≡ t i
  back n p v t (negsuc j) h e = refl
  back n p v t (pos j) h e = elim (Bool-cases (j == n + 1)) [
    | inl last ↦ rw ((==_iff j (n + 1)).0 last, e) (ground arith)
    | inr other ↦ elim (Bool-cases (leb p j && ltb j (n + 1))) [
      | inl moved ↦
          let one : suc j - 1 ≡ j = omega arith in rw one (ground (arith, other, moved, h))
      | inr still ↦ ground (arith, other, still, h)
    ]
  ]

  removed_by :
      (n p : ℕ) (t t' : ℤ → V) (i : ℤ) → ((j : ℤ) → t j ≡ t' j) → removed n p t i ≡ removed n p t' i
  removed_by n p t t' (negsuc j) e = e (negsuc j)
  removed_by n p t t' (pos j) e = rw (e (pos (suc j)), e (pos j)) refl

  -- In a table of `n` elements with nothing at `n + 1`, what `insert` puts in at a position from 1 to
  -- `n + 1` is what `remove` takes out of the longer table at that position; every key then has the
  -- value that it had before.
  pub tremove-tinsert :
      (n p : ℕ) (v : V) (t : ℤ → V)
      → 0 < p
      → p ≤ n + 1
      → t (pos (n + 1)) ≡ nothing
      → (t' : ℤ → V) × (tinsert nothing 3 n (pos p) v t ≡ some t')
        × ((tremove nothing (n + 1) (some (pos p)) t').0 ≡ some v)
        × ((i : ℤ) → (tremove nothing (n + 1) (some (pos p)) t').1 i ≡ t i)
  tremove-tinsert n p v t h k e =
      let (t', ran, made) = tinsert-inserted n p v t k in
      let (value, table) = tremove-removed (n + 1) p t' h k in
      let there : p == p ≡ true = ground arith in
      let put : inserted n p v t (pos p) ≡ v = rw there refl in
      (
        t',
        ran,
        value ∙ ap some (made (pos p) ∙ put),
        λ i. table i ∙ removed_by (n + 1) p t' (inserted n p v t) i made ∙ back n p v t i k e,
      )
