-- ===== src/Strings/First.antt =====
-- The searches of the string library find the first start at which the pattern matches.
use lua_reading.Prelude.{
  ℕ, zero, suc, ◌+◌, ◌-◌, ◌≤◌, ◌<◌, ◌≡◌, refl, inl, inr, Bool, true, false, [], arith, ltb, leb,
  ◌==◌, if◌then◌else◌, Bool-cases,
}
use lua_reading.Proto.{Bytes}
use lua_reading.Pattern.Classes.{Ctype}
use lua_reading.Pattern.Captures.{Captures}
use lua_reading.Pattern.Match.{Outcome, matched, failed, raised, exhausted, match, src_end}
use lua_reading.Pattern.Meaning.{Matches}
use lua_reading.Pattern.Decide.{match-Decides}
use lua_reading.Pattern.Bounds.{AreInside, match_bounds}
use lua_reading.Strings.Search.{
  Search, found, not_found, threw, ran_out, try_start, search_loop, search_from, gmatch_aux,
  gmatch_result, Iteration, yields, over, broken, unending,
}

module _ (ctype : Ctype) (src : Bytes) where
  -- The pattern matches at no start from `a` to before `b`.
  abbrev pub NoneBetween : ℕ → ℕ → Bytes → Type 0
  NoneBetween a b p =
      (t : ℕ) → a ≤ t → t < b → (e : ℕ) (cs : Captures) → ¬ Matches ctype src [] t p e cs

  -- What the outcome of a search from `a` up to `b` says.
  abbrev pub IsFirst : ℕ → ℕ → Bytes → Search → Type 0
  IsFirst a b p (found s e cs) =
      (a ≤ s)
      × (s ≤ b)
      × (s ≤ e)
      × (e ≤ src_end ctype src)
      × AreInside e cs
      × Matches ctype src [] s p e cs
      × NoneBetween a s p
  IsFirst a b p not_found = NoneBetween a (b + 1) p
  IsFirst a b p (threw e) = Unit {0}
  IsFirst a b p ran_out = ⊥

  -- The first start is tried, the rest being right.
  try_start-IsFirst :
      (s b : ℕ) (p : Bytes) (o : Outcome) (rest : Search)
      → match ctype src [] s p ≡ o
      → s ≤ b
      → b ≤ src_end ctype src
      → (NoneBetween s (s + 1) p → IsFirst s b p rest)
      → IsFirst s b p (try_start s o rest)
  try_start-IsFirst s b p (matched e cs) rest h le fits k =
      let (up, below, inside) = match_bounds ctype src [] s p e cs h (omega arith) tt in
      (
        omega arith,
        le,
        up,
        below,
        inside,
        rw h at (match-Decides ctype src [] s p),
        λ t from to. absurd (omega arith),
      )
  try_start-IsFirst s b p (failed cs) rest h le fits k =
      let (same, no_match) = (rw h at (match-Decides ctype src [] s p)) in
      k (λ t from to e c m. let here : t ≡ s = omega arith in no_match e c (rw here at m))
  try_start-IsFirst s b p (raised x) rest h le fits k = tt
  try_start-IsFirst s b p exhausted rest h le fits k = rw h at (match-Decides ctype src [] s p)

  NoneBetween-le :
      (a b : ℕ) (p : Bytes) → NoneBetween a (a + 1) p → NoneBetween (a + 1) b p → NoneBetween a b p
  NoneBetween-le a b p h k t from to = elim (Bool-cases (ltb t (a + 1))) [
    | inl e ↦ h t from (ground (arith, e))
    | inr e ↦ k t (ground (arith, e)) to
  ]

  skip_start-IsFirst :
      (s b : ℕ) (p : Bytes) (rest : Search)
      → NoneBetween s (s + 1) p
      → IsFirst (s + 1) b p rest
      → IsFirst s b p rest
  skip_start-IsFirst s b p (found t e cs) no_match (from, to, up, below, inside, m, before) =
      (omega arith, to, up, below, inside, m, NoneBetween-le s t p no_match before)
  skip_start-IsFirst s b p not_found no_match h = NoneBetween-le s (b + 1) p no_match h
  skip_start-IsFirst s b p (threw e) no_match h = tt
  skip_start-IsFirst s b p ran_out no_match h = h

  search_loop-IsFirst :
      (left : ℕ) (anchor : Bool) (s : ℕ) (p : Bytes)
      → s + left ≡ src_end ctype src
      → IsFirst s
          (if anchor then s else src_end ctype src)
          p
          (search_loop ctype src left anchor s p)
  unfolding search_loop
  search_loop-IsFirst zero true s p fits =
      try_start-IsFirst s s p _ not_found refl (omega arith) (omega arith) (λ h. h)
  search_loop-IsFirst zero false s p fits =
      let last : src_end ctype src ≡ s = omega arith in
      rw last (try_start-IsFirst s s p _ not_found refl (omega arith) (omega arith) (λ h. h))
  search_loop-IsFirst (suc left) true s p fits =
      try_start-IsFirst s s p _ not_found refl (omega arith) (omega arith) (λ h. h)
  search_loop-IsFirst (suc left) false s p fits =
      try_start-IsFirst s (src_end ctype src) p _ _ refl (omega arith) (omega arith) (λ h.
        skip_start-IsFirst s (src_end ctype src) p _ h
          (search_loop-IsFirst left false (s + 1) p (omega arith)))

  -- The search of `str_find_aux` from a position in the subject ends. Unless it throws an error,
  -- what it finds is a match at the first start at which there is one, with an end and captures
  -- inside of the subject; if it finds none, there is none at any start. An anchored search looks
  -- at its first start only.
  pub search_from-IsFirst :
      (anchor : Bool) (s : ℕ) (p : Bytes)
      → s ≤ src_end ctype src
      → IsFirst s (if anchor then s else src_end ctype src) p (search_from ctype src anchor s p)
  search_from-IsFirst anchor s p le =
      search_loop-IsFirst (src_end ctype src - s) anchor s p (omega arith)

  -- What a call of the iterator that started at `start` says.
  abbrev pub MovesOn : ℕ → Iteration → Type 0
  MovesOn start (yields next vs) = (start < next) × (next ≤ src_end ctype src + 1)
  MovesOn start over = Unit {0}
  MovesOn start (broken e) = Unit {0}
  MovesOn start unending = ⊥

  gmatch_result-MovesOn :
      (start : ℕ) (p : Bytes) (o : Search)
      → IsFirst start (src_end ctype src) p o
      → MovesOn start (gmatch_result ctype src o)
  gmatch_result-MovesOn start p (found s e cs) (from, _, up, below, _, _, _) =
      elim (Bool-cases (e == s)) [
        | inl h ↦ rw h (omega arith, omega arith)
        | inr h ↦ rw h (ground (arith, h), omega arith)
      ]
  gmatch_result-MovesOn start p not_found h = tt
  gmatch_result-MovesOn start p (threw e) h = tt
  gmatch_result-MovesOn start p ran_out h = h

  -- A call of the iterator of `gmatch` ends, and if it yields, the next call starts further on, one
  -- byte behind the end of the subject at most.
  pub gmatch_aux-MovesOn : (start : ℕ) (p : Bytes) → MovesOn start (gmatch_aux ctype src start p)
  unfolding gmatch_aux
  gmatch_aux-MovesOn start p = elim (Bool-cases (leb start (src_end ctype src))) [
    | inl h ↦
        rw h
          (gmatch_result-MovesOn start p _ (search_from-IsFirst false start p (ground (arith, h))))
    | inr h ↦ rw h tt
  ]
