-- ===== src/Table/Free.antt =====
-- The free nodes below `lastfree`, src/ltable.c: how many entries there is room for.
use lua_reading.Prelude.{
  ℕ, zero, suc, ◌≤◌, ◌<◌, true, ◌==◌, none, some, ◌≡◌, refl, if◌then◌else◌, arith, inl, inr,
  Bool-cases,
}
use lua_reading.Table.{Value, Node, is_nil, put, getfreepos}

-- The number of nodes below `n` with no key.
abbrev pub free_below : (ℕ → Node) → ℕ → ℕ
free_below node zero = 0
free_below node (suc n) =
    let rest = free_below node n in if is_nil (Node.key (node n)) then suc rest else rest

pub free_below-le :
    (node node' : ℕ → Node) (n : ℕ)
    → ((i : ℕ) → i < n → is_nil (Node.key (node i)) ≡ true → is_nil (Node.key (node' i)) ≡ true)
    → free_below node n ≤ free_below node' n
free_below-le node node' zero stays = omega arith
free_below-le node node' (suc n) stays =
    let rest = free_below-le node node' n (λ i h. stays i (omega arith)) in
    elim (Bool-cases (is_nil (Node.key (node n)))) [
      | inl e ↦ rw (e, stays n (omega arith) e) (omega (arith, rest))
      | inr f ↦ ground (arith, rest, f)
    ]

-- A key takes one free node at most.
pub free_below-put :
    (node : ℕ → Node) (mp : ℕ) (key : Value) (n : ℕ)
    → free_below node n ≤ suc (free_below (put node mp (record (node mp) { key = key })) n)
free_below-put node mp key zero = omega arith
free_below-put node mp key (suc n) = elim (Bool-cases (n == mp)) [
  | inl e ↦ ground (
    arith,
    e,
    free_below-le node (put node mp (record (node mp) { key = key })) n
        (λ i h. ground (arith, e, h)),
  )
  | inr f ↦ ground (arith, f, free_below-put node mp key n)
]

-- `getfreepos` takes the last one.
pub getfreepos-last :
    (node : ℕ → Node) (lastfree n : ℕ)
    → getfreepos node lastfree ≡ some n
    → free_below node lastfree ≡ suc (free_below node n)
unfolding getfreepos
getfreepos-last node zero n e = cc
getfreepos-last node (suc i) n e = elim (Bool-cases (is_nil (Node.key (node i)))) [
  | inl t ↦ ground (arith, t, e)
  | inr f ↦ rw f (getfreepos-last node i n (rw f at e))
]

-- It fails only if there is none.
pub getfreepos-none :
    (node : ℕ → Node) (lastfree : ℕ)
    → getfreepos node lastfree ≡ none
    → free_below node lastfree ≡ 0
unfolding getfreepos
getfreepos-none node zero e = refl
getfreepos-none node (suc i) e = elim (Bool-cases (is_nil (Node.key (node i)))) [
  | inl t ↦ ground (arith, t, e)
  | inr f ↦ rw f (getfreepos-none node i (rw f at e))
]

-- All of the new nodes are free.
pub free_below-all :
    (node : ℕ → Node) (n : ℕ)
    → ((i : ℕ) → is_nil (Node.key (node i)) ≡ true)
    → free_below node n ≡ n
free_below-all node zero all = refl
free_below-all node (suc n) all = rw (all n, free_below-all node n all) refl
