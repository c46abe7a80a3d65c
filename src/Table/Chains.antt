-- ===== src/Table/Chains.antt =====
-- The chains of the hash part: what holds of the nodes, and what a search along a chain finds.
-- Colliding nodes are out of their main positions only if the node there is in its own.
use lua_reading.Prelude.{
  ℕ, zero, suc, ◌+◌, ◌≤◌, ◌<◌, Bool, true, false, ◌==◌, none, some, ◌≡◌, ◌≢◌, refl, ap, ==_iff,
  arith, inl, inr, Bool-cases, Option-cases,
}
use lua_reading.Table.{Value, nil, Node, is_nil, search, previous}

-- A chain leads from a node to `j`.
pub data Reach (node : ℕ → Node) (j : ℕ) : ℕ → Type 0 where
  here : Reach node j j
  onward : {i k : ℕ} → Node.next (node i) ≡ some k → Reach node j k → Reach node j i

-- A key is in a node.
abbrev pub IsUsed : Node → Type 0
IsUsed x = is_nil (Node.key x) ≡ false

-- `main` gives main positions, `same` compares keys. A chain is at most as long as `rank` says, and
-- that is at most the number of nodes that `getfreepos` has passed.
pub record IsChained (main : Value → ℕ) (same : Value → Value → Bool) (size : ℕ) (node : ℕ → Node)
    (lastfree : ℕ) : Type 0 where
  pub rank : ℕ → ℕ
  pub down : (i j : ℕ) → Node.next (node i) ≡ some j → rank j < rank i
  pub low : (i : ℕ) → rank i + lastfree ≤ size
  pub linked : (i j : ℕ) → Node.next (node i) ≡ some j → IsUsed (node j) × (j < size)
  pub bare :
      (i : ℕ)
      → is_nil (Node.key (node i)) ≡ true
      → (Node.next (node i) ≡ none) × (Node.val (node i) ≡ nil)
  pub apart : (i j k : ℕ) → Node.next (node i) ≡ some k → Node.next (node j) ≡ some k → i ≡ j
  pub reached : (j : ℕ) → IsUsed (node j) → Reach node j (main (Node.key (node j)))
  pub home :
      (j : ℕ)
      → IsUsed (node j)
      → let m = main (Node.key (node j)) in IsUsed (node m) × (main (Node.key (node m)) ≡ m)
  pub unique :
      (i j : ℕ)
      → IsUsed (node i)
      → IsUsed (node j)
      → same (Node.key (node i)) (Node.key (node j)) ≡ true
      → i ≡ j

module _ (node : ℕ → Node) (rank : ℕ → ℕ)
    (down : (i j : ℕ) → Node.next (node i) ≡ some j → rank j < rank i) where
  pub search-Reach :
      (test : Value → Bool) (fuel : ℕ) {i j : ℕ}
      → Reach node j i
      → test (Node.key (node j)) ≡ true
      → ((k : ℕ) → test (Node.key (node k)) ≡ true → k ≡ j)
      → rank i < fuel
      → search fuel node test i ≡ some j
  unfolding search
  search-Reach test zero r h one enough = absurd (omega arith)
  search-Reach test (suc fuel) here h one enough = rw h refl
  search-Reach test (suc fuel) {i} (onward {k = k} e r) h one enough =
      elim (Bool-cases (test (Node.key (node i)))) [
        | inl t ↦ rw t (ap some (one i t))
        | inr f ↦ rw (f, e) (search-Reach test fuel r h one (omega (arith, down i k e)))
      ]

  -- A chain to another node has one before it, which the search for it finds.
  pub previous-Reach :
      (fuel : ℕ) {i j : ℕ}
      → Reach node j i
      → i ≢ j
      → rank i < fuel
      → (k : ℕ) × (previous fuel node j i ≡ some k) × (Node.next (node k) ≡ some j)
  unfolding previous
  previous-Reach zero r other enough = absurd (omega arith)
  previous-Reach (suc fuel) here other enough = absurd (other refl)
  previous-Reach (suc fuel) {i} {j} (onward {k = k} e r) other enough = elim (Bool-cases (k == j)) [
    | inl t ↦ (i, rw (e, previous, t) refl, rw ((==_iff k j).0 t) at e)
    | inr f ↦
        let (l, s, n) = previous-Reach fuel r (λ h. ground arith) (omega (arith, down i k e)) in
        (l, rw (e, previous, f) s, n)
  ]

pub search_missing :
    (node : ℕ → Node) (test : Value → Bool) (fuel i : ℕ)
    → ((k : ℕ) → test (Node.key (node k)) ≡ false)
    → search fuel node test i ≡ none
unfolding search
search_missing node test zero i h = refl
search_missing node test (suc fuel) i h = elim (Option-cases (Node.next (node i))) [
  | inl e ↦ rw (h i, e) refl
  | inr (j, e) ↦ rw (h i, e) (search_missing node test fuel j h)
]

pub search_passes :
    (node : ℕ → Node) (test : Value → Bool) (fuel i j : ℕ)
    → search fuel node test i ≡ some j
    → test (Node.key (node j)) ≡ true
unfolding search
search_passes node test zero i j e = cc
search_passes node test (suc fuel) i j e = elim (Bool-cases (test (Node.key (node i)))) [
  | inl t ↦ ground (arith, t, e)
  | inr f ↦ elim (Option-cases (Node.next (node i))) [
    | inl n ↦ ground (arith, f, n, e)
    | inr (k, n) ↦ search_passes node test fuel k j (rw (f, n) at e)
  ]
]
