-- ===== src/Sorting/Swaps.antt =====
-- Tables that differ by exchanges of elements in a range.
use lua_reading.Prelude.{
  ℕ, ◌≤◌, ◌<◌, ◌≡◌, refl, ap, ◌∙◌, ◌⊎◌, inl, inr, true, false, arith, ◌==◌, ==_iff, Bool-cases,
}
use lua_reading.Sorting.{swap}

module _ {V : Type 0} where
  pub swap_left : (i j : ℕ) (a : ℕ → V) → swap i j a i ≡ a j
  unfolding swap
  swap_left i j a = let e : i == i ≡ true = ground arith in rw e refl

  pub swap_right : (i j : ℕ) (a : ℕ → V) → swap i j a j ≡ a i
  unfolding swap
  swap_right i j a =
      let e : j == j ≡ true = ground arith in
      elim (Bool-cases (j == i)) [ inl h ↦ rw h (ap a ((==_iff j i).0 h)) | inr h ↦ rw (h, e) refl ]

  pub swap_other : (i j k : ℕ) (a : ℕ → V) → (k ≡ i → ⊥) → (k ≡ j → ⊥) → swap i j a k ≡ a k
  unfolding swap
  swap_other i j k a n m =
      let x : k == i ≡ false = ground (arith, n) in
      let y : k == j ≡ false = ground (arith, m) in rw (x, y) refl

  -- The second table is made from the first by exchanges of elements from `l` to `u`.
  pub data Rearranged (l u : ℕ) : (ℕ → V) → (ℕ → V) → Type 0 where
    same : (a : ℕ → V) → Rearranged l u a a
    exchange :
        (a b : ℕ → V) (i j : ℕ)
        → l ≤ i
        → i ≤ u
        → l ≤ j
        → j ≤ u
        → Rearranged l u (swap i j a) b
        → Rearranged l u a b

  pub join :
      (l u : ℕ) (a b c : ℕ → V) → Rearranged l u a b → Rearranged l u b c → Rearranged l u a c
  join l u a b c (same _) q = q
  join l u a b c (exchange _ _ i j h1 h2 h3 h4 p) q =
      exchange a c i j h1 h2 h3 h4 (join l u (swap i j a) b c p q)

  pub widen :
      (l u l' u' : ℕ) (a b : ℕ → V) → l' ≤ l → u ≤ u' → Rearranged l u a b → Rearranged l' u' a b
  widen l u l' u' a b x y (same _) = same a
  widen l u l' u' a b x y (exchange _ _ i j h1 h2 h3 h4 p) =
      exchange a b i j (omega arith) (omega arith) (omega arith) (omega arith)
        (widen l u l' u' (swap i j a) b x y p)

  pub swap-Rearranged :
      (l u i j : ℕ) (a : ℕ → V) → l ≤ i → i ≤ u → l ≤ j → j ≤ u → Rearranged l u a (swap i j a)
  swap-Rearranged l u i j a h1 h2 h3 h4 =
      exchange a (swap i j a) i j h1 h2 h3 h4 (same (swap i j a))

  pub outside : (l u k : ℕ) (a b : ℕ → V) → (k < l) ⊎ (u < k) → Rearranged l u a b → b k ≡ a k
  outside l u k a b o (same _) = refl
  outside l u k a b o (exchange _ _ i j h1 h2 h3 h4 p) =
      outside l u k (swap i j a) b o p
      ∙ swap_other i j k a (λ e. ground (arith, o, e)) (λ e. ground (arith, o, e))

  -- What holds of all the elements of the range goes on holding of them.
  pub keeps :
      (P : V → Type 0) (l u : ℕ) (a b : ℕ → V)
      → Rearranged l u a b
      → ((k : ℕ) → l ≤ k → k ≤ u → P (a k))
      → (k : ℕ) → l ≤ k
      → k ≤ u
      → P (b k)
  keeps P l u a b (same _) all = all
  keeps P l u a b (exchange _ _ i j h1 h2 h3 h4 p) all = keeps P l u (swap i j a) b p (λ k x y.
      elim (Bool-cases (k == i)) [
        | inl e ↦ rw ((==_iff k i).0 e, swap_left i j a) (all j h3 h4)
        | inr n ↦ elim (Bool-cases (k == j)) [
          | inl e ↦ rw ((==_iff k j).0 e, swap_right i j a) (all i h1 h2)
          | inr m ↦
              rw (swap_other i j k a (λ e. ground (arith, n, e)) (λ e. ground (arith, m, e)))
                (all k x y)
        ]
      ])
