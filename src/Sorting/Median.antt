-- ===== src/Sorting/Median.antt =====
-- The first comparisons of a round of `auxsort` of src/ltablib.c, and the partition behind them.
use lua_reading.Prelude.{
  ℕ, suc, ◌+◌, ◌-◌, ◌/◌, ◌≤◌, ◌<◌, ◌≡◌, refl, ◌∙◌, inl, inr, Bool, false, arith, ◌==◌, ==_iff,
  Bool-cases,
}
use lua_reading.Sorting.{done, swap, order, order_middle, partition, split}
use lua_reading.Sorting.Swaps.{
  Rearranged, same, exchange, join, swap_left, swap_right, swap_other, swap-Rearranged,
}
use lua_reading.Sorting.Partition.{
  IsAsymmetric, Below, Above, Parted, irreflexive, partition-Parted,
}

module _ {V : Type 0} (less : V → V → Bool) where
  -- The table after `split` at `i`: the pivot is at its place, between two parts.
  pub record Divided (l u : ℕ) (a : ℕ → V) (i : ℕ) (b : ℕ → V) : Type 0 where
    pub above_l : l < i
    pub below_u : i < u
    pub left : Below less l i (b i) b
    pub right : Above less (suc i) u (b i) b
    pub rearranged : Rearranged l u a b

module _ {V : Type 0} (less : V → V → Bool) (asym : IsAsymmetric less) where
  pub order-Rearranged :
      (l u i j : ℕ) (a : ℕ → V)
      → l ≤ i
      → i ≤ u
      → l ≤ j
      → j ≤ u
      → Rearranged l u a (order less i j a)
  unfolding order
  order-Rearranged l u i j a h1 h2 h3 h4 = elim (Bool-cases (less (a j) (a i))) [
    | inl h ↦ rw h (swap-Rearranged l u i j a h1 h2 h3 h4)
    | inr h ↦ rw h (same a)
  ]

  -- Two elements in order.
  pub order_sorts : (i j : ℕ) (a : ℕ → V) → less (order less i j a j) (order less i j a i) ≡ false
  unfolding order
  order_sorts i j a = elim (Bool-cases (less (a j) (a i))) [
    | inl h ↦ rw (h, swap_left i j a, swap_right i j a) (asym (a j) (a i) h)
    | inr h ↦ rw (h, h) refl
  ]

  -- Three elements in order, when the first and the last one are.
  pub order_middle_sorts :
      (l i u : ℕ) (a : ℕ → V)
      → l < i
      → i < u
      → less (a u) (a l) ≡ false
      → (less (order_middle less l i u a i) (order_middle less l i u a l) ≡ false)
        × (less (order_middle less l i u a u) (order_middle less l i u a i) ≡ false)
  unfolding order_middle order
  order_middle_sorts l i u a h1 h2 e = elim (Bool-cases (less (a i) (a l))) [
    | inl h ↦
        rw
          (
            h,
            swap_left i l a,
            swap_right i l a,
            swap_other i l u a (λ e. omega arith) (λ e. omega arith),
          )
          (asym (a i) (a l) h, e)
    | inr h ↦ elim (Bool-cases (less (a u) (a i))) [
      | inl k ↦
          rw
            (
              h,
              k,
              swap_left i u a,
              swap_right i u a,
              swap_other i u l a (λ e. omega arith) (λ e. omega arith),
            )
            (e, asym (a u) (a i) k)
      | inr k ↦ rw (h, k, h, k) (refl, refl)
    ]
  ]

  pub order_middle-Rearranged :
      (l i u : ℕ) (a : ℕ → V) → l ≤ i → i ≤ u → Rearranged l u a (order_middle less l i u a)
  unfolding order_middle
  order_middle-Rearranged l i u a h1 h2 = elim (Bool-cases (less (a i) (a l))) [
    | inl h ↦ rw h (swap-Rearranged l u i l a h1 h2 (omega arith) (omega arith))
    | inr h ↦ rw h (order-Rearranged l u i u a h1 h2 (omega arith) (omega arith))
  ]

  -- The pivot is put between the parts.
  divide :
      (l u i : ℕ) (p : V) (a b : ℕ → V)
      → Parted less l u p a i b
      → Divided less l u a i (swap (u - 1) i b)
  divide l u i p a b h =
      let c = swap (u - 1) i b in
      let place : c i ≡ p = swap_right (u - 1) i b ∙ h.pivot in
      let l_i = h.above_l in
      let i_u = h.below_u in
      record {
        above_l = l_i;
        below_u = i_u;
        left = λ k x y.
            rw
              (
                place,
                swap_other (u - 1) i k b (λ e. ground (arith, e, y, i_u))
                    (λ e. ground (arith, e, y)),
              )
              (h.below k x y);
        right = λ k x y. elim (Bool-cases (k == u - 1)) [
          | inl at_end ↦
              rw ((==_iff k (u - 1)).0 at_end, place, swap_left (u - 1) i b)
                (h.above i (omega arith) (omega (arith, i_u)))
          | inr n ↦
              rw
                (
                  place,
                  swap_other (u - 1) i k b (λ e. ground (arith, e, n)) (λ e. ground (arith, e, x)),
                )
                (h.above k (omega (arith, x)) y)
        ];
        rearranged = join l u a b c h.rearranged (
            swap-Rearranged l u (u - 1) i b (omega (arith, l_i, i_u)) (omega arith)
              (omega (arith, l_i)) (omega (arith, i_u)));
      }

  middle : (l u : ℕ) → suc (suc l) < u → (l < (l + u) / 2) × (suc ((l + u) / 2) < u)
  middle l u h = (omega (arith, h), omega (arith, h))

  low_start :
      (l u i : ℕ) (a : ℕ → V)
      → l < i
      → suc i < u
      → less (a i) (a l) ≡ false
      → Below less l (suc l) (a i) (swap i (u - 1) a)
  low_start l u i a l_i i_u first k x y =
      let at_l : k ≡ l = omega (arith, x, y) in
      rw (swap_other i (u - 1) k a (λ e. omega arith) (λ e. omega arith), at_l) first

  high_start :
      (l u i : ℕ) (a : ℕ → V)
      → l < i
      → suc i < u
      → less (a u) (a i) ≡ false
      → Above less (u - 1) u (a i) (swap i (u - 1) a)
  high_start l u i a l_i i_u second k x y = elim (Bool-cases (k == u - 1)) [
    | inl e ↦ rw ((==_iff k (u - 1)).0 e, swap_right i (u - 1) a) (irreflexive less asym (a i))
    | inr n ↦
        let at_u : k ≡ u = ground (arith, x, y, n) in
        rw (at_u, swap_other i (u - 1) u a (λ e. omega arith) (λ e. omega arith)) second
  ]

  parted_start :
      (l u i : ℕ) (a : ℕ → V)
      → l < i
      → suc i < u
      → less (a i) (a l) ≡ false
      → less (a u) (a i) ≡ false
      → (m : ℕ) × (c : ℕ → V) × (partition less l u (a i) u l (u - 1) (swap i (u - 1) a)
          ≡ done (m, c))
        × Divided less l u a m (swap (u - 1) m c)
  parted_start l u i a l_i i_u first second =
      let b = swap i (u - 1) a in
      let (m, c, ran, parted) =
        partition-Parted less asym l u (a i) u l (u - 1) b (omega arith) (omega arith) (omega arith)
          (omega arith) (omega arith) (omega arith) (swap_right i (u - 1) a)
          (low_start l u i a l_i i_u first) (high_start l u i a l_i i_u second) in
      let d = divide l u m (a i) b c parted in
      (
        m,
        c,
        ran,
        record {
          above_l = d.above_l;
          below_u = d.below_u;
          left = d.left;
          right = d.right;
          rearranged =
              exchange a _ i (u - 1) (omega arith) (omega arith) (omega arith) (omega arith)
                d.rearranged;
        },
      )

  pub split-Divided :
      (l u : ℕ) (a : ℕ → V)
      → suc (suc l) < u
      → less (a ((l + u) / 2)) (a l) ≡ false
      → less (a u) (a ((l + u) / 2)) ≡ false
      → (i : ℕ) × (b : ℕ → V) × (split less l u a ≡ done (i, b)) × Divided less l u a i b
  unfolding split
  split-Divided l u a wide first second =
      let (l_i, i_u) = middle l u wide in
      let (m, c, ran, divided) = parted_start l u ((l + u) / 2) a l_i i_u first second in
      (m, swap (u - 1) m c, rw (split, ran) refl, divided)
