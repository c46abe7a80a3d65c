-- ===== src/Sorting/Partition.antt =====
-- The partition of `auxsort` of src/ltablib.c around a pivot, for an asymmetric comparison.
use lua_reading.Prelude.{
  ℕ, zero, suc, ◌+◌, ◌-◌, ◌≤◌, ◌<◌, ◌≡◌, refl, ◌∙◌, inl, inr, Bool, true, false, arith, ltb, ◌==◌,
  ==_iff, Bool-cases,
}
use lua_reading.Sorting.{Outcome, done, swap, scan_up, scan_down, partition}
use lua_reading.Sorting.Swaps.{
  Rearranged, same, join, swap_left, swap_right, swap_other, swap-Rearranged,
}

apart : (P : ℕ → Bool) (m n : ℕ) → P m ≡ true → P n ≡ false → m ≡ n → ⊥
apart P m n h k e = cc

-- Of two values, at most one comes before the other.
abbrev pub IsAsymmetric : {V : Type 0} → (V → V → Bool) → Type 0
IsAsymmetric {V} less = (x y : V) → less x y ≡ true → less y x ≡ false

module _ {V : Type 0} (less : V → V → Bool) where
  -- No element from `l` up to, but not at, `i` comes after `p`.
  abbrev pub Below : ℕ → ℕ → V → (ℕ → V) → Type 0
  Below l i p a = (k : ℕ) → l ≤ k → k < i → less p (a k) ≡ false

  -- No element from `j` to `u` comes before `p`.
  abbrev pub Above : ℕ → ℕ → V → (ℕ → V) → Type 0
  Above j u p a = (k : ℕ) → j ≤ k → k ≤ u → less (a k) p ≡ false

  -- The table after a partition at `i`.
  pub record Parted (l u : ℕ) (p : V) (a : ℕ → V) (i : ℕ) (b : ℕ → V) : Type 0 where
    pub above_l : l < i
    pub below_u : i < u
    pub below : Below l i p b
    pub above : Above i u p b
    pub pivot : b (u - 1) ≡ p
    pub rearranged : Rearranged l u a b

  module _ (asym : IsAsymmetric less) where
    pub irreflexive : (x : V) → less x x ≡ false
    irreflexive x = elim (Bool-cases (less x x)) [ inl h ↦ asym x x h | inr h ↦ h ]

    module _ (l u : ℕ) (p : V) where
      -- There is an element ahead that is not before the pivot.
      scan_up_stops :
          (fuel i s : ℕ) (a : ℕ → V)
          → i < s
          → s ≤ u
          → s ≤ i + fuel
          → less (a s) p ≡ false
          → Below l (suc i) p a
          → (i' : ℕ) × (scan_up less l u p fuel i a ≡ done i')
            × (i < i')
            × (i' ≤ s)
            × (less (a i') p ≡ false)
            × Below l i' p a
      unfolding scan_up
      scan_up_stops zero i s a h fits enough stop low = absurd (omega arith)
      scan_up_stops (suc fuel) i s a h fits enough stop low =
          elim (Bool-cases (less (a (suc i)) p)) [
            | inr e ↦ rw e (suc i, refl, omega arith, omega arith, e, low)
            | inl e ↦
                let inside : ltb u (suc i) ≡ false = ground (arith, h, fits) in
                let further : suc i < s =
                  ground (arith, h, apart (λ k. less (a k) p) (suc i) s e stop) in
                let low' : Below l (suc (suc i)) p a = λ k x y. elim (Bool-cases (k == suc i)) [
                  | inl at_i ↦ rw ((==_iff k (suc i)).0 at_i) (asym (a (suc i)) p e)
                  | inr other ↦ low k x (ground (arith, y, other))
                ] in
                let (i', ran, up, near, high, rest) =
                  scan_up_stops fuel (suc i) s a further fits (omega arith) stop low' in
                rw (e, inside) (i', ran, omega arith, near, high, rest)
          ]

      scan_down_stops :
          (j s : ℕ) (a : ℕ → V)
          → s < j
          → l ≤ s
          → less p (a s) ≡ false
          → Above j u p a
          → (j' : ℕ) × (scan_down less l u p j a ≡ done j')
            × (s ≤ j')
            × (j' < j)
            × (less p (a j') ≡ false)
            × Above (suc j') u p a
      unfolding scan_down
      scan_down_stops zero s a h fits stop high = absurd (omega arith)
      scan_down_stops (suc j) s a h fits stop high = elim (Bool-cases (less p (a j))) [
        | inr e ↦ rw e (j, refl, omega arith, omega arith, e, high)
        | inl e ↦
            let inside : ltb j l ≡ false = ground (arith, h, fits) in
            let further : s < j = ground (arith, h, apart (λ k. less p (a k)) j s e stop) in
            let high' : Above j u p a = λ k x y. elim (Bool-cases (k == j)) [
              | inl at_j ↦ rw ((==_iff k j).0 at_j) (asym p (a j) e)
              | inr other ↦ high k (ground (arith, x, other)) y
            ] in
            let (j', ran, near, down, low, rest) = scan_down_stops j s a further fits stop high' in
            rw (e, inside) (j', ran, near, omega arith, low, rest)
      ]

      -- What one round leaves, after the exchange.
      swap-Below :
          (i j : ℕ) (a : ℕ → V)
          → i ≤ j
          → less p (a j) ≡ false
          → Below l i p a
          → Below l (suc i) p (swap i j a)
      swap-Below i j a h e low k x y = elim (Bool-cases (k == i)) [
        | inl at_i ↦ rw ((==_iff k i).0 at_i, swap_left i j a) e
        | inr n ↦
            rw (swap_other i j k a (λ e. ground (arith, n, e)) (λ e. ground (arith, n, e, h, y)))
              (low k x (ground (arith, y, n)))
      ]

      swap-Above :
          (i j : ℕ) (a : ℕ → V)
          → i ≤ j
          → less (a i) p ≡ false
          → Above (suc j) u p a
          → Above j u p (swap i j a)
      swap-Above i j a h e high k x y = elim (Bool-cases (k == j)) [
        | inl at_j ↦ rw ((==_iff k j).0 at_j, swap_right i j a) e
        | inr n ↦
            rw (swap_other i j k a (λ e. ground (arith, n, e, h, x)) (λ e. ground (arith, n, e)))
              (high k (ground (arith, x, n)) y)
      ]

      -- A partition that an exchange came before.
      from_earlier :
          (a b : ℕ → V) (x : Outcome (ℕ × (ℕ → V)))
          → Rearranged l u a b
          → ((i : ℕ) × (c : ℕ → V) × (x ≡ done (i, c)) × Parted l u p b i c)
          → (i : ℕ) × (c : ℕ → V) × (x ≡ done (i, c)) × Parted l u p a i c
      from_earlier a b x moved (i, c, e, h) = (
        i,
        c,
        e,
        record {
          above_l = h.above_l;
          below_u = h.below_u;
          below = h.below;
          above = h.above;
          pivot = h.pivot;
          rearranged = join l u a b c moved h.rearranged;
        },
      )

      pub partition-Parted :
          (fuel i j : ℕ) (a : ℕ → V)
          → l ≤ i
          → i ≤ j
          → l < j
          → suc i < u
          → j < u
          → u ≤ i + fuel
          → a (u - 1) ≡ p
          → Below l (suc i) p a
          → Above j u p a
          → (i' : ℕ) × (b : ℕ → V) × (partition less l u p fuel i j a ≡ done (i', b))
            × Parted l u p a i' b
      unfolding partition
      partition-Parted zero i j a h1 h2 h3 h4 h5 enough pivot low high = absurd (omega arith)
      partition-Parted (suc fuel) i j a h1 h2 h3 h4 h5 enough pivot low high =
          let last : less (a (u - 1)) p ≡ false = rw pivot (irreflexive p) in
          let (i', ran_up, up, near_u, not_before, low') =
            scan_up_stops (suc (suc u)) i (u - 1) a (omega arith) (omega arith) (omega arith) last
              low in
          let (j', ran_down, near_l, down, not_after, high') =
            scan_down_stops j l a h3 (omega arith) (low l (omega arith) (omega arith)) high in
          elim (Bool-cases (ltb j' i')) [
            | inl crossed ↦
                rw (partition, ran_up, ran_down, crossed)
                  (
                    i',
                    a,
                    refl,
                    record {
                      above_l = omega arith;
                      below_u = omega arith;
                      below = low';
                      above = λ k x y. high' k (ground (arith, crossed, x)) y;
                      pivot = pivot;
                      rearranged = same a;
                    },
                  )
            | inr going ↦
                let ordered : i' ≤ j' = ground (arith, going) in
                let b = swap i' j' a in
                let pivot' : b (u - 1) ≡ p =
                  swap_other i' j' (u - 1) a (λ e. omega arith) (λ e. omega arith) ∙ pivot in
                let moved =
                  swap-Rearranged l u i' j' a (omega arith) (omega arith) (omega arith)
                    (omega arith) in
                rw (partition, ran_up, ran_down, going)
                  (from_earlier a b _ moved (
                    partition-Parted fuel i' j' b (omega arith) ordered (omega arith) (omega arith)
                      (omega arith) (omega arith) pivot' (swap-Below i' j' a ordered not_after low')
                      (swap-Above i' j' a ordered not_before high')))
          ]
