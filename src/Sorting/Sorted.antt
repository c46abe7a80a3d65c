-- ===== src/Sorting/Sorted.antt =====
-- `auxsort` and `sort` of src/ltablib.c leave the elements in order.
use lua_reading.Prelude.{
  ℕ, zero, suc, ◌+◌, ◌-◌, ◌/◌, ◌≤◌, ◌<◌, ◌≡◌, refl, ◌∙◌, ◌⊎◌, inl, inr, Bool, false, arith, ltb,
  ◌==◌, ltb→lt, ==_iff, Bool-cases,
}
use lua_reading.Sorting.{Outcome, done, order, median, next_part, parts, auxsort, sort}
use lua_reading.Sorting.Swaps.{Rearranged, same, join, widen, outside, keeps}
use lua_reading.Sorting.Partition.{IsAsymmetric, Below, Above}
use lua_reading.Sorting.Median.{
  Divided, split-Divided, order-Rearranged, order_sorts, order_middle_sorts,
  order_middle-Rearranged,
}

module _ {V : Type 0} (less : V → V → Bool) where
  -- No element from `l` to `u` comes before the one in front of it.
  abbrev pub IsSorted : ℕ → ℕ → (ℕ → V) → Type 0
  IsSorted l u b = (k : ℕ) → l ≤ k → k < u → less (b (suc k)) (b k) ≡ false

  -- The outcome is the table with its elements from `l` to `u` in order, and the others in place.
  abbrev pub Sorts : ℕ → ℕ → (ℕ → V) → Outcome (ℕ → V) → Type 0
  Sorts l u a x = (b : ℕ → V) × (x ≡ done b) × IsSorted l u b × Rearranged l u a b

  assemble :
      (l u i : ℕ) (p : V) (e : ℕ → V)
      → e i ≡ p
      → IsSorted l (i - 1) e
      → IsSorted (i + 1) u e
      → Below less l i p e
      → Above less (suc i) u p e
      → IsSorted l u e
  assemble l u i p e at_i left right low high k x y = elim (Bool-cases (ltb (suc k) i)) [
    | inl before ↦ left k x (ground (arith, before))
    | inr n ↦ elim (Bool-cases (suc k == i)) [
      | inl last ↦
          let here : suc k ≡ i = (==_iff (suc k) i).0 last in
          rw (here, at_i) (low k x (omega (arith, here)))
      | inr m ↦ elim (Bool-cases (k == i)) [
        | inl first ↦
            let here : k ≡ i = (==_iff k i).0 first in
            rw (here, at_i) (high (suc i) (omega arith) (omega (arith, here, y)))
        | inr o ↦ right k (ground (arith, n, m, o)) y
      ]
    ]
  ]

  Rearranged-IsSorted :
      (l u l' u' : ℕ) (d e : ℕ → V)
      → (u < l') ⊎ (u' < l)
      → Rearranged l' u' d e
      → IsSorted l u d
      → IsSorted l u e
  Rearranged-IsSorted l u l' u' d e apart moved sorted k x y =
      rw
        (
          outside l' u' (suc k) d e (ground (arith, apart, x, y)) moved,
          outside l' u' k d e (ground (arith, apart, x, y)) moved,
        )
        (sorted k x y)

  still :
      (P : V → Type 0) (l u l' u' : ℕ) (d e : ℕ → V)
      → (u < l') ⊎ (u' < l)
      → Rearranged l' u' d e
      → ((k : ℕ) → l ≤ k → k ≤ u → P (d k))
      → (k : ℕ) → l ≤ k
      → k ≤ u
      → P (e k)
  still P l u l' u' d e apart moved all k x y =
      rw (outside l' u' k d e (ground (arith, apart, x, y)) moved) (all k x y)

  module _ (l u i : ℕ) (a c d e : ℕ → V) (h : Divided less l u a i c) where
    -- The parts sorted one after the other, in either order.
    left_first :
        Rearranged l (i - 1) c d
        → IsSorted l (i - 1) d
        → Rearranged (i + 1) u d e
        → IsSorted (i + 1) u e
        → IsSorted l u e × Rearranged l u a e
    left_first p sorted q sorted' =
        let low_i = h.above_l in
        let i_high = h.below_u in
        let low =
          keeps (λ v. less (c i) v ≡ false) l (i - 1) c d p
            (λ k x y. h.left k x (omega (arith, y, low_i))) in
        let high =
          still (λ v. less v (c i) ≡ false) (i + 1) u l (i - 1) c d (inr (omega arith)) p
            (λ k x y. h.right k (omega (arith, x)) y) in
        let low' =
          still (λ v. less (c i) v ≡ false) l (i - 1) (i + 1) u d e (inl (omega arith)) q low in
        let high' = keeps (λ v. less v (c i) ≡ false) (i + 1) u d e q high in
        (
          assemble l u i (c i) e
              (outside (i + 1) u i d e (inl (omega arith)) q
                ∙ outside l (i - 1) i c d (inr (omega (arith, low_i))) p)
              (Rearranged-IsSorted l (i - 1) (i + 1) u d e (inl (omega arith)) q sorted) sorted'
              (λ k x y. low' k x (omega (arith, y))) (λ k x y. high' k (omega (arith, x)) y),
          join l u a c e h.rearranged (
              join l u c d e (widen l (i - 1) l u c d (omega arith) (omega (arith, i_high)) p)
                (widen (i + 1) u l u d e (omega (arith, low_i)) (omega arith) q)),
        )

    right_first :
        Rearranged (i + 1) u c d
        → IsSorted (i + 1) u d
        → Rearranged l (i - 1) d e
        → IsSorted l (i - 1) e
        → IsSorted l u e × Rearranged l u a e
    right_first p sorted q sorted' =
        let low_i = h.above_l in
        let i_high = h.below_u in
        let high =
          keeps (λ v. less v (c i) ≡ false) (i + 1) u c d p
            (λ k x y. h.right k (omega (arith, x)) y) in
        let low =
          still (λ v. less (c i) v ≡ false) l (i - 1) (i + 1) u c d (inl (omega arith)) p
            (λ k x y. h.left k x (omega (arith, y, low_i))) in
        let high' =
          still (λ v. less v (c i) ≡ false) (i + 1) u l (i - 1) d e (inr (omega arith)) q high in
        let low' = keeps (λ v. less (c i) v ≡ false) l (i - 1) d e q low in
        (
          assemble l u i (c i) e
              (outside l (i - 1) i d e (inr (omega (arith, low_i))) q
                ∙ outside (i + 1) u i c d (inl (omega arith)) p)
              sorted' (Rearranged-IsSorted (i + 1) u l (i - 1) d e (inr (omega arith)) q sorted)
              (λ k x y. low' k x (omega (arith, y))) (λ k x y. high' k (omega (arith, x)) y),
          join l u a c e h.rearranged (
              join l u c d e (widen (i + 1) u l u c d (omega (arith, low_i)) (omega arith) p)
                (widen l (i - 1) l u d e (omega arith) (omega (arith, i_high)) q)),
        )

  module _ (asym : IsAsymmetric less) where
    -- What sorts every range that is shorter.
    abbrev SortsBelow : ℕ → (ℕ → ℕ → (ℕ → V) → Outcome (ℕ → V)) → Type 0
    SortsBelow n again = (l u : ℕ) (a : ℕ → V) → u < l + n → Sorts l u a (again l u a)

    both_done :
        (again : ℕ → ℕ → (ℕ → V) → Outcome (ℕ → V)) (j i l u : ℕ) (a b c : ℕ → V)
        → again j i a ≡ done b
        → again l u b ≡ done c
        → next_part less again l u (again j i a) ≡ done c
    unfolding next_part
    both_done again j i l u a b c first second = rw first second

    parts-Sorts :
        (n l u i : ℕ) (a c : ℕ → V) (again : ℕ → ℕ → (ℕ → V) → Outcome (ℕ → V))
        → SortsBelow n again
        → u ≤ l + n
        → Divided less l u a i c
        → Sorts l u a (parts less again l u (done (i, c)))
    unfolding parts
    parts-Sorts n l u i a c again ih fits h =
        let low_i = h.above_l in
        let i_high = h.below_u in
        let left = λ (x : ℕ → V). ih l (i - 1) x (omega (arith, i_high, low_i)) in
        let right = λ (x : ℕ → V). ih (i + 1) u x (omega (arith, low_i)) in
        elim (Bool-cases (ltb (i - l) (u - i))) [
          | inl e ↦
              let (d, ran, sorted, p) = left c in
              let (g, ran', sorted', q) = right d in
              let (whole, moved) = left_first l u i a c d g h p sorted q sorted' in
              (g, rw e (both_done again _ _ _ _ c d g ran ran'), whole, moved)
          | inr e ↦
              let (d, ran, sorted, p) = right c in
              let (g, ran', sorted', q) = left d in
              let (whole, moved) = right_first l u i a c d g h p sorted q sorted' in
              (g, rw e (both_done again _ _ _ _ c d g ran ran'), whole, moved)
        ]

    median-Rearranged : (l u : ℕ) (a : ℕ → V) → l < u → Rearranged l u a (median less l u a)
    unfolding median
    median-Rearranged l u a h =
        let first =
          order-Rearranged less asym l u l u a (omega arith) (omega arith) (omega arith)
            (omega arith) in
        join l u a _ _ first
          (order_middle-Rearranged less asym l ((l + u) / 2) u _ (omega arith) (omega arith))

    median_sorts :
        (l u : ℕ) (a : ℕ → V)
        → suc l < u
        → (let b = median less l u a in
            (less (b ((l + u) / 2)) (b l) ≡ false) × (less (b u) (b ((l + u) / 2)) ≡ false))
    unfolding median
    median_sorts l u a h =
        order_middle_sorts less asym l ((l + u) / 2) u (order less l u a) (omega arith)
          (omega arith) (order_sorts less asym l u a)

    three : (l u : ℕ) (a : ℕ → V) → u - l ≡ 2 → IsSorted l u (median less l u a)
    three l u a e k x y =
        let (first, second) = median_sorts l u a (omega (arith, e)) in
        let mid : (l + u) / 2 ≡ suc l = omega (arith, e) in
        let last : u ≡ suc (suc l) = omega (arith, e) in
        elim (Bool-cases (k == l)) [
          | inl h ↦ rw ((==_iff k l).0 h) (rw mid at first)
          | inr n ↦
              let here : k ≡ suc l = ground (arith, n, x, y, last) in
              rw (here, ← last) (rw mid at second)
        ]

    two : (l u : ℕ) (a : ℕ → V) → u - l ≡ 1 → IsSorted l u (order less l u a)
    two l u a e k x y =
        let here : k ≡ l = omega (arith, x, y, e) in
        let last : u ≡ suc l = omega (arith, x, y, e) in
        rw (here, last) (order_sorts less asym l (suc l) a)

    -- With the number of elements as fuel, `auxsort` returns the range in order, if of two values at
    -- most one comes before the other; it raises no error, and moves nothing outside of the range.
    pub auxsort-Sorts :
        (fuel l u : ℕ) (a : ℕ → V) → 0 < fuel → u < l + fuel → Sorts l u a (auxsort less fuel l u a)
    unfolding auxsort
    auxsort-Sorts zero l u a f h = absurd (omega arith)
    auxsort-Sorts (suc fuel) l u a f h = elim (Bool-cases (ltb l u)) [
      | inr e ↦ rw e (a, refl, (λ k x y. absurd (ground (arith, e, x, y))), same a)
      | inl e ↦
          let below : l < u = ltb→lt l u e in
          elim (Bool-cases (u - l == 1)) [
            | inl e1 ↦
                rw (e, e1)
                  (
                    order less l u a,
                    refl,
                    two l u a ((==_iff (u - l) 1).0 e1),
                    order-Rearranged less asym l u l u a (omega arith) (omega arith) (omega arith)
                        (omega arith),
                  )
            | inr n1 ↦ elim (Bool-cases (u - l == 2)) [
              | inl e2 ↦
                  rw (e, n1, e2)
                    (
                      median less l u a,
                      refl,
                      three l u a ((==_iff (u - l) 2).0 e2),
                      median-Rearranged l u a below,
                    )
              | inr n2 ↦
                  let wide : suc (suc l) < u = ground (arith, below, n1, n2) in
                  let b = median less l u a in
                  let (first, second) = median_sorts l u a (omega arith) in
                  let (i, c, ran, divided) = split-Divided less asym l u b wide first second in
                  let moved = median-Rearranged l u a below in
                  let (d, returned, sorted, onward) =
                    parts-Sorts fuel l u i b c (auxsort less fuel)
                      (λ l' u' a' h'. auxsort-Sorts fuel l' u' a' (omega (arith, wide, h)) h')
                      (omega (arith, h)) divided in
                  rw (e, n1, n2, ran) (d, returned, sorted, join l u a b d moved onward)
            ]
          ]
    ]

-- `sort` returns the elements from 1 to `n` in order, if of two values at most one comes before the
-- other: it raises no error, the result is made by exchanges of elements, and nothing outside moves.
pub sort-Sorts :
    {V : Type 0} (less : V → V → Bool) (n : ℕ) (a : ℕ → V)
    → IsAsymmetric less
    → Sorts less 1 n a (sort less n a)
unfolding sort
sort-Sorts less n a asym = auxsort-Sorts less asym (suc n) 1 n a (omega arith) (omega arith)
