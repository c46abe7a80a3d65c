-- ===== src/Table/Move.antt =====
-- A colliding node that is out of its main position moves to a free node.
use lua_reading.Prelude.{
  ℕ, ◌<◌, Bool, true, false, ◌==◌, if◌then◌else◌, some, ◌≡◌, ◌≢◌, refl, ap, sym, ◌∙◌, arith, inl,
  inr,
}
use mathlib.Core.Path.{subst}
use lua_reading.Table.{Value, Node, is_nil, move}
use lua_reading.Table.Chains.{Reach, here, onward, IsUsed, IsChained}
use lua_reading.Table.Insert.{same_place, Reach-from}

module _ (main : Value → ℕ) (same : Value → Value → Bool) (size : ℕ) (node : ℕ → Node)
    (lastfree : ℕ) (ok : IsChained main same size node lastfree) (key : Value)
    (present : is_nil key ≡ false) (absent : (k : ℕ) → same (Node.key (node k)) key ≡ false)
    (absent' : (k : ℕ) → same key (Node.key (node k)) ≡ false) (n : ℕ) (below : n < lastfree)
    (free : is_nil (Node.key (node n)) ≡ true) (taken : is_nil (Node.val (node (main key))) ≡ false)
    (astray : main (Node.key (node (main key))) ≢ main key) (before : ℕ)
    (linked : Node.next (node before) ≡ some (main key)) where
  abbrev pub mp : ℕ
  mp = main key

  pub mp-IsUsed : IsUsed (node mp)
  mp-IsUsed = ground (arith, ok.bare mp, taken)

  pub apart_from : (before ≢ mp) × (before ≢ n) × (mp ≢ n)
  apart_from = (
    (λ e. ground (arith, ok.down before mp linked, e)),
    (λ e. ground (arith, ok.bare before, linked, e, free)),
    (λ e. ground (arith, mp-IsUsed, free, e)),
  )

  abbrev pub moved : ℕ → Node
  moved = move node mp n before key

  abbrev moved_rank : ℕ → ℕ
  moved_rank x = if x == n then ok.rank mp else ok.rank x

  -- Where the contents of a node are.
  abbrev pub swap : ℕ → ℕ
  swap i = if i == mp then n else i

  next_moved :
      (i k : ℕ)
      → IsUsed (node i)
      → Node.next (node i) ≡ some k
      → Node.next (moved (swap i)) ≡ some (swap k)
  unfolding move
  next_moved i k u e =
      ground
        (arith, apart_from, free, u, e, linked, ok.down mp k, ok.apart i before k, ok.linked i k e)

  Reach-moved : {j i : ℕ} → Reach node j i → IsUsed (node i) → Reach moved (swap j) (swap i)
  Reach-moved here u = here
  Reach-moved {j} {i} (onward {k = k} e r) u =
      onward {k = swap k} (next_moved i k u e) (Reach-moved r (ok.linked i k e).0)

  reached_old : (j : ℕ) → IsUsed (node j) → Reach moved (swap j) (main (Node.key (node j)))
  reached_old j u =
      let h = ok.home j u in
      Reach-from moved (swap j) (swap (main (Node.key (node j)))) _ (ground (arith, h, astray))
        (Reach-moved (ok.reached j u) h.0)

  -- Where the contents of a node were.
  abbrev pub origin : ℕ → ℕ
  origin j = if j == n then mp else j

  -- All but the main position keep their contents.
  pub kept :
      (j : ℕ)
      → (j == mp) ≡ false
      → (Node.key (moved j) ≡ Node.key (node (origin j)))
        × (Node.val (moved j) ≡ Node.val (node (origin j)))
        × (swap (origin j) ≡ j)
        × (IsUsed (moved j) → IsUsed (node (origin j)))
  unfolding move
  kept j f = ground (arith, f, apart_from)

  pub entered : Node.key (moved mp) ≡ key
  unfolding move
  entered = ground (arith, apart_from)

  reached_moved : (j : ℕ) → IsUsed (moved j) → Reach moved j (main (Node.key (moved j)))
  reached_moved j u = elim (same_place j mp) [
    | inl h ↦
        Reach-from moved j j _ (h ∙ sym (ap main (ap (λ (i : ℕ). Node.key (moved i)) h ∙ entered)))
          here
    | inr f ↦
        let (same_key, _, back, used) = kept j f in
        subst (λ i. Reach moved i (main (Node.key (moved j)))) back
          (Reach-from moved _ _ _ (sym (ap main same_key)) (reached_old (origin j) (used u)))
  ]

  home_moved :
      (j : ℕ)
      → IsUsed (moved j)
      → let m = main (Node.key (moved j)) in IsUsed (moved m) × (main (Node.key (moved m)) ≡ m)
  home_moved j u = elim (same_place j mp) [
    | inl h ↦
        let at_mp : main (Node.key (moved j)) ≡ mp =
          ap main (ap (λ (i : ℕ). Node.key (moved i)) h ∙ entered) in
        rw (at_mp, entered) (present, refl)
    | inr f ↦
        let (same_key, _, _, used) = kept j f in
        let h = ok.home (origin j) (used u) in
        let m = main (Node.key (node (origin j))) in
        let other : (m == mp) ≡ false = ground (arith, h, astray) in
        let still : origin m ≡ m = ground (arith, h, free) in
        let e : Node.key (moved m) ≡ Node.key (node m) =
          (kept m other).0 ∙ ap (λ (i : ℕ). Node.key (node i)) still in
        rw (same_key, e) h
  ]

  unique_moved :
      (i j : ℕ)
      → IsUsed (moved i)
      → IsUsed (moved j)
      → same (Node.key (moved i)) (Node.key (moved j)) ≡ true
      → i ≡ j
  unique_moved i j u v s = elim (same_place i mp) [
    | inl h ↦ elim (same_place j mp) [
      | inl k ↦ h ∙ sym k
      | inr g ↦
          let at_mp : Node.key (moved i) ≡ key = ap (λ (i : ℕ). Node.key (moved i)) h ∙ entered in
          let clash : true ≡ false = sym (rw (at_mp, (kept j g).0) at s) ∙ absent' (origin j) in cc
    ]
    | inr f ↦ elim (same_place j mp) [
      | inl k ↦
          let at_mp : Node.key (moved j) ≡ key = ap (λ (i : ℕ). Node.key (moved i)) k ∙ entered in
          let clash : true ≡ false = sym (rw (at_mp, (kept i f).0) at s) ∙ absent (origin i) in cc
      | inr g ↦
          let (key_i, _, back_i, used_i) = kept i f in
          let (key_j, _, back_j, used_j) = kept j g in
          sym back_i
          ∙ ap swap (ok.unique (origin i) (origin j) (used_i u) (used_j v) (rw (key_i, key_j) at s))
          ∙ back_j
    ]
  ]

  pub move-IsChained : IsChained main same size moved n
  unfolding move
  move-IsChained = record {
    rank = moved_rank;
    down = λ i j e. ground (
      arith,
      ok.down i j,
      ok.down mp j,
      ok.down before mp linked,
      ok.linked i j,
      ok.linked mp j,
      free,
      apart_from,
      e,
    );
    low = λ i. ground (arith, ok.low i, ok.low mp, below);
    linked = λ i j e.
        ground (
          arith,
          ok.linked i j,
          ok.linked mp j,
          ok.low mp,
          below,
          e,
          apart_from,
          mp-IsUsed,
          present,
        );
    bare = λ i e. ground (arith, ok.bare i, e, mp-IsUsed, present, apart_from);
    apart = λ i j k e e'. ground (
      arith,
      ok.apart i j k,
      ok.apart mp j k,
      ok.apart i mp k,
      ok.linked i k,
      ok.linked j k,
      ok.linked mp k,
      free,
      apart_from,
      e,
      e',
    );
    reached = reached_moved;
    home = home_moved;
    unique = unique_moved;
  }
