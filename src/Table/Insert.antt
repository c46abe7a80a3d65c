-- ===== src/Table/Insert.antt =====
-- A key that goes into the hash part leaves the chains well formed.
use lua_reading.Prelude.{
  ℕ, zero, suc, ◌<◌, Bool, true, false, ◌==◌, if◌then◌else◌, leb, some, ◌≡◌, ◌∙◌, arith, inl, inr,
  ◌⊎◌, Bool-cases, ==_iff,
}
use mathlib.Core.Path.{subst}
use lua_reading.Table.{Value, Node, is_nil, put, getfreepos, chain}
use lua_reading.Table.Chains.{Reach, here, onward, IsUsed, IsChained}

-- The last free node, and that `lastfree` goes down to it.
pub getfreepos-some :
    (node : ℕ → Node) (lastfree n : ℕ)
    → getfreepos node lastfree ≡ some n
    → (n < lastfree) × (is_nil (Node.key (node n)) ≡ true)
unfolding getfreepos
getfreepos-some node zero n e = cc
getfreepos-some node (suc i) n e = elim (Bool-cases (is_nil (Node.key (node i)))) [
  | inl t ↦ ground (arith, t, e)
  | inr f ↦ let (below, bare) = getfreepos-some node i n (rw f at e) in (omega (arith, below), bare)
]

pub same_place : (i j : ℕ) → (i ≡ j) ⊎ ((i == j) ≡ false)
same_place i j = elim (Bool-cases (i == j)) [ inl t ↦ inl ((==_iff i j).0 t) | inr f ↦ inr f ]

pub Reach-from : (node : ℕ → Node) (j i i' : ℕ) → i ≡ i' → Reach node j i → Reach node j i'
Reach-from node j i i' e r = subst (Reach node j) e r

module _ (node node' : ℕ → Node)
    (same_next : (i : ℕ) → Node.next (node' i) ≡ Node.next (node i)) where
  pub Reach-same : {j i : ℕ} → Reach node j i → Reach node' j i
  Reach-same here = here
  Reach-same (onward {i = i} e r) = onward (same_next i ∙ e) (Reach-same r)

module _ (main : Value → ℕ) (same : Value → Value → Bool) (size : ℕ) (node : ℕ → Node)
    (lastfree : ℕ) (ok : IsChained main same size node lastfree) (key : Value)
    (present : is_nil key ≡ false) (absent : (k : ℕ) → same (Node.key (node k)) key ≡ false)
    (absent' : (k : ℕ) → same key (Node.key (node k)) ≡ false) where
  abbrev pub written : ℕ → Node
  written = put node (main key) (record (node (main key)) { key = key })

  reached_written : (j : ℕ) → IsUsed (written j) → Reach written j (main (Node.key (written j)))
  reached_written j u = elim (same_place j (main key)) [
    | inl e ↦ Reach-from written j j _ (ground (arith, e)) here
    | inr f ↦
        Reach-from written j (main (Node.key (node j))) _ (ground (arith, f))
          (Reach-same node written (λ i. ground arith) (ok.reached j (ground (arith, f, u))))
  ]

  -- The main position is not taken: the key is written there.
  pub write-IsChained : main key < size → IsChained main same size written lastfree
  write-IsChained fits = record {
    rank = ok.rank;
    down = λ i j e. ground (arith, ok.down i j, e);
    low = ok.low;
    linked = λ i j e. ground (arith, ok.linked i j, e);
    bare = λ i e. ground (arith, ok.bare i, e);
    apart = λ i j k e e'. ground (arith, ok.apart i j k, e, e');
    reached = λ j u. reached_written j u;
    home = λ j u. ground (arith, ok.home j);
    unique = λ i j u u' s. ground (arith, ok.unique i j, absent i, absent j, absent' i, absent' j);
  }

  module _ (n : ℕ) (below : n < lastfree) (free : is_nil (Node.key (node n)) ≡ true)
      (taken : is_nil (Node.val (node (main key))) ≡ false) where
    abbrev mp : ℕ
    mp = main key

    mp-IsUsed : IsUsed (node mp)
    mp-IsUsed = ground (arith, ok.bare mp, taken)

    -- The node there is in its own main position.
    module _ (settled : main (Node.key (node mp)) ≡ mp) where
      abbrev pub chained : ℕ → Node
      chained = chain node mp n key

      abbrev chained_rank : ℕ → ℕ
      chained_rank x =
          if x == n
          then ok.rank mp
          else if leb (ok.rank mp) (ok.rank x)
          then suc (ok.rank x)
          else ok.rank x

      Reach-chained : {j i : ℕ} → Reach node j i → IsUsed (node i) → Reach chained j i
      unfolding chain
      Reach-chained here u = here
      Reach-chained {j} {i} (onward {k = k} e r) u =
          let rest = Reach-chained r (ok.linked i k e).0 in
          elim (same_place i mp) [
            | inl h ↦
                onward {k = n} (ground (arith, h, free, mp-IsUsed))
                  (onward {k = k} (ground (arith, h, e, free, mp-IsUsed)) rest)
            | inr f ↦ onward {k = k} (ground (arith, f, e, u, free)) rest
          ]

      reached_chained : (j : ℕ) → IsUsed (chained j) → Reach chained j (main (Node.key (chained j)))
      unfolding chain
      reached_chained j u = elim (same_place j n) [
        | inl h ↦
            Reach-from chained j mp _ (ground (arith, h, free, mp-IsUsed))
              (onward {k = j} (ground (arith, h)) here)
        | inr f ↦
            let old : IsUsed (node j) = ground (arith, f, u, mp-IsUsed) in
            Reach-from chained j (main (Node.key (node j))) _ (ground (arith, f))
              (Reach-chained (ok.reached j old) (ok.home j old).0)
      ]

      pub chain-IsChained : IsChained main same size chained n
      unfolding chain
      chain-IsChained = record {
        rank = chained_rank;
        down = λ i j e.
            ground
              (arith, ok.down i j, ok.down mp j, ok.linked i j, ok.linked mp j, free, mp-IsUsed, e);
        low = λ i. ground (arith, ok.low i, ok.low mp, below);
        linked = λ i j e.
            ground (arith, ok.linked i j, ok.linked mp j, ok.low mp, below, e, mp-IsUsed, present);
        bare = λ i e. ground (arith, ok.bare i, e, mp-IsUsed, present);
        apart = λ i j k e e'. ground (
          arith,
          ok.apart i j k,
          ok.apart mp j k,
          ok.apart i mp k,
          ok.linked i k,
          ok.linked j k,
          ok.linked mp k,
          free,
          mp-IsUsed,
          e,
          e',
        );
        reached = reached_chained;
        home = λ j u. ground (arith, ok.home j, u, free, mp-IsUsed, settled);
        unique = λ i j u u' s.
            ground
              (arith, ok.unique i j, absent i, absent j, absent' i, absent' j, u, u', s, mp-IsUsed);
      }
