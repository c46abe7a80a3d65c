-- ===== src/Table/Contents.antt =====
-- A new key in the hash part, against what the table holds.
use lua_reading.Prelude.{
  ℕ, ◌+◌, ◌^◌, ◌≤◌, true, false, Option, none, some, ◌≡◌, refl, sym, ap, ◌∙◌, inl, inr, arith,
  Bool-cases,
}
use mathlib.Core.Path.{subst}
use lua_reading.Table.{
  Value, nil, Host, Node, Table, sizenode, is_nil, missing, in_node, find, found, rawequal,
  mainposition, get_default, setnodevector, setnodevector,
}
use lua_reading.Table.Chains.{Reach, IsUsed, IsChained, search-Reach}
use lua_reading.Table.Keys.{ComparesNumbers, used_key, same_key, mainposition-eq}

module _ (host : Host) where
  pub record IsTable (t : Table) : Type 0 where
    pub chained :
        IsChained (mainposition host (sizenode t)) (rawequal host) (sizenode t) t.node t.lastfree
    pub dummy : t.is_dummy ≡ true → t.lastfree ≡ 0

  empty_chains :
      (size lastfree : ℕ)
      → lastfree ≤ size
      → IsChained
          (mainposition host size)
          (rawequal host)
          size
          (λ i. record { val = nil; key = nil; next = none })
          lastfree
  empty_chains size lastfree h = record {
    rank = λ i. 0;
    down = λ i j e. cc;
    low = λ i. omega arith;
    linked = λ i j e. cc;
    bare = λ i e. (refl, refl);
    apart = λ i j k e e'. cc;
    reached = λ j u. cc;
    home = λ j u. cc;
    unique = λ i j u u' e. cc;
  }

  -- The table's hash part has the value `v` under the key `k`.
  pub record Holds (t : Table) (k v : Value) : Type 0 where
    pub position : ℕ
    pub used : IsUsed (t.node position)
    pub same : rawequal host (Node.key (t.node position)) k ≡ true
    pub value : Node.val (t.node position) ≡ v

  module _ (law : ComparesNumbers host) where
    -- In a well-formed hash part, the general search of `luaH_get` for a key that a node has, not nil,
    -- finds that node.
    pub get_default-Holds :
        (t : Table) (k v : Value)
        → IsTable t
        → is_nil k ≡ false
        → (h : Holds t k v) → get_default host t k ≡ in_node h.position
    unfolding get_default find
    get_default-Holds t k v ok present h =
        let c = ok.chained in
        let j = h.position in
        ap found (
          search-Reach t.node c.rank c.down (λ x. rawequal host x k) (sizenode t + 1)
            (subst (Reach t.node j) (mainposition-eq host law (sizenode t) _ k h.same)
              (c.reached j h.used))
            h.same
            (λ i e.
              c.unique i j (used_key host law _ k present e) h.used
                (same_key host law _ _ k e h.same))
            (omega (arith, c.low (mainposition host (sizenode t) k))))

    -- If the general search of `luaH_get` for a key, not nil, fails in a well-formed hash part, no node
    -- has the key.
    pub get_default_missing :
        (t : Table) (k : Value)
        → IsTable t
        → is_nil k ≡ false
        → get_default host t k ≡ missing
        → (j : ℕ) → rawequal host (Node.key (t.node j)) k ≡ false
    get_default_missing t k ok present e j =
        elim (Bool-cases (rawequal host (Node.key (t.node j)) k)) [
          | inl s ↦
              let h : Holds t k (Node.val (t.node j)) = record {
                position = j;
                used = used_key host law _ k present s;
                same = s;
                value = refl;
              } in
              let clash : missing ≡ in_node j = sym e ∙ get_default-Holds t k _ ok present h in cc
          | inr f ↦ f
        ]

  -- A fresh hash part, also that of the dummy node, is well formed and holds nothing.
  pub setnodevector-IsTable :
      (lsize : Option ℕ) (t : Table)
      → IsTable (setnodevector lsize t) × ((k v : Value) → ¬ Holds (setnodevector lsize t) k v)
  unfolding setnodevector
  setnodevector-IsTable none t =
      (record { chained = empty_chains 1 0 (omega arith); dummy = λ e. refl }, λ k v h. cc)
  setnodevector-IsTable (some lsize) t = (
    record { chained = empty_chains (2 ^ lsize) (2 ^ lsize) (omega arith); dummy = λ e. cc },
    λ k v h. cc,
  )
