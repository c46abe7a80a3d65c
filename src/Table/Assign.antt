-- ===== src/Table/Assign.antt =====
-- A value is assigned to the node of a key.
use lua_reading.Prelude.{
  ℕ, true, false, ◌==◌, ◌≡◌, sym, ap, ◌∙◌, arith, inl, inr, Bool-cases, ==_iff,
}
use lua_reading.Table.{
  Value, Host, Node, Table, sizenode, is_nil, put, rawequal, mainposition, assign,
}
use lua_reading.Table.Chains.{IsUsed}
use lua_reading.Table.Insert.{Reach-from, Reach-same}
use lua_reading.Table.Contents.{IsTable, Holds}

-- The assignment to node `p`: under its key the table holds the new value, under others what it held.
pub record Assigns (host : Host) (t : Table) (p : ℕ) (v : Value) (t' : Table) : Type 0 where
  pub table : IsTable host t'
  pub holds : (k : Value) → rawequal host (Node.key (t.node p)) k ≡ true → Holds host t' k v
  pub keeps :
      (k w : Value)
      → rawequal host (Node.key (t.node p)) k ≡ false
      → Holds host t k w
      → Holds host t' k w
  pub adds_none :
      (k w : Value)
      → rawequal host (Node.key (t.node p)) k ≡ false
      → Holds host t' k w
      → Holds host t k w

module _ (host : Host) (t : Table) (ok : IsTable host t) (p : ℕ) (used : IsUsed (t.node p))
    (v : Value) where
  abbrev pub after : ℕ → Node
  after = put t.node p (record (t.node p) { val = v })

  pub same_node :
      (i : ℕ)
      → (Node.next (after i) ≡ Node.next (t.node i)) × (Node.key (after i) ≡ Node.key (t.node i))
  same_node i = ground arith

  other_val : (i : ℕ) → (i == p) ≡ false → Node.val (after i) ≡ Node.val (t.node i)
  other_val i f = ground (arith, f)

  elsewhere :
      (i : ℕ) (k : Value)
      → rawequal host (Node.key (t.node i)) k ≡ true
      → rawequal host (Node.key (t.node p)) k ≡ false
      → (i == p) ≡ false
  elsewhere i k e f = elim (Bool-cases (i == p)) [
    | inl h ↦
        let clash : true ≡ false =
          sym e ∙ ap (λ (j : ℕ). rawequal host (Node.key (t.node j)) k) ((==_iff i p).0 h) ∙ f in
        cc
    | inr h ↦ h
  ]

  -- An assignment to a node that has a key keeps the hash part well formed, puts the value under that
  -- key, and changes nothing under a key that is not equal to it.
  pub assign-Assigns : Assigns host t p v (assign t p v)
  unfolding assign
  assign-Assigns =
      let c = ok.chained in
      record {
        table = record {
          chained = record {
            rank = c.rank;
            down = λ i j e. ground (arith, c.down i j, same_node i, e);
            low = c.low;
            linked = λ i j e. ground (arith, c.linked i j, same_node i, same_node j, e);
            bare = λ i e. ground (arith, c.bare i, e, used);
            apart = λ i j k e e'. ground (arith, c.apart i j k, same_node i, same_node j, e, e');
            reached = λ j u.
                Reach-from after j _ _ (sym (ap (mainposition host (sizenode t)) (same_node j).1)) (
                  Reach-same t.node after (λ i. (same_node i).0)
                    (c.reached j (sym (ap is_nil (same_node j).1) ∙ u)));
            home = λ j u. ground (arith, c.home j, u);
            unique = λ i j u u' e. ground (arith, c.unique i j, same_node i, same_node j, u, u', e);
          };
          dummy = ok.dummy;
        };
        holds = λ k e. record {
          position = p;
          used = ap is_nil (same_node p).1 ∙ used;
          same = ap (λ x. rawequal host x k) (same_node p).1 ∙ e;
          value = ground arith;
        };
        keeps = λ k w e h. record {
          position = h.position;
          used = ap is_nil (same_node h.position).1 ∙ h.used;
          same = ap (λ x. rawequal host x k) (same_node h.position).1 ∙ h.same;
          value = other_val h.position (elsewhere h.position k h.same e) ∙ h.value;
        };
        adds_none = λ k w e h.
            let i = h.position in
            let same_there = sym (ap (λ x. rawequal host x k) (same_node i).1) ∙ h.same in
            record {
              position = i;
              used = sym (ap is_nil (same_node i).1) ∙ h.used;
              same = same_there;
              value = sym (other_val i (elsewhere i k same_there e)) ∙ h.value;
            };
      }
