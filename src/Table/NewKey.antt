-- ===== src/Table/NewKey.antt =====
-- `newkey` enters a key, unless there is no free node.
use lua_reading.Prelude.{
  ℕ, suc, ◌+◌, ◌≤◌, ◌<◌, true, false, ◌==◌, if◌then◌else◌, none, some, ◌≡◌, ◌≢◌, refl, ap, ◌∙◌, ◌⊎◌,
  inl, inr, arith, ==_iff, Bool-cases, Option-cases,
}
use lua_reading.Table.{
  Value, nil, Host, Node, Table, sizenode, is_nil, put, getfreepos, move, chain, rawequal,
  mainposition, collide, newkey,
}
use lua_reading.Table.Chains.{IsUsed, previous-Reach}
use lua_reading.Table.Insert.{same_place, getfreepos-some, write-IsChained, chain-IsChained}
use lua_reading.Table.Free.{free_below, free_below-put, free_below-le, getfreepos-last}
use lua_reading.Table.Move.{move-IsChained}
use lua_reading.Table.Keys.{ComparesNumbers, rawequal_swap, mainposition-lt}
use lua_reading.Table.Contents.{IsTable, Holds}

-- The table and the node that `newkey` returns: the key is there without a value yet, the rest of the
-- table holds what it held.
pub record Enters (host : Host) (t : Table) (key : Value) (r : Table × ℕ) : Type 0 where
  pub table : IsTable host r.0
  pub inside : r.1 < sizenode r.0
  pub key_there : Node.key (r.0.node r.1) ≡ key
  pub no_value : Node.val (r.0.node r.1) ≡ nil
  pub same_array : r.0.array ≡ t.array
  pub keeps : (k v : Value) → is_nil v ≡ false → Holds host t k v → Holds host r.0 k v
  pub adds_none : (k v : Value) → is_nil v ≡ false → Holds host r.0 k v → Holds host t k v
  pub keys_stay :
      (j : ℕ)
      → IsUsed (r.0.node j)
      → (Node.key (r.0.node j) ≡ key)
        ⊎ ((i : ℕ) × IsUsed (t.node i) × (Node.key (t.node i) ≡ Node.key (r.0.node j)))
  pub takes_one :
      free_below t.node t.lastfree ≤ suc (free_below (Table.node r.0) (Table.lastfree r.0))
  pub same_size : r.0.lsizenode ≡ t.lsizenode

-- Nodes that hold a value go to places with the same contents.
Holds-map :
    (host : Host) (t t' : Table) (f : ℕ → ℕ)
    → ((j : ℕ)
        → IsUsed (t.node j)
        → is_nil (Node.val (t.node j)) ≡ false
        → (Node.key (t'.node (f j)) ≡ Node.key (t.node j))
          × (Node.val (t'.node (f j)) ≡ Node.val (t.node j)))
    → (k v : Value) → is_nil v ≡ false
    → Holds host t k v
    → Holds host t' k v
Holds-map host t t' f same k v full h =
    let (same_key, same_val) = same h.position h.used (ap is_nil h.value ∙ full) in
    record {
      position = f h.position;
      used = ap is_nil same_key ∙ h.used;
      same = ap (λ x. rawequal host x k) same_key ∙ h.same;
      value = same_val ∙ h.value;
    }

module _ (host : Host) (law : ComparesNumbers host) (t : Table) (ok : IsTable host t) (key : Value)
    (present : is_nil key ≡ false)
    (absent : (j : ℕ) → rawequal host (Node.key (t.node j)) key ≡ false) where
  abbrev main : Value → ℕ
  main = mainposition host (sizenode t)

  abbrev mp : ℕ
  mp = main key

  absent' : (j : ℕ) → rawequal host key (Node.key (t.node j)) ≡ false
  absent' j = rawequal_swap host law key _ ∙ absent j

  at_once :
      is_nil (Node.val (t.node mp)) ≡ true
      → Enters host t key (record t { node = put t.node mp (record (t.node mp) { key = key }) }, mp)
  at_once bare = record {
    table = record {
      chained =
          write-IsChained main (rawequal host) (sizenode t) t.node t.lastfree ok.chained key present
            absent absent' (mainposition-lt host t.lsizenode key);
      dummy = ok.dummy;
    };
    inside = mainposition-lt host t.lsizenode key;
    key_there = ground arith;
    no_value = ground (arith, bare);
    same_array = refl;
    keeps = Holds-map host t _ (λ j. j) (λ j u full. ground (arith, full, bare));
    adds_none = Holds-map host _ t (λ j. j) (λ j u full. ground (arith, full, bare));
    keys_stay = λ j u. elim (same_place j mp) [
      | inl e ↦ inl (ground (arith, e))
      | inr f ↦ inr (j, ground (arith, f, u), ground (arith, f))
    ];
    takes_one = free_below-put t.node mp key t.lastfree;
    same_size = refl;
  }

  module _ (taken : is_nil (Node.val (t.node mp)) ≡ false) (n : ℕ) (below : n < t.lastfree)
      (free : is_nil (Node.key (t.node n)) ≡ true) (real : t.is_dummy ≡ false)
      (last_free : free_below t.node t.lastfree ≡ suc (free_below t.node n)) where
    fits : n < sizenode t
    fits = omega (arith, ok.chained.low n)

    used : is_nil (Node.key (t.node mp)) ≡ false
    used = ground (arith, ok.chained.bare mp, taken)

    no_value_there : is_nil (Node.val (t.node n)) ≡ true
    no_value_there = ap is_nil (ok.chained.bare n free).1

    behind :
        main (Node.key (t.node mp)) ≡ mp
        → Enters host t key (record t { lastfree = n; node = chain t.node mp n key }, n)
    unfolding chain
    behind settled =
        let after = chain t.node mp n key in
        record {
          table = record {
            chained =
                chain-IsChained main (rawequal host) (sizenode t) t.node t.lastfree ok.chained key
                  present absent absent' n below free taken settled;
            dummy = λ e. cc;
          };
          inside = fits;
          key_there = ground (arith, used, free);
          no_value = ground (arith, used, free, ok.chained.bare n free);
          same_array = refl;
          keeps =
              Holds-map host t _ (λ j. j)
                (λ j u full. ground (arith, full, u, free, no_value_there));
          adds_none =
              Holds-map host _ t (λ j. j)
                (λ j u full. ground (arith, full, u, free, no_value_there, used));
          keys_stay = λ j u. elim (same_place j n) [
            | inl e ↦ inl (ground (arith, e, used, free))
            | inr f ↦ inr (j, ground (arith, f, u), ground (arith, f))
          ];
          takes_one = omega (
            arith,
            last_free,
            free_below-le t.node after n (λ i h e. ground (arith, used, h, e)),
          );
          same_size = refl;
        }

    in_place :
        (before : ℕ)
        → Node.next (t.node before) ≡ some mp
        → main (Node.key (t.node mp)) ≢ mp
        → Enters host t key (record t { lastfree = n; node = move t.node mp n before key }, mp)
    unfolding move
    in_place before linked astray =
        let after = move t.node mp n before key in
        record {
          table = record {
            chained =
                move-IsChained main (rawequal host) (sizenode t) t.node t.lastfree ok.chained key
                  present absent absent' n below free taken astray before linked;
            dummy = λ e. cc;
          };
          inside = mainposition-lt host t.lsizenode key;
          key_there = ground arith;
          no_value = ground arith;
          same_array = refl;
          keeps =
              Holds-map host t _ (λ j. if j == mp then n else j)
                (λ j u full. ground (
                  arith,
                  full,
                  u,
                  free,
                  used,
                  ok.chained.down before mp linked,
                  ok.chained.bare before,
                  linked,
                ));
          adds_none =
              Holds-map host _ t (λ j. if j == n then mp else j)
                (λ j u full. ground (
                  arith,
                  full,
                  u,
                  free,
                  used,
                  ok.chained.down before mp linked,
                  ok.chained.bare before,
                  linked,
                ));
          keys_stay = λ j u. elim (same_place j mp) [
            | inl e ↦ inl (ground (arith, e))
            | inr f ↦ elim (same_place j n) [
              | inl e ↦ inr (mp, used, ground (arith, e, f, ok.chained.down before mp linked))
              | inr g ↦ inr (j, ground (arith, f, g, u), ground (arith, f, g))
            ]
          ];
          takes_one = omega (
            arith,
            last_free,
            free_below-le t.node after n (λ i h e. ground (arith, used, h, e)),
          );
          same_size = refl;
        }

    collide-Enters : (r : Table × ℕ) × (collide host t mp key n ≡ some r) × Enters host t key r
    unfolding collide
    collide-Enters = elim (Bool-cases (main (Node.key (t.node mp)) == mp)) [
      | inl e ↦ (_, rw e refl, behind ((==_iff _ mp).0 e))
      | inr e ↦
          let astray : main (Node.key (t.node mp)) ≢ mp = λ h. ground (arith, e, h) in
          let (before, found, linked) =
            previous-Reach t.node ok.chained.rank ok.chained.down (sizenode t + 1)
              (ok.chained.reached mp used) astray
              (omega (arith, ok.chained.low (main (Node.key (t.node mp))))) in
          (_, rw (e, found) refl, in_place before linked astray)
    ]

  -- For a key that is not nil and in no node of a well-formed hash part, `newkey` either finds no free
  -- node, or gives a well-formed table in which a node has the key and no value yet, and which holds
  -- every other key and value that the table held and nothing more.
  pub newkey-Enters :
      ((newkey host t key ≡ none) × (getfreepos t.node t.lastfree ≡ none))
      ⊎ ((r : Table × ℕ) × (newkey host t key ≡ some r) × Enters host t key r)
  unfolding newkey getfreepos
  newkey-Enters = elim (Bool-cases (is_nil (Node.val (t.node mp)))) [
    | inr taken ↦ elim (Option-cases (getfreepos t.node t.lastfree)) [
      | inl none_left ↦ inl (rw (taken, none_left) refl, none_left)
      | inr (n, found) ↦
          let (below, free) = getfreepos-some t.node t.lastfree n found in
          let real : t.is_dummy ≡ false = ground (arith, ok.dummy, below) in
          let (r, e, enters) =
            collide-Enters taken n below free real (getfreepos-last t.node t.lastfree n found) in
          inr (r, rw (taken, found) e, enters)
    ]
    | inl bare ↦ elim (Bool-cases t.is_dummy) [
      | inl d ↦ inl (rw (bare, d, ok.dummy d) refl, rw (ok.dummy d) refl)
      | inr real ↦ inr (_, rw (bare, real) refl, at_once bare)
    ]
  ]
