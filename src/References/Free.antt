-- ===== src/References/Free.antt =====
-- The references of src/lauxlib.c: a reference in use keeps its value, and is not given again.
use lua_reading.Prelude.{
  ℕ, suc, ◌+◌, ◌≤◌, ◌<◌, ◌≡◌, refl, sym, ap, ◌∙◌, ◌≢◌, ◌⊎◌, inl, inr, true, false, List, [], ◌∷◌,
  arith, ltb, ◌==◌, ==_iff, Bool-cases, All,
}
use lua_reading.Prelude.Int.{pos}
use lua_reading.References.{Slot, integer, value, to_integer, is_empty, put_slot, ref_value, unref}

abbrev pub Absent : ℕ → List ℕ → Type 0
Absent k = All (λ x. x ≢ k)

module _ {A : Type 0} where
  -- The free references from a link on, all of them from 1 to `n` and different.
  abbrev pub Chain : ℕ → (ℕ → Slot A) → Slot A → List ℕ → Type 0
  Chain n t s [] = to_integer s ≡ 0
  Chain n t s (r ∷ rs) = (to_integer s ≡ r) × (0 < r) × (r ≤ n) × Absent r rs × Chain n t (t r) rs

  -- The references from 1 to `n` are free or in use, and nothing is above.
  pub record IsKept (n : ℕ) (free : List ℕ) (t : ℕ → Slot A) : Type 0 where
    pub linked : Chain n t (t 0) free
    pub used : (k : ℕ) → 0 < k → k ≤ n → Absent k free → is_empty (t k) ≡ false
    pub beyond : (k : ℕ) → n < k → is_empty (t k) ≡ true

  -- The table has the value `v` for the reference `k`, which is in use.
  pub record Refers (n : ℕ) (free : List ℕ) (t : ℕ → Slot A) (k : ℕ) (v : A) : Type 0 where
    pub positive : 0 < k
    pub small : k ≤ n
    pub in_use : Absent k free
    pub holds : t k ≡ value v

  -- `lua_objlen` answers a border of the table, as `luaH_getn` does.
  abbrev pub AnswersBorder : ((ℕ → Slot A) → ℕ) → (ℕ → Slot A) → Type 0
  AnswersBorder objlen t =
      (is_empty (t (suc (objlen t))) ≡ true) × ((objlen t ≡ 0) ⊎ (is_empty (t (objlen t)) ≡ false))

  put_same : (t : ℕ → Slot A) (i : ℕ) (s : Slot A) → put_slot t i s i ≡ s
  put_same t i s = let e : i == i ≡ true = ground arith in rw e refl

  put_other : (t : ℕ → Slot A) (i k : ℕ) (s : Slot A) → k ≢ i → put_slot t i s k ≡ t k
  put_other t i k s h = let e : k == i ≡ false = ground (arith, h) in rw e refl

  -- A chain only depends on its references.
  Chain-put_slot :
      (n : ℕ) (t t' : ℕ → Slot A) (s : Slot A) (free : List ℕ)
      → All (λ r. t' r ≡ t r) free
      → Chain n t s free
      → Chain n t' s free
  Chain-put_slot n t t' s [] same h = h
  Chain-put_slot n t t' s (r ∷ rs) (e, es) (h1, h2, h3, h4, h5) =
      (h1, h2, h3, h4, rw e (Chain-put_slot n t t' (t r) rs es h5))

  Chain-positive :
      (n : ℕ) (t : ℕ → Slot A) (s : Slot A) (free : List ℕ) → Chain n t s free → Absent 0 free
  Chain-positive n t s [] h = tt
  Chain-positive n t s (r ∷ rs) (h1, h2, h3, h4, h5) =
      ((λ e. ground (arith, e, h2)), Chain-positive n t (t r) rs h5)

  -- The outcome of `luaL_ref`: the reference was not in use, it has the value, and the others keep
  -- theirs.
  pub record Refs (n : ℕ) (free : List ℕ) (t : ℕ → Slot A) (v : A) (r : ℕ) (t' : ℕ → Slot A)
      : Type 0 where
    pub size : ℕ
    pub left : List ℕ
    pub kept : IsKept size left t'
    pub refers : Refers size left t' r v
    pub fresh : (w : A) → Refers n free t r w → ⊥
    pub others : (k : ℕ) (w : A) → Refers n free t k w → Refers size left t' k w

  two_puts :
      (t : ℕ → Slot A) (i j k : ℕ) (s s' : Slot A)
      → k ≢ i
      → k ≢ j
      → put_slot (put_slot t i s) j s' k ≡ t k
  two_puts t i j k s s' h h' = put_other (put_slot t i s) j k s' h' ∙ put_other t i k s h

  Absent-two_puts :
      (t : ℕ → Slot A) (i j : ℕ) (s s' : Slot A) (free : List ℕ)
      → Absent i free
      → Absent j free
      → All (λ r. put_slot (put_slot t i s) j s' r ≡ t r) free
  Absent-two_puts t i j s s' [] h k = tt
  Absent-two_puts t i j s s' (r ∷ rs) (h, hs) (k, ks) =
      (two_puts t i j r s s' h k, Absent-two_puts t i j s s' rs hs ks)

  reuse :
      (n r : ℕ) (rs : List ℕ) (t : ℕ → Slot A) (v : A)
      → IsKept n (r ∷ rs) t
      → Refs n (r ∷ rs) t v r (put_slot (put_slot t 0 (t r)) r (value v))
  reuse n r rs t v ok =
      let (head, positive, small, apart, rest) = ok.linked in
      let t' = put_slot (put_slot t 0 (t r)) r (value v) in
      let not_zero : 0 ≢ r = λ e. ground (arith, e, positive) in
      let at_zero : t' 0 ≡ t r =
        put_other (put_slot t 0 (t r)) r 0 (value v) not_zero ∙ put_same t 0 (t r) in
      let at_r : t' r ≡ value v = put_same (put_slot t 0 (t r)) r (value v) in
      let zeros = Chain-positive n t (t r) rs rest in
      let untouched : (k : ℕ) → 0 < k → k ≢ r → t' k ≡ t k =
        λ k h h'. two_puts t 0 r k (t r) (value v) (λ e. ground (arith, e, h)) h' in
      record {
        size = n;
        left = rs;
        kept = record {
          linked = rw at_zero (
              Chain-put_slot n t t' (t r) rs (Absent-two_puts t 0 r (t r) (value v) rs zeros apart)
                rest);
          used = λ k h le absent. elim (Bool-cases (k == r)) [
            | inl e ↦ rw ((==_iff k r).0 e, at_r) refl
            | inr d ↦
                let other : k ≢ r = λ e. ground (arith, e, d) in
                rw (untouched k h other) (ok.used k h le ((λ e. other (sym e)), absent))
          ];
          beyond = λ k h.
              rw (untouched k (omega (arith, h)) (λ e. ground (arith, e, h, small)))
                (ok.beyond k h);
        };
        refers = record { positive = positive; small = small; in_use = apart; holds = at_r };
        fresh = λ w h. h.in_use.0 refl;
        others = λ k w h. record {
          positive = h.positive;
          small = h.small;
          in_use = h.in_use.1;
          holds = untouched k h.positive (λ e. h.in_use.0 (sym e)) ∙ h.holds;
        };
      }

  border :
      (n : ℕ) (t : ℕ → Slot A) (o : ℕ)
      → IsKept n [] t
      → is_empty (t (suc o)) ≡ true
      → (o ≡ 0) ⊎ (is_empty (t o) ≡ false)
      → o ≡ n
  border n t o ok empty full = elim (Bool-cases (ltb o n)) [
    | inl h ↦
        let clash = ok.used (suc o) (omega arith) (ground (arith, h)) tt in
        ground (arith, clash, empty)
    | inr h ↦ elim (Bool-cases (o == n)) [
      | inl e ↦ (==_iff o n).0 e
      | inr d ↦
          let more : n < o = ground (arith, h, d) in
          let clash = ok.beyond o more in ground (arith, full, clash, more)
    ]
  ]

  extend :
      (n : ℕ) (t : ℕ → Slot A) (v : A)
      → IsKept n [] t
      → Refs n [] t v (n + 1) (put_slot t (n + 1) (value v))
  extend n t v ok =
      let t' = put_slot t (n + 1) (value v) in
      let at_new : t' (n + 1) ≡ value v = put_same t (n + 1) (value v) in
      let untouched : (k : ℕ) → k ≢ n + 1 → t' k ≡ t k = λ k h. put_other t (n + 1) k (value v) h in
      record {
        size = n + 1;
        left = [];
        kept = record {
          linked = rw (untouched 0 (λ e. omega (arith, e))) ok.linked;
          used = λ k h le absent. elim (Bool-cases (k == n + 1)) [
            | inl e ↦ rw ((==_iff k (n + 1)).0 e, at_new) refl
            | inr d ↦
                rw (untouched k (λ e. ground (arith, e, d)))
                  (ok.used k h (ground (arith, le, d)) tt)
          ];
          beyond =
              λ k h. rw (untouched k (λ e. omega (arith, e, h))) (ok.beyond k (omega (arith, h)));
        };
        refers = record {
          positive = omega arith;
          small = omega arith;
          in_use = tt;
          holds = at_new;
        };
        fresh = λ w h. omega (arith, h.small);
        others = λ k w h. record {
          positive = h.positive;
          small = omega (arith, h.small);
          in_use = tt;
          holds = untouched k (λ e. omega (arith, e, h.small)) ∙ h.holds;
        };
      }

  -- In a table in which every reference up to `n` is free or in use, and of which `lua_objlen` answers
  -- a border: `luaL_ref` of a value gives a reference that was not in use; the table then has the
  -- value for it and is well formed, and all other references in use keep their values.
  pub ref_value-Refs :
      (objlen : (ℕ → Slot A) → ℕ) (n : ℕ) (free : List ℕ) (t : ℕ → Slot A) (v : A)
      → AnswersBorder objlen t
      → IsKept n free t
      → Refs n free t v (ref_value objlen v t).0 (ref_value objlen v t).1
  unfolding ref_value
  ref_value-Refs objlen n [] t v (empty, full) ok =
      let same : objlen t ≡ n = border n t (objlen t) ok empty full in
      rw (ok.linked, same) (extend n t v ok)
  ref_value-Refs objlen n (r ∷ rs) t v answers ok =
      let taken : r == 0 ≡ false = ground (arith, ok.linked.1) in
      rw (ok.linked.0, taken) (reuse n r rs t v ok)

  -- After `luaL_unref`: the reference is free, and the others keep their values.
  pub record Frees (n : ℕ) (free : List ℕ) (t : ℕ → Slot A) (r : ℕ) (t' : ℕ → Slot A) : Type 0 where
    pub kept : IsKept n (r ∷ free) t'
    pub others : (k : ℕ) (w : A) → k ≢ r → Refers n free t k w → Refers n (r ∷ free) t' k w

  -- `luaL_unref` of a reference in use, in a well-formed table, makes it free: the table stays well
  -- formed, and the other references in use keep their values.
  pub unref-Frees :
      (n : ℕ) (free : List ℕ) (t : ℕ → Slot A) (r : ℕ) (v : A)
      → IsKept n free t
      → Refers n free t r v
      → Frees n free t r (unref (pos r) t)
  unfolding unref to_integer
  unref-Frees n free t r v ok h =
      let t' = put_slot (put_slot t r (t 0)) 0 (integer r) in
      let not_zero : r ≢ 0 = λ e. ground (arith, e, h.positive) in
      let at_zero : t' 0 ≡ integer r = put_same (put_slot t r (t 0)) 0 (integer r) in
      let at_r : t' r ≡ t 0 =
        put_other (put_slot t r (t 0)) 0 r (integer r) not_zero ∙ put_same t r (t 0) in
      let untouched : (k : ℕ) → 0 < k → k ≢ r → t' k ≡ t k =
        λ k p d. two_puts t r 0 k (t 0) (integer r) d (λ e. ground (arith, e, p)) in
      let zeros = Chain-positive n t (t 0) free ok.linked in
      let rest : Chain n t' (t' r) free = rw at_r (
        Chain-put_slot n t t' (t 0) free
          (Absent-two_puts t r 0 (t 0) (integer r) free h.in_use zeros) ok.linked) in
      record {
        kept = record {
          linked = (ap to_integer at_zero, h.positive, h.small, h.in_use, rest);
          used =
              λ k p le absent. rw (untouched k p (λ e. absent.0 (sym e))) (ok.used k p le absent.1);
          beyond = λ k more.
              rw (untouched k (omega (arith, more)) (λ e. ground (arith, e, more, h.small)))
                (ok.beyond k more);
        };
        others = λ k w other u. record {
          positive = u.positive;
          small = u.small;
          in_use = ((λ e. other (sym e)), u.in_use);
          holds = untouched k u.positive other ∙ u.holds;
        };
      }
