-- ===== src/Pattern/Suffix.antt =====
-- The matcher decides what a repeated item matches, given the calls for what follows it.
use lua_reading.Prelude.{
  ℕ, zero, suc, ◌+◌, ◌-◌, ◌≤◌, Bool, true, false, ◌==◌, if◌then◌else◌, length, drop, length-drop,
  ◌≡◌, refl, ◌⊎◌, inl, inr, arith, Bool-cases,
}
use lua_reading.Proto.{Bytes}
use lua_reading.Pattern.Classes.{Ctype, peek}
use lua_reading.Pattern.Captures.{Captures}
use lua_reading.Pattern.Match.{
  failed, Round, or_else, matches_byte, src_end, max_expand, min_expand, match_suffix,
}
use lua_reading.Pattern.Meaning.{Relation, Allows, after_item, AllMatch}
use lua_reading.Pattern.Expand.{
  Decides, Decides-iff, or_else-Decides, AnyTimes, max_expand-Decides, min_loop-Decides,
}

module _ (ctype : Ctype) (src : Bytes) (match : Round) (R : Relation) (p ep : Bytes)
    (decides : (q : Bytes)
      → length q ≤ length ep
      → (cs : Captures) (s : ℕ) → Decides (R cs s q) cs (match cs s q)) where
  -- Some number of repetitions that the suffix `c` allows, with `q` behind them.
  abbrev Repeated : (ℕ → Type 0) → Bytes → Captures → ℕ → ℕ → Captures → Type 0
  Repeated allowed q cs s e c =
      (i : ℕ) × allowed i × AllMatch ctype src i s p ep × R cs (s + i) q e c

  abbrev m : ℕ → Bool
  m s = matches_byte ctype src s p ep

  shorter : length (drop 1 ep) ≤ length ep
  shorter = omega (arith, length-drop {0} 1 ep)

  none_here :
      (allowed : ℕ → Type 0) (q : Bytes) (cs : Captures) (s e : ℕ) (c : Captures)
      → allowed 0
      → R cs s q e c
      → Repeated allowed q cs s e c
  none_here allowed q cs s e c h r = let z : s + 0 ≡ s = omega arith in (0, h, tt, rw z r)

  one_here :
      (allowed : ℕ → Type 0) (q : Bytes) (cs : Captures) (s e : ℕ) (c : Captures)
      → allowed 1
      → m s ≡ true
      → R cs (s + 1) q e c
      → Repeated allowed q cs s e c
  one_here allowed q cs s e c h t r = (1, h, (t, tt), r)

  at_most_one :
      (q : Bytes) (cs : Captures) (s e : ℕ) (c : Captures)
      → Repeated (λ i. i ≤ 1) q cs s e c
      → R cs s q e c ⊎ ((m s ≡ true) × R cs (s + 1) q e c)
  at_most_one q cs s e c (zero, h, hits, r) = let z : s + 0 ≡ s = omega arith in inl (rw z at r)
  at_most_one q cs s e c (suc zero, h, (t, _), r) = inr (t, r)
  at_most_one q cs s e c (suc (suc i), h, hits, r) = absurd (omega arith)

  option-Decides :
      (cs : Captures) (s : ℕ)
      → Decides (Repeated (λ i. i ≤ 1) (drop 1 ep) cs s) cs (
          if m s
          then or_else (match cs (s + 1) (drop 1 ep)) (λ cs'. match cs' s (drop 1 ep))
          else match cs s (drop 1 ep))
  option-Decides cs s =
      let q = drop 1 ep in
      let P = Repeated (λ i. i ≤ 1) q cs s in
      elim (Bool-cases (m s)) [
        | inr f ↦ rw f (
            Decides-iff (R cs s q) P cs (match cs s q)
              (λ e c r. none_here (λ i. i ≤ 1) q cs s e c (omega arith) r)
              (λ e c r. elim (at_most_one q cs s e c r) [ inl r' ↦ r' | inr (t, _) ↦ cc ])
              (decides q shorter cs s))
        | inl t ↦ rw t (
            or_else-Decides (R cs (s + 1) q) (R cs s q) P cs (match cs (s + 1) q)
              (λ cs'. match cs' s q) (λ e c r. one_here (λ i. i ≤ 1) q cs s e c (omega arith) t r)
              (λ e c r. none_here (λ i. i ≤ 1) q cs s e c (omega arith) r)
              (λ e c r. elim (at_most_one q cs s e c r) [ inl r' ↦ inr r' | inr (_, r') ↦ inl r' ])
              (decides q shorter cs (s + 1)) (decides q shorter cs s))
      ]

  any-Decides :
      (cs : Captures) (s : ℕ)
      → Decides
          (Repeated (λ i. Unit {0}) (drop 1 ep) cs s)
          cs
          (max_expand ctype src match cs s p ep)
  unfolding max_expand
  any-Decides cs s =
      let q = drop 1 ep in
      Decides-iff (AnyTimes ctype src p ep match R q (decides q shorter) cs s)
        (Repeated (λ i. Unit {0}) q cs s) cs (max_expand ctype src match cs s p ep)
        (λ e c (i, hits, r). (i, tt, hits, r)) (λ e c (i, _, hits, r). (i, hits, r))
        (max_expand-Decides ctype src p ep match R q (decides q shorter) cs s)

  few-Decides :
      (cs : Captures) (s : ℕ)
      → Decides
          (Repeated (λ i. Unit {0}) (drop 1 ep) cs s)
          cs
          (min_expand ctype src match cs s p ep)
  unfolding min_expand
  few-Decides cs s =
      Decides-iff (λ e c. (i : ℕ) × AllMatch ctype src i s p ep × R cs (s + i) (drop 1 ep) e c)
        (Repeated (λ i. Unit {0}) (drop 1 ep) cs s) cs (min_expand ctype src match cs s p ep)
        (λ e c (i, hits, r). (i, tt, hits, r)) (λ e c (i, _, hits, r). (i, hits, r))
        (min_loop-Decides ctype src p ep match R (decides (drop 1 ep) shorter)
          (src_end ctype src - s) cs s (omega arith))

  needs_one :
      (q : Bytes) (cs : Captures) (s e : ℕ) (c : Captures)
      → m s ≡ false
      → ¬ Repeated (λ i. 1 ≤ i) q cs s e c
  needs_one q cs s e c f (zero, h, hits, r) = omega arith
  needs_one q cs s e c f (suc i, h, (t, _), r) = cc

  without_one :
      (q : Bytes) (cs : Captures) (s e : ℕ) (c : Captures)
      → Repeated (λ i. 1 ≤ i) q cs s e c
      → Repeated (λ i. Unit {0}) q cs (s + 1) e c
  without_one q cs s e c (zero, h, hits, r) = absurd (omega arith)
  without_one q cs s e c (suc i, h, (t, hits), r) =
      let z : s + suc i ≡ s + 1 + i = omega arith in (i, tt, hits, rw z at r)

  not_once :
      (cs : Captures) (s e : ℕ) (c : Captures) → m s ≡ false → ¬ Repeated (λ i. i ≡ 1) ep cs s e c
  not_once cs s e c f (zero, h, hits, r) = absurd (omega (arith, h))
  not_once cs s e c f (suc i, h, (t, _), r) = cc

  some-Decides :
      (cs : Captures) (s : ℕ)
      → Decides
          (Repeated (λ i. 1 ≤ i) (drop 1 ep) cs s)
          cs
          (if m s then max_expand ctype src match cs (s + 1) p ep else failed cs)
  some-Decides cs s =
      let q = drop 1 ep in
      elim (Bool-cases (m s)) [
        | inr f ↦ rw f (refl, λ e c r. needs_one q cs s e c f r)
        | inl t ↦ rw t (
            Decides-iff (Repeated (λ i. Unit {0}) q cs (s + 1)) (Repeated (λ i. 1 ≤ i) q cs s) cs
              (max_expand ctype src match cs (s + 1) p ep)
              (λ e c (i, _, hits, r).
                let z : s + suc i ≡ s + 1 + i = omega arith in
                (suc i, omega arith, (t, hits), rw z r))
              (λ e c r. without_one q cs s e c r) (any-Decides cs (s + 1)))
      ]

  once-Decides :
      (cs : Captures) (s : ℕ)
      → Decides (Repeated (λ i. i ≡ 1) ep cs s) cs (if m s then match cs (s + 1) ep else failed cs)
  once-Decides cs s = elim (Bool-cases (m s)) [
    | inr f ↦ rw f (refl, λ e c r. not_once cs s e c f r)
    | inl t ↦ rw t (
        Decides-iff (R cs (s + 1) ep) (Repeated (λ i. i ≡ 1) ep cs s) cs (match cs (s + 1) ep)
          (λ e c r. one_here (λ i. i ≡ 1) ep cs s e c refl t r) (λ e c (i, one, _, r). rw one at r)
          (decides ep (omega arith) cs (s + 1)))
  ]

  -- The switch on the suffix.
  pub match_suffix-Decides :
      (cs : Captures) (s : ℕ)
      → Decides
          (Repeated (Allows (peek ep)) (after_item ep) cs s)
          cs
          (match_suffix ctype src match cs s p ep)
  unfolding match_suffix
  match_suffix-Decides cs s = elim (Bool-cases (peek ep == b'?')) [
    | inl e ↦ rw e (option-Decides cs s)
    | inr no_option ↦ elim (Bool-cases (peek ep == b'*')) [
      | inl e ↦ rw (no_option, e) (any-Decides cs s)
      | inr no_star ↦ elim (Bool-cases (peek ep == b'+')) [
        | inl e ↦ rw (no_option, no_star, e) (some-Decides cs s)
        | inr no_plus ↦ elim (Bool-cases (peek ep == b'-')) [
          | inl e ↦ rw (no_option, no_star, no_plus, e) (few-Decides cs s)
          | inr no_minus ↦ rw (no_option, no_star, no_plus, no_minus) (once-Decides cs s)
        ]
      ]
    ]
  ]
