-- ===== src/Pattern/Expand.antt =====
-- The loops that repeat an item try every number of repetitions that is possible.
use lua_reading.Prelude.{
  ℕ, zero, suc, ◌+◌, ◌-◌, ◌≤◌, true, if◌then◌else◌, ◌≡◌, refl, sym, ◌⊎◌, inl, inr, arith,
  Bool-cases, ◌==◌, ==_iff, drop,
}
use mathlib.Core.Path.{subst}
use lua_reading.Proto.{Bytes}
use lua_reading.Pattern.Classes.{Ctype}
use lua_reading.Pattern.Captures.{Captures}
use lua_reading.Pattern.Match.{
  Outcome, matched, failed, raised, exhausted, Round, or_else, matches_byte, expand, reduce,
  min_loop, src_end,
}
use lua_reading.Pattern.Meaning.{AllMatch}

-- The outcome is right about the ends and captures `P`: a match is one, and on a failure there is
-- none, and the captures are as they were.
abbrev pub Decides : (ℕ → Captures → Type 0) → Captures → Outcome → Type 0
Decides P cs (matched e cs') = P e cs'
Decides P cs (failed cs') = (cs' ≡ cs) × ((e : ℕ) (c : Captures) → ¬ P e c)
Decides P cs (raised e) = Unit {0}
Decides P cs exhausted = ⊥

pub Decides-iff :
    (P Q : ℕ → Captures → Type 0) (cs : Captures) (o : Outcome)
    → ((e : ℕ) (c : Captures) → P e c → Q e c)
    → ((e : ℕ) (c : Captures) → Q e c → P e c)
    → Decides P cs o
    → Decides Q cs o
Decides-iff P Q cs (matched e c) f g h = f e c h
Decides-iff P Q cs (failed c) f g (same, no_match) = (same, λ e c q. no_match e c (g e c q))
Decides-iff P Q cs (raised x) f g h = tt
Decides-iff P Q cs exhausted f g h = h

-- `T` has the matches of the first try and those of the second.
pub or_else-Decides :
    (P Q T : ℕ → Captures → Type 0) (cs : Captures) (o : Outcome) (k : Captures → Outcome)
    → ((e : ℕ) (c : Captures) → P e c → T e c)
    → ((e : ℕ) (c : Captures) → Q e c → T e c)
    → ((e : ℕ) (c : Captures) → T e c → P e c ⊎ Q e c)
    → Decides P cs o
    → Decides Q cs (k cs)
    → Decides T cs (or_else o k)
or_else-Decides P Q T cs (matched e c) k f g h p q = f e c p
or_else-Decides P Q T cs (raised x) k f g h p q = tt
or_else-Decides P Q T cs exhausted k f g h p q = p
or_else-Decides P Q T cs (failed c) k f g h (same, no_match) q =
    subst (λ c. Decides T cs (k c)) (sym same)
      (Decides-iff Q T cs (k cs) g
        (λ e c t. elim (h e c t) [ inl p ↦ absurd (no_match e c p) | inr q ↦ q ]) q)

module _ (ctype : Ctype) (src : Bytes) (p ep : Bytes) where
  abbrev Hits : ℕ → ℕ → Type 0
  Hits i s = AllMatch ctype src i s p ep

  not_at_end : (s : ℕ) → src_end ctype src ≤ s + 0 → ¬ (matches_byte ctype src s p ep ≡ true)
  unfolding matches_byte
  not_at_end s h m = ground (arith, m, h)

  pub expand-AllMatch : (left s j : ℕ) → j ≤ expand ctype src left s p ep → Hits j s
  unfolding expand
  expand-AllMatch left s zero h = tt
  expand-AllMatch zero s (suc j) h = absurd (omega arith)
  expand-AllMatch (suc left) s (suc j) h = elim (Bool-cases (matches_byte ctype src s p ep)) [
    | inl e ↦ (e, expand-AllMatch left (s + 1) j (ground (arith, e, h)))
    | inr e ↦ absurd (ground (arith, e, h))
  ]

  pub AllMatch-expand :
      (left s j : ℕ) → src_end ctype src ≤ s + left → Hits j s → j ≤ expand ctype src left s p ep
  unfolding expand matches_byte
  AllMatch-expand left s zero h k = omega arith
  AllMatch-expand zero s (suc j) h (k, _) = absurd (ground (arith, k))
  AllMatch-expand (suc left) s (suc j) h (k, ks) =
      ground (arith, k, AllMatch-expand left (s + 1) j (omega arith) ks)

  module _ (match : Round) (R : Captures → ℕ → Bytes → ℕ → Captures → Type 0) (q : Bytes)
      (decides : (cs : Captures) (s : ℕ) → Decides (R cs s q) cs (match cs s q)) where
    -- A number of repetitions up to `i`.
    abbrev pub UpTo : ℕ → Captures → ℕ → ℕ → Captures → Type 0
    UpTo i cs s e c = (j : ℕ) × (j ≤ i) × R cs (s + j) q e c

    pub reduce-Decides :
        (i : ℕ) (cs : Captures) (s : ℕ) → Decides (UpTo i cs s) cs (reduce ctype src match i cs s q)
    unfolding reduce
    reduce-Decides zero cs s =
        let none : s + 0 ≡ s = omega arith in
        Decides-iff (R cs s q) (UpTo 0 cs s) cs (match cs s q)
          (λ e c r. (0, omega arith, rw none r))
          (λ e c (j, le, r). let z : s + j ≡ s = omega arith in rw z at r) (decides cs s)
    reduce-Decides (suc i) cs s =
        or_else-Decides (R cs (s + suc i) q) (UpTo i cs s) (UpTo (suc i) cs s) cs
          (match cs (s + suc i) q) (λ cs'. reduce ctype src match i cs' s q)
          (λ e c r. (suc i, omega arith, r)) (λ e c (j, le, r). (j, omega arith, r))
          (λ e c (j, le, r). elim (Bool-cases (j == suc i)) [
            | inl h ↦ inl (rw ((==_iff j (suc i)).0 h) at r)
            | inr h ↦ inr (j, ground (arith, h, le), r)
          ])
          (decides cs (s + suc i)) (reduce-Decides i cs s)

    -- A number of repetitions of the item.
    abbrev pub AnyTimes : Captures → ℕ → ℕ → Captures → Type 0
    AnyTimes cs s e c = (j : ℕ) × Hits j s × R cs (s + j) q e c

    pub max_expand-Decides :
        (cs : Captures) (s : ℕ)
        → Decides
            (AnyTimes cs s)
            cs
            (reduce ctype src match (expand ctype src (src_end ctype src - s) s p ep) cs s q)
    max_expand-Decides cs s =
        let left = src_end ctype src - s in
        let i = expand ctype src left s p ep in
        Decides-iff (UpTo i cs s) (AnyTimes cs s) cs _
          (λ e c (j, le, r). (j, expand-AllMatch left s j le, r))
          (λ e c (j, hits, r). (j, AllMatch-expand left s j (omega arith) hits, r))
          (reduce-Decides i cs s)

  module _ (match : Round) (R : Captures → ℕ → Bytes → ℕ → Captures → Type 0)
      (decides : (cs : Captures) (s : ℕ)
        → Decides (R cs s (drop 1 ep)) cs (match cs s (drop 1 ep))) where
    -- One repetition, and any number after it.
    abbrev Once : Captures → ℕ → ℕ → Captures → Type 0
    Once cs s e c =
        (matches_byte ctype src s p ep ≡ true)
        × (j : ℕ) × Hits j (s + 1)
        × R cs (s + 1 + j) (drop 1 ep) e c

    abbrev Times : Captures → ℕ → ℕ → Captures → Type 0
    Times cs s e c = (j : ℕ) × Hits j s × R cs (s + j) (drop 1 ep) e c

    none_here : (cs : Captures) (s e : ℕ) (c : Captures) → R cs s (drop 1 ep) e c → Times cs s e c
    none_here cs s e c r = let z : s + 0 ≡ s = omega arith in (0, tt, rw z r)

    single_here : (cs : Captures) (s e : ℕ) (c : Captures) → Once cs s e c → Times cs s e c
    single_here cs s e c (m, j, hits, r) =
        let z : s + suc j ≡ s + 1 + j = omega arith in (suc j, (m, hits), rw z r)

    split_here :
        (cs : Captures) (s e : ℕ) (c : Captures)
        → Times cs s e c
        → R cs s (drop 1 ep) e c ⊎ Once cs s e c
    split_here cs s e c (zero, hits, r) = let z : s + 0 ≡ s = omega arith in inl (rw z at r)
    split_here cs s e c (suc j, (m, hits), r) =
        let z : s + suc j ≡ s + 1 + j = omega arith in inr (m, j, hits, rw z at r)

    pub min_loop-Decides :
        (left : ℕ) (cs : Captures) (s : ℕ)
        → src_end ctype src ≤ s + left
        → Decides (Times cs s) cs (min_loop ctype src match left cs s p ep)
    unfolding min_loop
    min_loop-Decides zero cs s h =
        Decides-iff (R cs s (drop 1 ep)) (Times cs s) cs (match cs s (drop 1 ep)) (none_here cs s)
          (λ e c r. elim (split_here cs s e c r) [
            | inl here ↦ here
            | inr (m, _, _, _) ↦ absurd (not_at_end s h m)
          ])
          (decides cs s)
    min_loop-Decides (suc left) cs s h =
        or_else-Decides (R cs s (drop 1 ep)) (Once cs s) (Times cs s) cs (match cs s (drop 1 ep))
          (λ cs'.
            if matches_byte ctype src s p ep
            then min_loop ctype src match left cs' (s + 1) p ep
            else failed cs')
          (none_here cs s) (single_here cs s) (split_here cs s) (decides cs s)
          (elim (Bool-cases (matches_byte ctype src s p ep)) [
            | inl m ↦ rw m (
                Decides-iff (Times cs (s + 1)) (Once cs s) cs
                  (min_loop ctype src match left cs (s + 1) p ep)
                  (λ e c (j, hits, r). (m, j, hits, r)) (λ e c (_, j, hits, r). (j, hits, r))
                  (min_loop-Decides left cs (s + 1) (omega arith)))
            | inr f ↦ rw f (refl, λ e c (m, _, _, _). cc)
          ])
