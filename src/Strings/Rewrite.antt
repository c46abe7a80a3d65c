-- ===== src/Strings/Rewrite.antt =====
-- What `gsub` replaces, and what it keeps.
use lua_reading.Prelude.{
  ℕ, zero, suc, ◌+◌, ◌-◌, ◌≤◌, ◌<◌, ◌≡◌, refl, sym, ap, ◌∙◌, true, List, [], ◌∷◌, ◌++◌, arith,
  length, get_or, drop,
}
use lua_reading.Prelude.Int.{ℤ, pos_part}
use lua_reading.Proto.{Bytes}
use lua_reading.Pattern.Classes.{Ctype, Checked, ok, raise}
use lua_reading.Pattern.Captures.{Captures}
use lua_reading.Pattern.Match.{src_end, char_at}
use lua_reading.Pattern.Meaning.{Matches}
use lua_reading.Strings.Positions.{take-++-drop}
use lua_reading.Strings.Results.{Pushed, slice, push_captures}
use lua_reading.Strings.Search.{is_anchored, skip_anchor}
use lua_reading.Strings.Substitute.{
  Replacement, by_call, nothing, added, Substituted, done, stopped, ran_out, before, add_value,
  call_with, str_gsub,
}
use lua_reading.Strings.Pieces.{gsub_loop-Good}

drop-next : (s : Bytes) (i : ℕ) → i < length s → get_or s i 0 ∷ drop (i + 1) s ≡ drop i s
drop-next [] i h = absurd (omega arith)
drop-next (c ∷ s) zero h = refl
drop-next (c ∷ s) (suc i) h =
    let e : suc i + 1 ≡ suc (i + 1) = omega arith in rw e (drop-next s i (omega arith))

drop-empty : (n : ℕ) → drop {A = ℕ} n [] ≡ []
drop-empty zero = refl
drop-empty (suc n) = refl

drop-drop : (m n : ℕ) (s : Bytes) → drop n (drop m s) ≡ drop (m + n) s
drop-drop zero n s = ap (λ k. drop k s) (omega arith)
drop-drop (suc m) n [] = let e : suc m + n ≡ suc (m + n) = omega arith in rw e (drop-empty n)
drop-drop (suc m) n (c ∷ s) =
    let e : suc m + n ≡ suc (m + n) = omega arith in rw e (drop-drop m n s)

slice-drop : (src : Bytes) (s e : ℕ) → s ≤ e → slice src s e ++ drop e src ≡ drop s src
slice-drop src s e up =
    let whole : s + (e - s) ≡ e = omega arith in
    let behind : drop e src ≡ drop (e - s) (drop s src) =
      sym (drop-drop s (e - s) src ∙ ap (λ k. drop k src) whole) in
    rw behind (take-++-drop (e - s) (drop s src))

kept :
    (ctype : Ctype) (number_text : ℕ → Bytes) (src : Bytes) (s e : ℕ) (v : Bytes)
    (vs : Checked (List Pushed))
    → call_with ctype number_text src (λ w. nothing) s e vs ≡ added v
    → v ≡ slice src s e
kept ctype number_text src s e v (raise x) h = cc
kept ctype number_text src s e v (ok vs) h = cc

module _ (ctype : Ctype) (number_text : ℕ → Bytes) (src : Bytes) (r : Replacement) where
  -- From position `s` with `n` substitutions made, the rest of the subject becomes `b` with `m`
  -- substitutions in all: bytes stay, or a match from where it begins to where it ends is replaced.
  pub data Rewrites (p : Bytes) : ℕ → ℕ → Bytes → ℕ → Type 0 where
    stays : (s n : ℕ) → Rewrites p s n (drop s src) n
    passes :
        (s n : ℕ) (b : Bytes) (m : ℕ)
        → s < src_end ctype src
        → Rewrites p (s + 1) n b m
        → Rewrites p s n (char_at ctype src s ∷ b) m
    replaces :
        (s n e : ℕ) (cs : Captures) (v b : Bytes) (m : ℕ)
        → Matches ctype src [] s p e cs
        → add_value ctype number_text src r cs s e ≡ added v
        → Rewrites p e (n + 1) b m
        → Rewrites p s n (v ++ b) m

  abbrev pub Implements : ℤ → Bytes → ℕ → ℕ → Substituted → Type 0
  Implements max_s p s n (done b m) = Rewrites p s n b m × (m ≤ pos_part max_s)
  Implements max_s p s n (stopped x) = Unit {0}
  Implements max_s p s n ran_out = ⊥

  -- A replacement that, if it gives text for a match, puts the match back.
  abbrev pub PutsBack : Type 0
  PutsBack =
      (cs : Captures) (s e : ℕ) (v : Bytes)
      → add_value ctype number_text src r cs s e ≡ added v
      → v ≡ slice src s e

  -- The rest of the subject, if there is a result.
  abbrev pub IsUnchanged : ℕ → Substituted → Type 0
  IsUnchanged s (done b m) = b ≡ drop s src
  IsUnchanged s (stopped x) = Unit {0}
  IsUnchanged s ran_out = ⊥

  passes-IsUnchanged :
      (s : ℕ) (rest : Substituted)
      → s < src_end ctype src
      → IsUnchanged (s + 1) rest
      → IsUnchanged s (before (char_at ctype src s ∷ []) rest)
  passes-IsUnchanged s (done b m) more h = rw h (drop-next src s more)
  passes-IsUnchanged s (stopped x) more h = tt
  passes-IsUnchanged s ran_out more h = h

  replaces-IsUnchanged :
      (s e : ℕ) (v : Bytes) (rest : Substituted)
      → s ≤ e
      → v ≡ slice src s e
      → IsUnchanged e rest
      → IsUnchanged s (before v rest)
  replaces-IsUnchanged s e v (done b m) up same h = rw (same, h) (slice-drop src s e up)
  replaces-IsUnchanged s e v (stopped x) up same h = tt
  replaces-IsUnchanged s e v ran_out up same h = h

  -- If the replacement puts every match back, the text that `gsub` returns, if it throws no error,
  -- is the subject.
  pub str_gsub-IsUnchanged :
      (p : Bytes) (max_s : ℤ) → PutsBack → IsUnchanged 0 (str_gsub ctype number_text src p r max_s)
  unfolding str_gsub
  str_gsub-IsUnchanged p max_s back =
      gsub_loop-Good ctype number_text src r max_s (skip_anchor p) (λ s n o. IsUnchanged s o)
        (λ s n fits few. refl) (λ s n x. tt) (λ s n rest more h. passes-IsUnchanged s rest more h)
        (λ s n e cs v rest up fits few hit same h.
          replaces-IsUnchanged s e v rest up (back cs s e v same) h)
        (src_end ctype src + 1) (is_anchored p) 0 0 (omega arith) (omega arith) (omega arith)

-- A function that returns nil for every match puts it back.
pub nothing-PutsBack :
    (ctype : Ctype) (number_text : ℕ → Bytes) (src : Bytes)
    → PutsBack ctype number_text src (by_call (λ vs. nothing))
unfolding add_value
nothing-PutsBack ctype number_text src cs s e v h =
    kept ctype number_text src s e v (push_captures src true cs s e) h
