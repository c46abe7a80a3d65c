-- ===== src/Strings/Pieces.antt =====
-- An induction over the rounds of `gsub`.
use lua_reading.Prelude.{
  ℕ, zero, suc, ◌+◌, ◌-◌, ◌≤◌, ◌<◌, ◌≡◌, refl, inl, inr, Bool, true, false, [], ◌∷◌, arith, ltb,
  ltb→lt, Bool-cases,
}
use lua_reading.Prelude.Int.{ℤ, pos, negsuc, ltb_ℤ, pos_part}
use lua_reading.Proto.{Bytes}
use lua_reading.Pattern.Classes.{Ctype}
use lua_reading.Pattern.Captures.{Captures}
use lua_reading.Pattern.Match.{Outcome, matched, failed, raised, exhausted, match, src_end, char_at}
use lua_reading.Pattern.Meaning.{Matches}
use lua_reading.Pattern.Decide.{match-Decides}
use lua_reading.Pattern.Bounds.{match_bounds}
use lua_reading.Strings.Substitute.{
  Thrown, pattern_error, Replacement, Added, added, threw, Substituted, stopped, before, add_value,
  finish, next_round, pass_byte, after_value, after_match, gsub_loop,
}

below_limit : (n : ℕ) (max_s : ℤ) → ltb_ℤ (pos n) max_s ≡ true → n < pos_part max_s
below_limit n (pos m) h = ground (arith, h)
below_limit n (negsuc m) h = ground (arith, h)

module _ (ctype : Ctype) (number_text : ℕ → Bytes) (src : Bytes) where
  -- What holds of a result from a position and a count, if it holds where the loop ends and is kept
  -- by the two moves of a round.
  module _ (r : Replacement) (max_s : ℤ) (p : Bytes) (Good : ℕ → ℕ → Substituted → Type 0)
      (ends : (s n : ℕ)
        → s ≤ src_end ctype src
        → n ≤ pos_part max_s
        → Good s n (finish ctype number_text src s n))
      (throws : (s n : ℕ) (x : Thrown) → Good s n (stopped x))
      (passes : (s n : ℕ) (rest : Substituted)
        → s < src_end ctype src
        → Good (s + 1) n rest
        → Good s n (before (char_at ctype src s ∷ []) rest))
      (replaces : (s n e : ℕ) (cs : Captures) (v : Bytes) (rest : Substituted)
        → s ≤ e
        → e ≤ src_end ctype src
        → n < pos_part max_s
        → Matches ctype src [] s p e cs
        → add_value ctype number_text src r cs s e ≡ added v
        → Good e (n + 1) rest
        → Good s n (before v rest)) where
    -- The calls of the loop from further on.
    abbrev Onward : ℕ → (ℕ → ℕ → Substituted) → Type 0
    Onward s again =
        (t n : ℕ) → s < t → t ≤ src_end ctype src → n ≤ pos_part max_s → Good t n (again t n)

    next_round-Good :
        (anchor : Bool) (again : ℕ → ℕ → Substituted) (s t n : ℕ)
        → Onward s again
        → s < t
        → t ≤ src_end ctype src
        → n ≤ pos_part max_s
        → Good t n (next_round ctype number_text src anchor again t n)
    next_round-Good true again s t n on up fits few = ends t n fits few
    next_round-Good false again s t n on up fits few = on t n up fits few

    pass_byte-Good :
        (anchor : Bool) (again : ℕ → ℕ → Substituted) (s n : ℕ)
        → Onward s again
        → s ≤ src_end ctype src
        → n ≤ pos_part max_s
        → Good s n (pass_byte ctype number_text src anchor again s n)
    pass_byte-Good anchor again s n on fits few = elim (Bool-cases (ltb s (src_end ctype src))) [
      | inl h ↦
          let more : s < src_end ctype src = ltb→lt _ _ h in
          rw h (
            passes s n _ more
              (next_round-Good anchor again s (s + 1) n on (omega arith) (omega arith) few))
      | inr h ↦ rw h (ends s n fits few)
    ]

    after_value-Good :
        (anchor : Bool) (again : ℕ → ℕ → Substituted) (s e n : ℕ) (cs : Captures) (a : Added)
        → Matches ctype src [] s p e cs
        → add_value ctype number_text src r cs s e ≡ a
        → Onward s again
        → s ≤ e
        → e ≤ src_end ctype src
        → n < pos_part max_s
        → Good s n (after_value ctype number_text src anchor again s e n a)
    after_value-Good anchor again s e n cs (threw x) hit same on up fits few = throws s n x
    after_value-Good anchor again s e n cs (added v) hit same on up fits few =
        elim (Bool-cases (ltb s e)) [
          | inl h ↦ rw h (
              replaces s n e cs v _ up fits few hit same
                (next_round-Good anchor again s e (n + 1) on (ltb→lt _ _ h) fits (omega arith)))
          | inr h ↦
              let empty : e ≡ s = ground (arith, h, up) in
              rw h (
                replaces s n s cs v _ (omega arith) (omega arith) few (rw empty at hit)
                  (rw empty at same)
                  (pass_byte-Good anchor again s (n + 1) on (omega arith) (omega arith)))
        ]

    after_match-Good :
        (anchor : Bool) (again : ℕ → ℕ → Substituted) (s n : ℕ) (o : Outcome)
        → match ctype src [] s p ≡ o
        → Onward s again
        → s ≤ src_end ctype src
        → n < pos_part max_s
        → Good s n (after_match ctype number_text src r anchor again s n o)
    after_match-Good anchor again s n (matched e cs) same on fits few =
        let (up, below, _) = match_bounds ctype src [] s p e cs same fits tt in
        let hit : Matches ctype src [] s p e cs = (rw same at (match-Decides ctype src [] s p)) in
        after_value-Good anchor again s e n cs _ hit refl on up below few
    after_match-Good anchor again s n (failed cs) same on fits few =
        pass_byte-Good anchor again s n on fits (omega arith)
    after_match-Good anchor again s n (raised x) same on fits few = throws s n (pattern_error x)
    after_match-Good anchor again s n exhausted same on fits few =
        absurd (rw same at (match-Decides ctype src [] s p))

    pub gsub_loop-Good :
        (fuel : ℕ) (anchor : Bool) (s n : ℕ)
        → src_end ctype src - s < fuel
        → s ≤ src_end ctype src
        → n ≤ pos_part max_s
        → Good s n (gsub_loop ctype number_text src fuel r anchor max_s p s n)
    unfolding gsub_loop
    gsub_loop-Good zero anchor s n enough fits few = absurd (omega arith)
    gsub_loop-Good (suc fuel) anchor s n enough fits few = elim (Bool-cases (ltb_ℤ (pos n) max_s)) [
      | inl h ↦ rw h (
          after_match-Good anchor _ s n _ refl
            (λ t m up below few'. gsub_loop-Good fuel anchor t m (omega arith) below few') fits
            (below_limit n max_s h))
      | inr h ↦ rw h (ends s n fits few)
    ]
