-- ===== src/Pattern/Meaning.antt =====
-- What it means for a pattern to match at a position, with no order of search in it.
use lua_reading.Prelude.{
  ℕ, zero, suc, ◌+◌, ◌≤◌, ◌<◌, Bool, true, ◌||◌, ◌==◌, if◌then◌else◌, ◌∷◌, some, length, drop, ◌≡◌,
}
use lua_reading.Proto.{Bytes}
use lua_reading.Pattern.Classes.{Ctype, ok, peek, classend}
use lua_reading.Pattern.Captures.{
  Length, unfinished, position, Captures, max_captures, capture_to_close, set_len, up_to,
}
use lua_reading.Pattern.Match.{
  Kind, open_position, open_capture, close_capture, balance, frontier, back_reference,
  end_of_pattern, end_anchor, item, kind, matchbalance, match_capture, matches_byte, at_frontier,
  src_end,
}

-- From these captures, this position and this pattern to an end and the captures there.
abbrev pub Relation : Type 1
Relation = Captures → ℕ → Bytes → ℕ → Captures → Type 0

abbrev pub is_suffix : ℕ → Bool
is_suffix c = c == b'?' || c == b'*' || c == b'+' || c == b'-'

-- How often an item may be repeated, by the byte behind it.
abbrev pub Allows : ℕ → ℕ → Type 0
Allows c =
    if c == b'?'
    then (λ i. i ≤ 1)
    else if c == b'*'
    then (λ i. Unit {0})
    else if c == b'+'
    then (λ i. 1 ≤ i)
    else if c == b'-'
    then (λ i. Unit {0})
    else (λ i. i ≡ 1)

abbrev pub after_item : Bytes → Bytes
after_item ep = if is_suffix (peek ep) then drop 1 ep else ep

module _ (ctype : Ctype) (src : Bytes) where
  -- The item at `p`, which ends at `ep`, matches `i` bytes from `s` on.
  abbrev pub AllMatch : ℕ → ℕ → Bytes → Bytes → Type 0
  AllMatch zero s p ep = Unit {0}
  AllMatch (suc i) s p ep = (matches_byte ctype src s p ep ≡ true) × AllMatch i (s + 1) p ep

  -- A new capture at `s`.
  abbrev pub Opens : Relation → Length → Relation
  Opens R what cs s p e cs' =
      (length cs < max_captures) × R (record { init = s; len = what } ∷ cs) s p e cs'

  -- The first step of a match, the rest being given by `R`.
  abbrev pub Step : Relation → Kind → Relation
  Step R open_position cs s p e cs' = Opens R position cs s (drop 2 p) e cs'
  Step R open_capture cs s p e cs' = Opens R unfinished cs s (drop 1 p) e cs'
  Step R close_capture cs s p e cs' =
      (d : ℕ) × (capture_to_close cs ≡ ok d) × R (set_len d (up_to s) cs) s (drop 1 p) e cs'
  Step R balance cs s p e cs' =
      (t : ℕ) × (matchbalance ctype src s (drop 2 p) ≡ ok (some t)) × R cs t (drop 4 p) e cs'
  Step R frontier cs s p e cs' =
      (peek (drop 2 p) ≡ b'[')
      × (ep : Bytes) × (classend (drop 2 p) ≡ ok ep)
      × (at_frontier ctype src s (drop 2 p) ep ≡ true)
      × R cs s ep e cs'
  Step R back_reference cs s p e cs' =
      (t : ℕ) × (match_capture ctype src cs s (peek (drop 1 p)) ≡ ok (some t))
      × R cs t (drop 2 p) e cs'
  Step R end_of_pattern cs s p e cs' = (e ≡ s) × (cs' ≡ cs)
  Step R end_anchor cs s p e cs' = (s ≡ src_end ctype src) × (e ≡ s) × (cs' ≡ cs)
  Step R item cs s p e cs' =
      (ep : Bytes) × (classend p ≡ ok ep)
      × (i : ℕ) × Allows (peek ep) i
      × AllMatch i s p ep
      × R cs (s + i) (after_item ep) e cs'

  -- `n` bounds the steps; each makes the pattern shorter.
  unfoldable pub Matches_in : ℕ → Relation
  Matches_in zero cs s p e cs' = ⊥
  Matches_in (suc n) cs s p e cs' = Step (Matches_in n) (kind ctype src p) cs s p e cs'

  abbrev pub Matches : Relation
  Matches cs s p e cs' = Matches_in (length p + 1) cs s p e cs'
