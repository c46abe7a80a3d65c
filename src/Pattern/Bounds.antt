-- ===== src/Pattern/Bounds.antt =====
-- A match and its captures lie inside of the subject.
use lua_reading.Prelude.{
  ℕ, zero, suc, ◌+◌, ◌-◌, ◌≤◌, ◌<◌, some, [], ◌∷◌, All, length, drop, ◌≡◌, arith,
}
use lua_reading.Proto.{Bytes}
use lua_reading.Pattern.Classes.{Ctype, Checked, ok, raise, peek}
use lua_reading.Pattern.Captures.{
  Length, unfinished, position, closed, Capture, Captures, set_len, up_to, check_capture,
}
use lua_reading.Pattern.Match.{
  Kind, open_position, open_capture, close_capture, balance, frontier, back_reference,
  end_of_pattern, end_anchor, item, kind, balance_loop, matchbalance, repeats, repeats_checked,
  match_capture, matches_byte, src_end, match, matched,
}
use lua_reading.Pattern.Meaning.{Relation, AllMatch, Step, Matches_in}
use lua_reading.Pattern.Decide.{match-Decides}

-- A capture up to `s`.
abbrev pub EndsBy : ℕ → Capture → Type 0
EndsBy s c = elim c.len [
  | unfinished ↦ (c.init ≤ s)
  | position ↦ (c.init ≤ s)
  | closed n ↦ (c.init + n ≤ s)
]

abbrev pub AreInside : ℕ → Captures → Type 0
AreInside s = All (EndsBy s)

EndsBy-le :
    (s t init : ℕ) (len : Length)
    → s ≤ t
    → EndsBy s (record { init = init; len = len })
    → EndsBy t (record { init = init; len = len })
EndsBy-le s t init unfinished le h = omega arith
EndsBy-le s t init position le h = omega arith
EndsBy-le s t init (closed n) le h = omega arith

AreInside-le : (s t : ℕ) (cs : Captures) → s ≤ t → AreInside s cs → AreInside t cs
AreInside-le s t [] le h = tt
AreInside-le s t (c ∷ cs) le h = (EndsBy-le s t c.init c.len le h.0, AreInside-le s t cs le h.1)

EndsBy-init : (s init : ℕ) (len : Length) → EndsBy s (record { init = init; len = len }) → init ≤ s
EndsBy-init s init unfinished h = h
EndsBy-init s init position h = h
EndsBy-init s init (closed n) h = omega arith

set_len-AreInside :
    (d s : ℕ) (cs : Captures) → AreInside s cs → AreInside s (set_len d (up_to s) cs)
set_len-AreInside d s [] h = tt
set_len-AreInside zero s (c ∷ cs) h =
    let below = EndsBy-init s c.init c.len h.0 in (omega (arith, below), h.1)
set_len-AreInside (suc d) s (c ∷ cs) h = (h.0, set_len-AreInside d s cs h.1)

module _ (ctype : Ctype) (src : Bytes) where
  balance_loop_bounds :
      (left b e s cont t : ℕ)
      → balance_loop ctype src left b e s cont ≡ some t
      → (s < t) × (t ≤ s + left)
  unfolding balance_loop
  balance_loop_bounds zero b e s cont t h = cc
  balance_loop_bounds (suc left) b e s cont t h = ground (
    arith,
    h,
    balance_loop_bounds left b e (s + 1) (cont - 1) t,
    balance_loop_bounds left b e (s + 1) (cont + 1) t,
    balance_loop_bounds left b e (s + 1) cont t,
  )

  matchbalance_bounds :
      (s t : ℕ) (p : Bytes)
      → matchbalance ctype src s p ≡ ok (some t)
      → s ≤ src_end ctype src
      → (s ≤ t) × (t ≤ src_end ctype src)
  unfolding matchbalance
  matchbalance_bounds s t p h le = ground (
    arith,
    h,
    balance_loop_bounds (src_end ctype src - s - 1) (peek p) (peek (drop 1 p)) (s + 1) 1 t,
  )

  repeats_bounds :
      (s t : ℕ) (c : Capture)
      → repeats ctype src c s ≡ some t
      → s ≤ src_end ctype src
      → (s ≤ t) × (t ≤ src_end ctype src)
  unfolding repeats
  repeats_bounds s t c h le = ground (arith, h)

  repeats_checked_bounds :
      (s t : ℕ) (c : Checked Capture)
      → repeats_checked ctype src s c ≡ ok (some t)
      → s ≤ src_end ctype src
      → (s ≤ t) × (t ≤ src_end ctype src)
  repeats_checked_bounds s t (raise e) h le = cc
  repeats_checked_bounds s t (ok c) h le =
      let found : repeats ctype src c s ≡ some t = cc in repeats_bounds s t c found le

  match_capture_bounds :
      (s t l : ℕ) (cs : Captures)
      → match_capture ctype src cs s l ≡ ok (some t)
      → s ≤ src_end ctype src
      → (s ≤ t) × (t ≤ src_end ctype src)
  unfolding match_capture
  match_capture_bounds s t l cs h le = repeats_checked_bounds s t (check_capture cs l) h le

  AllMatch-src_end :
      (i s : ℕ) (p ep : Bytes)
      → AllMatch ctype src i s p ep
      → s ≤ src_end ctype src
      → s + i ≤ src_end ctype src
  unfolding matches_byte
  AllMatch-src_end zero s p ep h le = omega arith
  AllMatch-src_end (suc i) s p ep (m, h) le = ground (arith, m, AllMatch-src_end i (s + 1) p ep h)

  -- Where a step from `s` with these captures leads.
  abbrev Leads : Captures → ℕ → ℕ → Captures → Type 0
  Leads cs s e cs' = (s ≤ e) × (e ≤ src_end ctype src) × AreInside e cs'

  module _ (R : Relation)
      (leads : (cs : Captures) (s : ℕ) (p : Bytes) (e : ℕ) (cs' : Captures)
        → R cs s p e cs'
        → s ≤ src_end ctype src
        → AreInside s cs
        → Leads cs s e cs') where
    jump :
        (cs : Captures) (s t : ℕ) (p : Bytes) (e : ℕ) (cs' : Captures)
        → R cs t p e cs'
        → s ≤ t
        → t ≤ src_end ctype src
        → AreInside s cs
        → Leads cs s e cs'
    jump cs s t p e cs' r le fits inside =
        let (up, below, all) = leads cs t p e cs' r fits (AreInside-le s t cs le inside) in
        (omega arith, below, all)

    Step_bounds :
        (k : Kind) (cs : Captures) (s : ℕ) (p : Bytes) (e : ℕ) (cs' : Captures)
        → Step ctype src R k cs s p e cs'
        → s ≤ src_end ctype src
        → AreInside s cs
        → Leads cs s e cs'
    Step_bounds open_position cs s p e cs' (_, r) le h =
        leads _ s (drop 2 p) e cs' r le (omega arith, h)
    Step_bounds open_capture cs s p e cs' (_, r) le h =
        leads _ s (drop 1 p) e cs' r le (omega arith, h)
    Step_bounds close_capture cs s p e cs' (d, _, r) le h =
        leads _ s (drop 1 p) e cs' r le (set_len-AreInside d s cs h)
    Step_bounds balance cs s p e cs' (t, m, r) le h =
        let (up, below) = matchbalance_bounds s t (drop 2 p) m le in
        jump cs s t (drop 4 p) e cs' r up below h
    Step_bounds frontier cs s p e cs' (_, ep, _, _, r) le h = leads cs s ep e cs' r le h
    Step_bounds back_reference cs s p e cs' (t, m, r) le h =
        let (up, below) = match_capture_bounds s t (peek (drop 1 p)) cs m le in
        jump cs s t (drop 2 p) e cs' r up below h
    Step_bounds end_of_pattern cs s p e cs' (at, same) le h = rw (at, same) (omega arith, le, h)
    Step_bounds end_anchor cs s p e cs' (_, at, same) le h = rw (at, same) (omega arith, le, h)
    Step_bounds item cs s p e cs' (ep, _, i, _, hits, r) le h =
        jump cs s (s + i) _ e cs' r (omega arith) (AllMatch-src_end i s p ep hits le) h

  Matches_in_bounds :
      (n : ℕ) (cs : Captures) (s : ℕ) (p : Bytes) (e : ℕ) (cs' : Captures)
      → Matches_in ctype src n cs s p e cs'
      → s ≤ src_end ctype src
      → AreInside s cs
      → Leads cs s e cs'
  unfolding Matches_in
  Matches_in_bounds zero cs s p e cs' m le h = absurd m
  Matches_in_bounds (suc n) cs s p e cs' m le h =
      Step_bounds (Matches_in ctype src n) (Matches_in_bounds n) (kind ctype src p) cs s p e cs' m
        le h

  -- From a position of the subject and captures that end by it, `match` finds an end that is not
  -- before it and not behind the subject, and captures that end by that end.
  pub match_bounds :
      (cs : Captures) (s : ℕ) (p : Bytes) (e : ℕ) (cs' : Captures)
      → match ctype src cs s p ≡ matched e cs'
      → s ≤ src_end ctype src
      → AreInside s cs
      → (s ≤ e) × (e ≤ src_end ctype src) × AreInside e cs'
  match_bounds cs s p e cs' found le h =
      Matches_in_bounds (length p + 1) cs s p e cs' (rw found at (match-Decides ctype src cs s p))
        le h
