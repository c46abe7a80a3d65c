-- ===== src/Pattern/Decide.antt =====
-- The matcher decides what a pattern matches: each case of the switch, given the calls for shorter
-- patterns.
use lua_reading.Prelude.{
  ℕ, zero, suc, ◌+◌, ◌≤◌, ◌<◌, true, leb, ◌==◌, Option, none, some, [], ◌∷◌, length, length-drop,
  drop, ◌≡◌, ◌≢◌, refl, inl, inr, arith, ==_iff, Bool-cases,
}
use lua_reading.Proto.{Bytes}
use lua_reading.Pattern.Classes.{Ctype, Checked, ok, raise, peek, classend}
use lua_reading.Pattern.Captures.{
  Length, unfinished, position, Captures, max_captures, capture_to_close, set_len, up_to,
}
use lua_reading.Pattern.Match.{
  Round, Kind, open_position, open_capture, close_capture, balance, frontier, back_reference,
  end_of_pattern, end_anchor, item, kind, at_frontier, src_end, start_capture, end_capture,
  close_with, frontier_with, item_with, go_on, match_frontier, match_suffix, match_item, match_kind,
  match_loop, match,
}
use lua_reading.Pattern.Meaning.{
  Relation, Allows, after_item, AllMatch, Opens, Step, Matches_in, Matches,
}
use lua_reading.Pattern.Suffix.{match_suffix-Decides}
use lua_reading.Pattern.Expand.{Decides, Decides-iff}
use lua_reading.Pattern.Lengths.{classend-length}
use lua_reading.Pattern.Undo.{reopen, undo-Decides}

module _ (ctype : Ctype) (src : Bytes) where
  nonempty : (p : Bytes) → kind ctype src p ≢ end_of_pattern → 0 < length p
  unfolding kind
  nonempty [] h = absurd (h refl)
  nonempty (c ∷ p) h = omega arith

  bracketed : (p : Bytes) → peek p ≡ b'[' → 0 < length p
  bracketed [] e = absurd (omega (arith, e))
  bracketed (c ∷ p) e = omega arith

  module _ (match : Round) (R : Relation) (n : ℕ)
      (decides : (cs : Captures) (s : ℕ) (p : Bytes)
        → length p < n
        → Decides (R cs s p) cs (match cs s p)) where
    start_capture-Decides :
        (what : Length) (cs : Captures) (s : ℕ) (p : Bytes)
        → length p < n
        → Decides (Opens ctype src R what cs s p) cs (start_capture ctype src match cs s p what)
    unfolding start_capture
    start_capture-Decides what cs s p h =
        let cs' = record { init = s; len = what } ∷ cs in
        elim (Bool-cases (leb max_captures (length cs))) [
          | inl full ↦ rw full tt
          | inr more ↦ rw more (
              undo-Decides (R cs' s p) (Opens ctype src R what cs s p) cs' cs (match cs' s p)
                (λ c. drop 1 c) refl (λ e c r. (ground (arith, more), r)) (λ e c (_, r). r)
                (decides cs' s p h))
        ]

    close_with-Decides :
        (cs : Captures) (s : ℕ) (p : Bytes) (m : Checked ℕ)
        → capture_to_close cs ≡ m
        → length p < n
        → Decides
            (λ e c. (d : ℕ) × (m ≡ ok d) × R (set_len d (up_to s) cs) s p e c)
            cs
            (close_with ctype src match cs s p m)
    close_with-Decides cs s p (raise x) e h = tt
    close_with-Decides cs s p (ok d) e h =
        let cs' = set_len d (up_to s) cs in
        undo-Decides (R cs' s p)
          (λ x c. (d' : ℕ) × (ok d ≡ ok d') × R (set_len d' (up_to s) cs) s p x c) cs' cs
          (match cs' s p) (set_len d (λ c. unfinished)) (reopen cs d (up_to s) e)
          (λ x c r. (d, refl, r)) (λ x c (d', e', r). let same : d' ≡ d = cc in rw same at r)
          (decides cs' s p h)

    go_on-Decides :
        (cs : Captures) (m : Checked (Option ℕ)) (p : Bytes)
        → length p < n
        → Decides
            (λ e c. (t : ℕ) × (m ≡ ok (some t)) × R cs t p e c)
            cs
            (go_on ctype src match cs m p)
    go_on-Decides cs (raise x) p h = tt
    go_on-Decides cs (ok none) p h = (refl, λ e c (t, same, r). cc)
    go_on-Decides cs (ok (some t)) p h =
        Decides-iff (R cs t p) (λ e c. (u : ℕ) × (ok (some t) ≡ ok (some u)) × R cs u p e c) cs
          (match cs t p) (λ e c r. (t, refl, r))
          (λ e c (u, same, r). let back : u ≡ t = cc in rw back at r) (decides cs t p h)

    frontier_with-Decides :
        (cs : Captures) (s : ℕ) (p : Bytes) (m : Checked Bytes)
        → ((ep : Bytes) → m ≡ ok ep → length ep < n)
        → Decides
            (λ e c.
              (ep : Bytes) × (m ≡ ok ep) × (at_frontier ctype src s p ep ≡ true) × R cs s ep e c)
            cs
            (frontier_with ctype src match cs s p m)
    frontier_with-Decides cs s p (raise x) h = tt
    frontier_with-Decides cs s p (ok ep) h = elim (Bool-cases (at_frontier ctype src s p ep)) [
      | inl t ↦ rw t (
          Decides-iff (R cs s ep)
            (λ e c.
              (q : Bytes) × (ok ep ≡ ok q) × (at_frontier ctype src s p q ≡ true) × R cs s q e c)
            cs (match cs s ep) (λ e c r. (ep, refl, t, r))
            (λ e c (q, same, _, r). let back : q ≡ ep = cc in rw back at r)
            (decides cs s ep (h ep refl)))
      | inr f ↦ rw f (refl, λ e c (q, same, t, r). cc)
    ]

    match_frontier-Decides :
        (cs : Captures) (s : ℕ) (p : Bytes)
        → length p < n
        → Decides
            (λ e c.
              (peek p ≡ b'[')
              × (ep : Bytes) × (classend p ≡ ok ep)
              × (at_frontier ctype src s p ep ≡ true)
              × R cs s ep e c)
            cs
            (match_frontier ctype src match cs s p)
    unfolding match_frontier
    match_frontier-Decides cs s p h = elim (Bool-cases (peek p == b'[')) [
      | inr f ↦ rw f tt
      | inl t ↦
          let bracket : peek p ≡ b'[' = (==_iff _ _).0 t in
          rw t (
            Decides-iff
              (λ e c.
                (ep : Bytes) × (classend p ≡ ok ep)
                × (at_frontier ctype src s p ep ≡ true)
                × R cs s ep e c)
              (λ e c.
                (peek p ≡ b'[')
                × (ep : Bytes) × (classend p ≡ ok ep)
                × (at_frontier ctype src s p ep ≡ true)
                × R cs s ep e c)
              cs _ (λ e c (ep, same, at, r). (bracket, ep, same, at, r))
              (λ e c (_, ep, same, at, r). (ep, same, at, r))
              (frontier_with-Decides cs s p (classend p)
                (λ ep same. omega (arith, h, classend-length p ep same (bracketed p bracket)))))
    ]

    item_with-Decides :
        (cs : Captures) (s : ℕ) (p : Bytes) (x : Checked Bytes)
        → ((ep : Bytes) → x ≡ ok ep → length ep < length p)
        → length p ≤ n
        → Decides
            (λ e c.
              (ep : Bytes) × (x ≡ ok ep)
              × (i : ℕ) × Allows (peek ep) i
              × AllMatch ctype src i s p ep
              × R cs (s + i) (after_item ep) e c)
            cs
            (item_with ctype src match cs s p x)
    item_with-Decides cs s p (raise x) short h = tt
    item_with-Decides cs s p (ok ep) short h =
        Decides-iff
          (λ e c.
            (i : ℕ) × Allows (peek ep) i
            × AllMatch ctype src i s p ep
            × R cs (s + i) (after_item ep) e c)
          (λ e c.
            (q : Bytes) × (ok ep ≡ ok q)
            × (i : ℕ) × Allows (peek q) i
            × AllMatch ctype src i s p q
            × R cs (s + i) (after_item q) e c)
          cs (match_suffix ctype src match cs s p ep)
          (λ e c (i, al, hits, r). (ep, refl, i, al, hits, r))
          (λ e c (q, same, i, al, hits, r).
            let back : q ≡ ep = cc in (i, rw back at al, rw back at hits, rw back at r))
          (match_suffix-Decides ctype src match R p ep
            (λ q le cs' s'. decides cs' s' q (omega (arith, short ep refl))) cs s)

    match_item-Decides :
        (cs : Captures) (s : ℕ) (p : Bytes)
        → length p ≤ n
        → 0 < length p
        → Decides
            (λ e c.
              (ep : Bytes) × (classend p ≡ ok ep)
              × (i : ℕ) × Allows (peek ep) i
              × AllMatch ctype src i s p ep
              × R cs (s + i) (after_item ep) e c)
            cs
            (match_item ctype src match cs s p)
    unfolding match_item
    match_item-Decides cs s p h positive =
        item_with-Decides cs s p (classend p) (λ ep e. classend-length p ep e positive) h

    pub match_kind-Decides :
        (k : Kind) (cs : Captures) (s : ℕ) (p : Bytes)
        → length p ≤ n
        → (k ≢ end_of_pattern → 0 < length p)
        → Decides (Step ctype src R k cs s p) cs (match_kind ctype src match k cs s p)
    unfolding match_kind
    match_kind-Decides open_position cs s p h more =
        start_capture-Decides position cs s (drop 2 p)
          (omega (arith, length-drop {0} 2 p, more (λ e. cc)))
    match_kind-Decides open_capture cs s p h more =
        start_capture-Decides unfinished cs s (drop 1 p)
          (omega (arith, length-drop {0} 1 p, more (λ e. cc)))
    match_kind-Decides close_capture cs s p h more =
        unfold end_capture in
        close_with-Decides cs s (drop 1 p) (capture_to_close cs) refl
          (omega (arith, length-drop {0} 1 p, more (λ e. cc)))
    match_kind-Decides balance cs s p h more =
        go_on-Decides cs _ (drop 4 p) (omega (arith, length-drop {0} 4 p, more (λ e. cc)))
    match_kind-Decides frontier cs s p h more =
        match_frontier-Decides cs s (drop 2 p) (omega (arith, length-drop {0} 2 p, more (λ e. cc)))
    match_kind-Decides back_reference cs s p h more =
        go_on-Decides cs _ (drop 2 p) (omega (arith, length-drop {0} 2 p, more (λ e. cc)))
    match_kind-Decides end_of_pattern cs s p h more = (refl, refl)
    match_kind-Decides end_anchor cs s p h more = elim (Bool-cases (s == src_end ctype src)) [
      | inl e ↦ rw e ((==_iff s _).0 e, refl, refl)
      | inr f ↦ rw f (refl, λ e c (same, _, _). ground (arith, same, f))
    ]
    match_kind-Decides item cs s p h more = match_item-Decides cs s p h (more (λ e. cc))

  -- What the loop of `match` with `n` rounds decides.
  match_loop-Decides :
      (n : ℕ) (cs : Captures) (s : ℕ) (p : Bytes)
      → length p < n
      → Decides (Matches_in ctype src n cs s p) cs (match_loop ctype src n cs s p)
  unfolding match_loop Matches_in
  match_loop-Decides zero cs s p h = absurd (omega arith)
  match_loop-Decides (suc n) cs s p h =
      match_kind-Decides (match_loop ctype src n) (Matches_in ctype src n) n (match_loop-Decides n)
        (kind ctype src p) cs s p (omega arith) (nonempty p)

  -- `match` ends, with a thrown error, with an end and captures that the meaning of the pattern
  -- allows, or with a failure; then it allows none, and the captures are as they were.
  pub match-Decides :
      (cs : Captures) (s : ℕ) (p : Bytes)
      → Decides (Matches ctype src cs s p) cs (match ctype src cs s p)
  unfolding match
  match-Decides cs s p = match_loop-Decides (length p + 1) cs s p (omega arith)
