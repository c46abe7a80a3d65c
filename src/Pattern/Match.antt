-- ===== src/Pattern/Match.antt =====
-- src/lstrlib.c: `match`. Every call of it, and every `goto init`, has a shorter pattern.
use lua_reading.Prelude.{
  ℕ, zero, suc, ◌+◌, ◌-◌, Bool, not, ◌&&◌, ◌||◌, ltb, leb, ◌==◌, if◌then◌else◌, ◌∷◌, Option, none,
  some, length, get_or, take, drop,
}
use lua_reading.Proto.{Bytes}
use lua_reading.Chunk.Header.{bytes_eq}
use lua_reading.Pattern.Classes.{
  Ctype, Error, Checked, ok, raise, missing_frontier_set, unbalanced, too_many_captures, esc, peek,
  classend, matchbracketclass, singlematch,
}
use lua_reading.Pattern.Captures.{
  Length, unfinished, position, closed, Capture, Captures, max_captures, check_capture,
  capture_to_close, set_len, up_to,
}

-- A match to `e`, or no match, each with the captures that are left; or a thrown error. `exhausted`
-- is only the model's.
pub data Outcome : Type 0 where
  matched : ℕ → Captures → Outcome
  failed : Captures → Outcome
  raised : Error → Outcome
  exhausted : Outcome

-- The cases of the switch of `match`.
pub data Kind : Type 0 where
  open_position open_capture close_capture balance frontier back_reference end_of_pattern end_anchor
        item :
      Kind

abbrev pub Round : Type 0
Round = Captures → ℕ → Bytes → Outcome

-- An outcome passed on if it is no failure.
abbrev pub or_else : Outcome → (Captures → Outcome) → Outcome
or_else (failed cs) k = k cs
or_else (matched e cs) k = matched e cs
or_else (raised e) k = raised e
or_else exhausted k = exhausted

module _ (ctype : Ctype) (src : Bytes) where
  -- `*s`
  abbrev pub char_at : ℕ → ℕ
  char_at s = get_or src s 0

  abbrev pub src_end : ℕ
  src_end = length src

  unfoldable pub kind : Bytes → Kind
  kind p =
      let next = peek (drop 1 p) in
      if peek p == b'('
      then (if next == b')' then open_position else open_capture)
      else if peek p == b')'
      then close_capture
      else if peek p == esc
      then (if next == b'b'
          then balance
          else if next == b'f'
          then frontier
          else if Ctype.isdigit ctype next
          then back_reference
          else item)
      else if peek p == 0
      then end_of_pattern
      else if peek p == b'$' && next == 0
      then end_anchor
      else item

  -- The loop of `matchbalance`, from the byte that `++s` is at.
  unfoldable pub balance_loop : ℕ → ℕ → ℕ → ℕ → ℕ → Option ℕ
  balance_loop zero b e s cont = none
  balance_loop (suc left) b e s cont =
      let closes = balance_loop left b e (s + 1) (cont - 1) in
      let opens = balance_loop left b e (s + 1) (cont + 1) in
      let other = balance_loop left b e (s + 1) cont in
      if char_at s == e
      then (if cont == 1 then some (s + 1) else closes)
      else if char_at s == b
      then opens
      else other

  -- `matchbalance`; `p` is at the first delimiter.
  unfoldable pub matchbalance : ℕ → Bytes → Checked (Option ℕ)
  matchbalance s p =
      let b = peek p in
      let e = peek (drop 1 p) in
      if b == 0 || e == 0
      then raise unbalanced
      else ok (if char_at s == b then balance_loop (src_end - s - 1) b e (s + 1) 1 else none)

  -- Whether the item at `p`, which ends at `ep`, matches the byte at `s`.
  unfoldable pub matches_byte : ℕ → Bytes → Bytes → Bool
  matches_byte s p ep = ltb s src_end && singlematch ctype (char_at s) p ep

  -- The first loop of `max_expand`: how far the item matches, with `left` bytes before the end.
  unfoldable pub expand : ℕ → ℕ → Bytes → Bytes → ℕ
  expand zero s p ep = 0
  expand (suc left) s p ep =
      let more = suc (expand left (s + 1) p ep) in if matches_byte s p ep then more else 0

  -- The rest of `match_capture`; the length of a position, CAP_POSITION, is above any size.
  unfoldable pub repeats : Capture → ℕ → Option ℕ
  repeats c s = elim c.len [
    | unfinished ↦ none
    | position ↦ none
    | closed n ↦
        if leb n (src_end - s) && bytes_eq (take n (drop c.init src)) (take n (drop s src))
        then some (s + n)
        else none
  ]

  abbrev pub repeats_checked : ℕ → Checked Capture → Checked (Option ℕ)
  repeats_checked s (raise e) = raise e
  repeats_checked s (ok c) = ok (repeats c s)

  unfoldable pub match_capture : Captures → ℕ → ℕ → Checked (Option ℕ)
  match_capture cs s l = repeats_checked s (check_capture cs l)

  -- The test of a frontier, `p` being at the `[`.
  unfoldable pub at_frontier : ℕ → Bytes → Bytes → Bool
  at_frontier s p ep =
      let previous = if s == 0 then 0 else char_at (s - 1) in
      not (matchbracketclass ctype previous p ep) && matchbracketclass ctype (char_at s) p ep

  module _ (match : Round) where
    -- The second loop of `max_expand`, from `i` repetitions down.
    unfoldable pub reduce : ℕ → Captures → ℕ → Bytes → Outcome
    reduce zero cs s p = match cs s p
    reduce (suc i) cs s p = or_else (match cs (s + suc i) p) (λ cs'. reduce i cs' s p)

    unfoldable pub max_expand : Captures → ℕ → Bytes → Bytes → Outcome
    max_expand cs s p ep = reduce (expand (src_end - s) s p ep) cs s (drop 1 ep)

    -- `min_expand`, with `left` bytes before the end.
    unfoldable pub min_loop : ℕ → Captures → ℕ → Bytes → Bytes → Outcome
    min_loop zero cs s p ep = match cs s (drop 1 ep)
    min_loop (suc left) cs s p ep = or_else (match cs s (drop 1 ep)) (λ cs'.
        let more = min_loop left cs' (s + 1) p ep in
        if matches_byte s p ep then more else failed cs')

    unfoldable pub min_expand : Captures → ℕ → Bytes → Bytes → Outcome
    min_expand cs s p ep = min_loop (src_end - s) cs s p ep

    -- On failure `ms->level--` drops the newest capture.
    unfoldable pub start_capture : Captures → ℕ → Bytes → Length → Outcome
    start_capture cs s p what =
        if leb max_captures (length cs)
        then raised too_many_captures
        else or_else (match (record { init = s; len = what } ∷ cs) s p) (λ cs'. failed (drop 1 cs'))

    abbrev pub close_with : Captures → ℕ → Bytes → Checked ℕ → Outcome
    close_with cs s p (raise e) = raised e
    close_with cs s p (ok d) =
        or_else (match (set_len d (up_to s) cs) s p)
          (λ cs'. failed (set_len d (λ c. unfinished) cs'))

    unfoldable pub end_capture : Captures → ℕ → Bytes → Outcome
    end_capture cs s p = close_with cs s p (capture_to_close cs)

    -- `if (s == NULL) return NULL; …; goto init;`
    abbrev pub go_on : Captures → Checked (Option ℕ) → Bytes → Outcome
    go_on cs (raise e) p = raised e
    go_on cs (ok none) p = failed cs
    go_on cs (ok (some s)) p = match cs s p

    abbrev pub frontier_with : Captures → ℕ → Bytes → Checked Bytes → Outcome
    frontier_with cs s p (raise e) = raised e
    frontier_with cs s p (ok ep) =
        let rest = match cs s ep in if at_frontier s p ep then rest else failed cs

    -- The case of a frontier, `p` being at the `[`.
    unfoldable pub match_frontier : Captures → ℕ → Bytes → Outcome
    match_frontier cs s p =
        if peek p == b'[' then frontier_with cs s p (classend p) else raised missing_frontier_set

    -- The switch on what follows an item.
    unfoldable pub match_suffix : Captures → ℕ → Bytes → Bytes → Outcome
    match_suffix cs s p ep =
        let m = matches_byte s p ep in
        let once = match cs (s + 1) ep in
        let option = or_else (match cs (s + 1) (drop 1 ep)) (λ cs'. match cs' s (drop 1 ep)) in
        let without = match cs s (drop 1 ep) in
        if peek ep == b'?'
        then (if m then option else without)
        else if peek ep == b'*'
        then max_expand cs s p ep
        else if peek ep == b'+'
        then (if m then max_expand cs (s + 1) p ep else failed cs)
        else if peek ep == b'-'
        then min_expand cs s p ep
        else if m
        then once
        else failed cs

    abbrev pub item_with : Captures → ℕ → Bytes → Checked Bytes → Outcome
    item_with cs s p (raise e) = raised e
    item_with cs s p (ok ep) = match_suffix cs s p ep

    unfoldable pub match_item : Captures → ℕ → Bytes → Outcome
    match_item cs s p = item_with cs s p (classend p)

    unfoldable pub match_kind : Kind → Round
    match_kind open_position cs s p = start_capture cs s (drop 2 p) position
    match_kind open_capture cs s p = start_capture cs s (drop 1 p) unfinished
    match_kind close_capture cs s p = end_capture cs s (drop 1 p)
    match_kind balance cs s p = go_on cs (matchbalance s (drop 2 p)) (drop 4 p)
    match_kind frontier cs s p = match_frontier cs s (drop 2 p)
    match_kind back_reference cs s p = go_on cs (match_capture cs s (peek (drop 1 p))) (drop 2 p)
    match_kind end_of_pattern cs s p = matched s cs
    match_kind end_anchor cs s p = if s == src_end then matched s cs else failed cs
    match_kind item cs s p = match_item cs s p

  unfoldable pub match_loop : ℕ → Round
  match_loop zero cs s p = exhausted
  match_loop (suc fuel) cs s p = match_kind (match_loop fuel) (kind p) cs s p

  -- `match`
  unfoldable pub match : Round
  match cs s p = match_loop (length p + 1) cs s p
