-- ===== src/Strings/Search.antt =====
-- src/lstrlib.c: `string.find`, `string.match` and the iterator of `string.gmatch`.
use lua_reading.Prelude.{
  ℕ, zero, suc, ◌+◌, ◌-◌, Bool, true, false, not, ◌&&◌, ◌||◌, Option, none, some, List, [], ◌∷◌,
  ltb, leb, ◌==◌, if◌then◌else◌, length, drop,
}
use lua_reading.Prelude.Int.{ℤ}
use lua_reading.Proto.{Bytes}
use lua_reading.Pattern.Classes.{Ctype, Error, Checked, ok, raise, peek}
use lua_reading.Pattern.Captures.{Captures}
use lua_reading.Pattern.Match.{Outcome, matched, failed, raised, exhausted, match, src_end}
use lua_reading.Strings.Positions.{posrelat}
use lua_reading.Strings.Plain.{lmemfind}
use lua_reading.Strings.Results.{Pushed, nil, number, push_captures}

-- The outcome of a loop over the starts: a start, an end and captures; none; or a thrown error.
-- `ran_out` is only the model's.
pub data Search : Type 0 where
  found : ℕ → ℕ → Captures → Search
  not_found : Search
  threw : Error → Search
  ran_out : Search

-- One call of the iterator: the start for the next call, and the values or an error that it throws;
-- the end; or an error of the match. `unending` is only the model's.
pub data Iteration : Type 0 where
  yields : ℕ → Checked (List Pushed) → Iteration
  over : Iteration
  broken : Error → Iteration
  unending : Iteration

abbrev pub try_start : ℕ → Outcome → Search → Search
try_start s (matched e cs) rest = found s e cs
try_start s (failed cs) rest = rest
try_start s (raised e) rest = threw e
try_start s exhausted rest = ran_out

-- `*p == '^'`, and the pattern behind it
abbrev pub is_anchored : Bytes → Bool
is_anchored p = peek p == b'^'

abbrev pub skip_anchor : Bytes → Bytes
skip_anchor p = if is_anchored p then drop 1 p else p

-- SPECIALS
abbrev pub specials : Bytes
specials = b'^' ∷ b'$' ∷ b'*' ∷ b'+' ∷ b'?' ∷ b'.' ∷ b'(' ∷ b'[' ∷ b'%' ∷ b'-' ∷ []

abbrev pub contains : Bytes → ℕ → Bool
contains [] c = false
contains (x ∷ s) c = x == c || contains s c

-- `strpbrk(p, SPECIALS) != NULL`, which ends at a byte 0.
abbrev pub has_specials : Bytes → Bool
has_specials [] = false
has_specials (c ∷ p) = if c == 0 then false else (contains specials c || has_specials p)

abbrev pub plain_result : ℕ → ℕ → Option ℕ → List Pushed
plain_result init l2 none = nil ∷ []
plain_result init l2 (some i) = number (init + i + 1) ∷ number (init + i + l2) ∷ []

abbrev pub put_before : ℕ → ℕ → Checked (List Pushed) → Checked (List Pushed)
put_before s e (raise x) = raise x
put_before s e (ok vs) = ok (number (s + 1) ∷ number e ∷ vs)

module _ (ctype : Ctype) (src : Bytes) where
  -- The do-while loop of `str_find_aux`, with `left` bytes behind `s1`.
  unfoldable pub search_loop : ℕ → Bool → ℕ → Bytes → Search
  search_loop zero anchor s1 p = try_start s1 (match ctype src [] s1 p) not_found
  search_loop (suc left) anchor s1 p =
      let next = search_loop left anchor (s1 + 1) p in
      try_start s1 (match ctype src [] s1 p) (if anchor then not_found else next)

  abbrev pub search_from : Bool → ℕ → Bytes → Search
  search_from anchor s1 p = search_loop (src_end ctype src - s1) anchor s1 p

  abbrev pub find_result : Bool → Search → Option (Checked (List Pushed))
  find_result find (found s e cs) = some (
      if find
      then put_before s e (push_captures src false cs s e)
      else push_captures src true cs s e)
  find_result find not_found = some (ok (nil ∷ []))
  find_result find (threw e) = some (raise e)
  find_result find ran_out = none

  -- `str_find_aux`; `none` is only the model's. `plain` is the fourth argument.
  unfoldable pub str_find_aux : Bool → Bytes → ℤ → Bool → Option (Checked (List Pushed))
  str_find_aux find p start plain =
      let asked = posrelat start (length src) - 1 in
      let init = if ltb (length src) asked then length src else asked in
      if find && (plain || not (has_specials p))
      then some (ok (plain_result init (length p) (lmemfind (drop init src) p)))
      else find_result find (search_from (is_anchored p) init (skip_anchor p))

  abbrev pub gmatch_result : Search → Iteration
  gmatch_result (found s e cs) =
      yields (if e == s then e + 1 else e) (push_captures src true cs s e)
  gmatch_result not_found = over
  gmatch_result (threw e) = broken e
  gmatch_result ran_out = unending

  -- `gmatch_aux`
  unfoldable pub gmatch_aux : ℕ → Bytes → Iteration
  gmatch_aux start p =
      if leb start (src_end ctype src) then gmatch_result (search_from false start p) else over
