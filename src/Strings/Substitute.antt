-- ===== src/Strings/Substitute.antt =====
-- src/lstrlib.c: `string.gsub`.
use lua_reading.Prelude.{
  ℕ, zero, suc, ◌+◌, ◌-◌, Bool, true, not, List, [], ◌∷◌, ◌++◌, ltb, ◌==◌, if◌then◌else◌, drop,
}
use lua_reading.Prelude.Int.{ℤ, pos, ltb_ℤ}
use lua_reading.Proto.{Bytes}
use lua_reading.Pattern.Classes.{Ctype, Error, Checked, ok, raise, esc}
use lua_reading.Pattern.Captures.{Captures}
use lua_reading.Pattern.Match.{Outcome, matched, failed, raised, exhausted, match, src_end, char_at}
use lua_reading.Strings.Results.{Pushed, nil, number, text, slice, push_onecapture, push_captures}
use lua_reading.Strings.Search.{is_anchored, skip_anchor}

-- What a function or a table gives for a match: nil or false, a string or a number as its text, or a
-- value of another type.
pub data Answer : Type 0 where
  nothing : Answer
  piece : Bytes → Answer
  unusable : Answer

-- The third argument of `gsub`: a string (or a number as its text), a function or a table.
pub data Replacement : Type 0 where
  template : Bytes → Replacement
  by_call : (List Pushed → Answer) → Replacement
  by_key : (Pushed → Answer) → Replacement

pub data Thrown : Type 0 where
  pattern_error : Error → Thrown
  invalid_replacement : Thrown

pub data Added : Type 0 where
  added : Bytes → Added
  threw : Thrown → Added

-- The text and the number of substitutions; `ran_out` is only the model's.
pub data Substituted : Type 0 where
  done : Bytes → ℕ → Substituted
  stopped : Thrown → Substituted
  ran_out : Substituted

abbrev pub before : Bytes → Substituted → Substituted
before b (done b' n) = done (b ++ b') n
before b (stopped e) = stopped e
before b ran_out = ran_out

abbrev pub before_added : Bytes → Added → Added
before_added b (added b') = added (b ++ b')
before_added b (threw e) = threw e

-- The C library's text of a number.
module _ (ctype : Ctype) (number_text : ℕ → Bytes) (src : Bytes) where
  -- `luaL_addvalue`
  abbrev pub add_pushed : Checked Pushed → Added → Added
  add_pushed (raise e) rest = threw (pattern_error e)
  add_pushed (ok nil) rest = threw invalid_replacement
  add_pushed (ok (number n)) rest = before_added (number_text n) rest
  add_pushed (ok (text b)) rest = before_added b rest

  -- The byte `d` behind an escape.
  abbrev pub add_escaped : Captures → ℕ → ℕ → ℕ → Added → Added
  add_escaped cs s e d rest =
      if not (Ctype.isdigit ctype d)
      then before_added (d ∷ []) rest
      else if d == b'0'
      then before_added (slice src s e) rest
      else add_pushed (push_onecapture src cs (d - b'1') s e) rest

  -- `add_s`; behind the last byte of `news` stands a '\0'.
  unfoldable pub add_s : Captures → ℕ → ℕ → Bytes → Added
  add_s cs s e [] = added []
  add_s cs s e (c ∷ []) = if not (c == esc) then added (c ∷ []) else add_escaped cs s e 0 (added [])
  add_s cs s e (c ∷ d ∷ news) =
      let plain = before_added (c ∷ []) (add_s cs s e (d ∷ news)) in
      let escaped = add_escaped cs s e d (add_s cs s e news) in
      if not (c == esc) then plain else escaped

  abbrev pub add_answer : ℕ → ℕ → Answer → Added
  add_answer s e nothing = added (slice src s e)
  add_answer s e (piece b) = added b
  add_answer s e unusable = threw invalid_replacement

  abbrev pub call_with : (List Pushed → Answer) → ℕ → ℕ → Checked (List Pushed) → Added
  call_with f s e (raise x) = threw (pattern_error x)
  call_with f s e (ok vs) = add_answer s e (f vs)

  abbrev pub get_with : (Pushed → Answer) → ℕ → ℕ → Checked Pushed → Added
  get_with t s e (raise x) = threw (pattern_error x)
  get_with t s e (ok v) = add_answer s e (t v)

  -- `add_value`
  unfoldable pub add_value : Replacement → Captures → ℕ → ℕ → Added
  add_value (template news) cs s e = add_s cs s e news
  add_value (by_call f) cs s e = call_with f s e (push_captures src true cs s e)
  add_value (by_key t) cs s e = get_with t s e (push_onecapture src cs 0 s e)

  -- What is behind the loop of `str_gsub`.
  abbrev pub finish : ℕ → ℕ → Substituted
  finish s n = done (drop s src) n

  -- `if (anchor) break;`
  abbrev pub next_round : Bool → (ℕ → ℕ → Substituted) → ℕ → ℕ → Substituted
  next_round anchor again s n = if anchor then finish s n else again s n

  -- The end of a round without a match, or with an empty one.
  abbrev pub pass_byte : Bool → (ℕ → ℕ → Substituted) → ℕ → ℕ → Substituted
  pass_byte anchor again s n =
      if ltb s (src_end ctype src)
      then before (char_at ctype src s ∷ []) (next_round anchor again (s + 1) n)
      else finish s n

  abbrev pub after_value : Bool → (ℕ → ℕ → Substituted) → ℕ → ℕ → ℕ → Added → Substituted
  after_value anchor again s e n (threw x) = stopped x
  after_value anchor again s e n (added v) =
      before v
        (if ltb s e then next_round anchor again e (n + 1) else pass_byte anchor again s (n + 1))

  abbrev pub after_match :
      Replacement → Bool → (ℕ → ℕ → Substituted) → ℕ → ℕ → Outcome → Substituted
  after_match r anchor again s n (matched e cs) =
      after_value anchor again s e n (add_value r cs s e)
  after_match r anchor again s n (failed cs) = pass_byte anchor again s n
  after_match r anchor again s n (raised x) = stopped (pattern_error x)
  after_match r anchor again s n exhausted = ran_out

  -- The loop of `str_gsub`, from position `s` with `n` substitutions made.
  unfoldable pub gsub_loop : ℕ → Replacement → Bool → ℤ → Bytes → ℕ → ℕ → Substituted
  gsub_loop zero r anchor max_s p s n = ran_out
  gsub_loop (suc fuel) r anchor max_s p s n =
      let round =
        after_match r anchor (gsub_loop fuel r anchor max_s p) s n (match ctype src [] s p) in
      if ltb_ℤ (pos n) max_s then round else finish s n

  -- `str_gsub`; each round moves on by a byte, or is the last.
  unfoldable pub str_gsub : Bytes → Replacement → ℤ → Substituted
  str_gsub p r max_s = gsub_loop (src_end ctype src + 1) r (is_anchored p) max_s (skip_anchor p) 0 0
