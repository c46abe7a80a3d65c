-- ===== src/Tests/Patterns.antt =====
-- Patterns at concrete subjects, src/lstrlib.c.
use lua_reading.Prelude.{
  ℕ, ◌+◌, ◌≤◌, ◌≡◌, refl, Bool, ◌&&◌, ◌||◌, [], ◌∷◌, arith, ltb, leb, ◌==◌, if◌then◌else◌,
}
use lua_reading.Proto.{Bytes}
use lua_reading.Chunk.Header.{bytes_eq}
use lua_reading.Pattern.Classes.{
  Ctype, missing_bracket, set_end, classend, match_class, is_member, matchbracketclass, singlematch,
}
use lua_reading.Pattern.Captures.{Captures, closed, capture_to_close, check_capture}
use lua_reading.Pattern.Match.{
  matched, raised, kind, expand, reduce, max_expand, min_loop, min_expand, matches_byte,
  start_capture, end_capture, match_suffix, match_item, match_kind, match_loop, match,
  match_capture, repeats,
}
use lua_reading.Pattern.Meaning.{Matches}
use lua_reading.Pattern.Expand.{Decides}
use lua_reading.Pattern.Decide.{match-Decides}
use lua_reading.Pattern.Bounds.{AreInside, match_bounds}

abbrev between : ℕ → ℕ → ℕ → Bool
between a b c = leb a c && leb c b

-- The C locale, for ASCII.
abbrev pub c_locale : Ctype
c_locale = record {
  isalpha = λ c. between b'a' b'z' c || between b'A' b'Z' c;
  iscntrl = λ c. ltb c 32 || c == 127;
  isdigit = between b'0' b'9';
  islower = between b'a' b'z';
  ispunct = λ c. between 33 47 c || between 58 64 c || between 91 96 c || between 123 126 c;
  isspace = λ c. c == 32 || between 9 13 c;
  isupper = between b'A' b'Z';
  isalnum = λ c. between b'a' b'z' c || between b'A' b'Z' c || between b'0' b'9' c;
  isxdigit = λ c. between b'0' b'9' c || between b'a' b'f' c || between b'A' b'F' c;
  tolower = λ c. if between b'A' b'Z' c then c + 32 else c;
}

-- `ab12ab`
abbrev pub subject : Bytes
subject = b'a' ∷ b'b' ∷ b'1' ∷ b'2' ∷ b'a' ∷ b'b' ∷ []

-- `(%a+)%d+%1`
abbrev repeated : Bytes
repeated = b'(' ∷ b'%' ∷ b'a' ∷ b'+' ∷ b')' ∷ b'%' ∷ b'd' ∷ b'+' ∷ b'%' ∷ b'1' ∷ []

abbrev letters : Captures
letters = record { init = 0; len = closed 2 } ∷ []

match_of_repeated : match c_locale subject [] 0 repeated ≡ matched 6 letters
unfolding match match_loop kind match_kind match_item match_suffix classend set_end singlematch
    match_class matches_byte max_expand expand reduce min_expand min_loop start_capture end_capture
    capture_to_close match_capture check_capture repeats bytes_eq matchbracketclass is_member
match_of_repeated = refl

-- `[a`, a set without an end
raised_in_set : match c_locale subject [] 0 (b'[' ∷ b'a' ∷ []) ≡ raised missing_bracket
unfolding match match_loop kind match_kind match_item classend set_end
raised_in_set = refl

match-Decides_example :
    Decides (Matches c_locale subject [] 0 repeated) [] (match c_locale subject [] 0 repeated)
match-Decides_example = match-Decides c_locale subject [] 0 repeated

match_bounds_example : (0 ≤ 6) × (6 ≤ 6) × AreInside 6 letters
match_bounds_example =
    match_bounds c_locale subject [] 0 repeated 6 letters match_of_repeated (omega arith) tt
