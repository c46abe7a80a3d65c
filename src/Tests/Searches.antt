-- ===== src/Tests/Searches.antt =====
-- The string library at concrete arguments, src/lstrlib.c.
use lua_reading.Prelude.{ℕ, ◌+◌, ◌≡◌, refl, true, false, some, [], ◌∷◌, arith}
use lua_reading.Prelude.Int.{pos, negsuc}
use lua_reading.Proto.{Bytes}
use lua_reading.Pattern.Classes.{ok, classend, match_class, singlematch}
use lua_reading.Pattern.Match.{
  kind, expand, reduce, max_expand, matches_byte, match_suffix, match_item, match_kind, match_loop,
  match,
}
use lua_reading.Strings.Positions.{posrelat, str_sub}
use lua_reading.Strings.Plain.{lmemfind, first_occurrence, lmemfind-first_occurrence}
use lua_reading.Strings.Results.{number, text, push_onecapture, push_captures, push_captures_loop}
use lua_reading.Strings.Search.{yields, str_find_aux, search_loop, search_from, gmatch_aux}
use lua_reading.Strings.First.{IsFirst, MovesOn, search_from-IsFirst, gmatch_aux-MovesOn}
use lua_reading.Strings.Substitute.{template, done, add_s, add_value, gsub_loop, str_gsub}
use lua_reading.Tests.Patterns.{c_locale, subject}

abbrev digits : Bytes
digits = b'%' ∷ b'd' ∷ b'+' ∷ []

abbrev bracketed : Bytes
bracketed = b'<' ∷ b'%' ∷ b'0' ∷ b'>' ∷ []

abbrev number_text : ℕ → Bytes
number_text n = (b'0' + n) ∷ []

sub_from_the_end : str_sub subject (negsuc 2) (negsuc 1) ≡ b'2' ∷ b'a' ∷ []
unfolding str_sub posrelat
sub_from_the_end = refl

find_digits :
    str_find_aux c_locale subject true digits (pos 1) false ≡ some (ok (number 3 ∷ number 4 ∷ []))
unfolding str_find_aux search_loop push_captures push_captures_loop posrelat match match_loop kind
    match_kind match_item match_suffix classend singlematch match_class matches_byte max_expand
    expand reduce
find_digits = refl

gmatch_digits : gmatch_aux c_locale subject 0 digits ≡ yields 4 (ok (text (b'1' ∷ b'2' ∷ []) ∷ []))
unfolding gmatch_aux search_loop push_captures push_captures_loop push_onecapture match match_loop
    kind match_kind match_item match_suffix classend singlematch match_class matches_byte max_expand
    expand reduce
gmatch_digits = refl

gsub_digits :
    str_gsub c_locale number_text subject digits (template bracketed) (pos 7)
    ≡ done (b'a' ∷ b'b' ∷ b'<' ∷ b'1' ∷ b'2' ∷ b'>' ∷ b'a' ∷ b'b' ∷ []) 1
unfolding str_gsub gsub_loop add_value add_s match match_loop kind match_kind match_item
    match_suffix classend singlematch match_class matches_byte max_expand expand reduce
gsub_digits = refl

lmemfind-first_occurrence_example :
    lmemfind subject (b'1' ∷ b'2' ∷ []) ≡ first_occurrence subject (b'1' ∷ b'2' ∷ [])
lmemfind-first_occurrence_example = lmemfind-first_occurrence subject (b'1' ∷ b'2' ∷ [])

search_from-IsFirst_example :
    IsFirst c_locale subject 1 6 digits (search_from c_locale subject false 1 digits)
search_from-IsFirst_example = search_from-IsFirst c_locale subject false 1 digits (omega arith)

gmatch_aux-MovesOn_example : MovesOn c_locale subject 4 (gmatch_aux c_locale subject 4 digits)
gmatch_aux-MovesOn_example = gmatch_aux-MovesOn c_locale subject 4 digits
