-- ===== src/Pattern/Classes.antt =====
-- src/lstrlib.c: where an item of a pattern ends, and which bytes it matches.
use lua_reading.Prelude.{
  ℕ, zero, suc, ◌-◌, Bool, true, false, not, ◌&&◌, ltb, leb, ◌==◌, if◌then◌else◌, [], ◌∷◌, length,
  drop,
}
use lua_reading.Proto.{Bytes}

-- The character tests of the C library, which depend on the locale.
pub record Ctype : Type 0 where
  pub isalpha : ℕ → Bool
  pub iscntrl : ℕ → Bool
  pub isdigit : ℕ → Bool
  pub islower : ℕ → Bool
  pub ispunct : ℕ → Bool
  pub isspace : ℕ → Bool
  pub isupper : ℕ → Bool
  pub isalnum : ℕ → Bool
  pub isxdigit : ℕ → Bool
  pub tolower : ℕ → ℕ

pub data Error : Type 0 where
  ends_with_escape missing_bracket missing_frontier_set unbalanced too_many_captures invalid_index
        invalid_capture unfinished_capture :
      Error

pub data Checked (A : Type 0) : Type 0 where
  ok : A → Checked A
  raise : Error → Checked A

abbrev pub esc : ℕ
esc = b'%'

-- `*p`
abbrev pub peek : Bytes → ℕ
peek [] = 0
peek (c ∷ p) = c

-- The test at the foot of the loop of `classend`: at `next`, with what the loop would give from there.
abbrev pub close_set : Bytes → Checked Bytes → Checked Bytes
close_set next rest = if peek next == b']' then ok (drop 1 next) else rest

-- The loop of `classend` that looks for a `]`.
unfoldable pub set_end : Bytes → Checked Bytes
set_end [] = raise missing_bracket
set_end (c ∷ []) = raise missing_bracket
set_end (c ∷ d ∷ p) =
    let escaped = close_set p (set_end p) in
    let plain = close_set (d ∷ p) (set_end (d ∷ p)) in
    if c == 0 then raise missing_bracket else if c == esc && not (d == 0) then escaped else plain

abbrev pub skip_caret : Bytes → Bytes
skip_caret p = if peek p == b'^' then drop 1 p else p

-- `classend`
unfoldable pub classend : Bytes → Checked Bytes
classend [] = ok []
classend (c ∷ p) =
    if c == esc
    then (if peek p == 0 then raise ends_with_escape else ok (drop 1 p))
    else if c == b'['
    then set_end (skip_caret p)
    else ok p

module _ (ctype : Ctype) where
  -- The switch of `match_class`; `none` of the classes is `default`.
  unfoldable pub match_class : ℕ → ℕ → Bool
  match_class c cl =
      let l = Ctype.tolower ctype cl in
      let signed = λ (res : Bool). if Ctype.islower ctype cl then res else not res in
      if l == b'a'
      then signed (Ctype.isalpha ctype c)
      else if l == b'c'
      then signed (Ctype.iscntrl ctype c)
      else if l == b'd'
      then signed (Ctype.isdigit ctype c)
      else if l == b'l'
      then signed (Ctype.islower ctype c)
      else if l == b'p'
      then signed (Ctype.ispunct ctype c)
      else if l == b's'
      then signed (Ctype.isspace ctype c)
      else if l == b'u'
      then signed (Ctype.isupper ctype c)
      else if l == b'w'
      then signed (Ctype.isalnum ctype c)
      else if l == b'x'
      then signed (Ctype.isxdigit ctype c)
      else if l == b'z'
      then signed (c == 0)
      else cl == c

  -- The loop of `matchbracketclass`, `p` being after `++p` and `left` the bytes before `ec`; each
  -- round passes a byte at least, so `left` rounds are enough. It tells whether `c` is a member.
  unfoldable pub is_member : ℕ → ℕ → ℕ → Bytes → Bool
  is_member zero c left p = false
  is_member (suc fuel) c left p =
      let after_one = is_member fuel c (left - 1) (drop 1 p) in
      let after_class = is_member fuel c (left - 2) (drop 2 p) in
      let after_range = is_member fuel c (left - 3) (drop 3 p) in
      let upper = peek (drop 2 p) in
      if left == 0
      then false
      else if peek p == esc
      then (if match_class c (peek (drop 1 p)) then true else after_class)
      else if peek (drop 1 p) == b'-' && ltb 2 left
      then (if leb (peek p) c && leb c upper then true else after_range)
      else if peek p == c
      then true
      else after_one

  -- `matchbracketclass(c, p, ec)`; `p` begins with the `[`, `ec` is at `ep - 1`.
  unfoldable pub matchbracketclass : ℕ → Bytes → Bytes → Bool
  matchbracketclass c p ep =
      let left = length p - length ep - 2 in
      if peek (drop 1 p) == b'^'
      then not (is_member left c (left - 1) (drop 2 p))
      else is_member left c left (drop 1 p)

  -- `singlematch`
  unfoldable pub singlematch : ℕ → Bytes → Bytes → Bool
  singlematch c p ep =
      if peek p == b'.'
      then true
      else if peek p == esc
      then match_class c (peek (drop 1 p))
      else if peek p == b'['
      then matchbracketclass c p ep
      else peek p == c
