-- ===== src/Pattern/Captures.antt =====
-- src/lstrlib.c: the captures of a match. Of the array only the `level` captures in use are kept, the
-- newest first; a capture above the level is written before it is read.
use lua_reading.Prelude.{
  ℕ, zero, suc, ◌-◌, Bool, true, false, ltb, if◌then◌else◌, List, [], ◌∷◌, Option, none, some,
  length, get_elem?,
}
use lua_reading.Pattern.Classes.{Checked, ok, raise, invalid_index, invalid_capture}

-- CAP_UNFINISHED, CAP_POSITION, and a length
pub data Length : Type 0 where
  unfinished position : Length
  closed : ℕ → Length

pub record Capture : Type 0 where
  pub init : ℕ
  pub len : Length

abbrev pub Captures : Type 0
Captures = List Capture

abbrev pub max_captures : ℕ
max_captures = 32

abbrev pub is_unfinished : Length → Bool
is_unfinished unfinished = true
is_unfinished _ = false

-- The capture of index `l`, the oldest being 0.
abbrev pub capture : Captures → ℕ → Option Capture
capture cs l = if ltb l (length cs) then get_elem? cs (length cs - 1 - l) else none

-- `check_capture` of the digit `l`
unfoldable pub check_capture : Captures → ℕ → Checked Capture
check_capture cs l = if ltb l b'1' then raise invalid_index else elim (capture cs (l - b'1')) [
  | none ↦ raise invalid_index
  | some c ↦ if is_unfinished c.len then raise invalid_index else ok c
]

abbrev pub one_more : Checked ℕ → Checked ℕ
one_more (ok d) = ok (suc d)
one_more (raise e) = raise e

-- `capture_to_close`, as the number of captures that are newer.
unfoldable pub capture_to_close : Captures → Checked ℕ
capture_to_close [] = raise invalid_capture
capture_to_close (c ∷ cs) =
    let older = one_more (capture_to_close cs) in if is_unfinished c.len then ok 0 else older

-- `ms->capture[l].len = …`, with `d` newer captures than `l`.
abbrev pub set_len : ℕ → (Capture → Length) → Captures → Captures
set_len d len [] = []
set_len zero len (c ∷ cs) = record c { len = len c } ∷ cs
set_len (suc d) len (c ∷ cs) = c ∷ set_len d len cs

-- `s - ms->capture[l].init`
abbrev pub up_to : ℕ → Capture → Length
up_to s c = closed (s - c.init)
