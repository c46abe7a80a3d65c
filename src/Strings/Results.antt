-- ===== src/Strings/Results.antt =====
-- src/lstrlib.c: the values of captures.
use lua_reading.Prelude.{
  ℕ, zero, suc, ◌+◌, ◌-◌, Bool, ◌&&◌, Option, none, some, List, [], ◌∷◌, ◌==◌, if◌then◌else◌,
  length, take, drop,
}
use lua_reading.Proto.{Bytes}
use lua_reading.Pattern.Classes.{Checked, ok, raise, invalid_index, unfinished_capture}
use lua_reading.Pattern.Captures.{Length, unfinished, position, closed, Capture, Captures, capture}

-- A value that a function of the library returns.
pub data Pushed : Type 0 where
  nil : Pushed
  number : ℕ → Pushed
  text : Bytes → Pushed

module _ (src : Bytes) where
  -- The bytes from `s` to before `e`.
  abbrev pub slice : ℕ → ℕ → Bytes
  slice s e = take (e - s) (drop s src)

  abbrev pub push_length : ℕ → Length → Checked Pushed
  push_length init unfinished = raise unfinished_capture
  push_length init position = ok (number (init + 1))
  push_length init (closed n) = ok (text (take n (drop init src)))

  abbrev pub push_capture : ℕ → ℕ → ℕ → Option Capture → Checked Pushed
  push_capture i s e none = if i == 0 then ok (text (slice s e)) else raise invalid_index
  push_capture i s e (some c) = push_length c.init c.len

  -- `push_onecapture`
  unfoldable pub push_onecapture : Captures → ℕ → ℕ → ℕ → Checked Pushed
  push_onecapture cs i s e = push_capture i s e (capture cs i)

  abbrev pub push_more : Checked Pushed → Checked (List Pushed) → Checked (List Pushed)
  push_more (raise e) rest = raise e
  push_more (ok v) (raise e) = raise e
  push_more (ok v) (ok vs) = ok (v ∷ vs)

  unfoldable pub push_captures_loop : ℕ → Captures → ℕ → ℕ → ℕ → Checked (List Pushed)
  push_captures_loop zero cs i s e = ok []
  push_captures_loop (suc left) cs i s e =
      push_more (push_onecapture cs i s e) (push_captures_loop left cs (i + 1) s e)

  -- `push_captures`; `whole` tells whether there is an `s`.
  unfoldable pub push_captures : Bool → Captures → ℕ → ℕ → Checked (List Pushed)
  push_captures whole cs s e =
      let nlevels = if length cs == 0 && whole then 1 else length cs in
      push_captures_loop nlevels cs 0 s e
