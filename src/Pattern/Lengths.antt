-- ===== src/Pattern/Lengths.antt =====
-- What is left behind an item of a pattern is shorter.
use lua_reading.Prelude.{
  ◌≤◌, ◌<◌, not, ◌==◌, ◌&&◌, [], ◌∷◌, length, length-drop, drop, ◌≡◌, inl, inr, arith, Bool-cases,
}
use lua_reading.Proto.{Bytes}
use lua_reading.Pattern.Classes.{
  Checked, ok, raise, missing_bracket, esc, peek, close_set, set_end, skip_caret, classend,
}

-- What is left behind a set, and behind an item, is shorter.
close_set-length :
    (next r : Bytes) (rest : Checked Bytes)
    → close_set next rest ≡ ok r
    → (rest ≡ ok r → length r < length next)
    → length r ≤ length next
close_set-length next r rest h k = elim (Bool-cases (peek next == b']')) [
  | inl e ↦
      let same : drop 1 next ≡ r = ground (arith, h, e) in
      rw (← same) (omega (arith, length-drop {0} 1 next))
  | inr e ↦ let same : rest ≡ ok r = ground (arith, h, e) in omega (arith, k same)
]

set_end-length : (p r : Bytes) → set_end p ≡ ok r → length r < length p
unfolding set_end
set_end-length [] r h = cc
set_end-length (c ∷ []) r h = cc
set_end-length (c ∷ d ∷ p) r h = elim (Bool-cases (c == 0)) [
  | inl ended ↦ let clash : raise missing_bracket ≡ ok r = rw ended at h in cc
  | inr used ↦ elim (Bool-cases (c == esc && not (d == 0))) [
    | inl e ↦
        let h' : close_set p (set_end p) ≡ ok r = rw (used, e) at h in
        omega (arith, close_set-length p r _ h' (set_end-length p r))
    | inr e ↦
        let h' : close_set (d ∷ p) (set_end (d ∷ p)) ≡ ok r = rw (used, e) at h in
        omega (arith, close_set-length (d ∷ p) r _ h' (set_end-length (d ∷ p) r))
  ]
]

pub classend-length : (p r : Bytes) → classend p ≡ ok r → 0 < length p → length r < length p
unfolding classend
classend-length [] r h positive = absurd (omega arith)
classend-length (c ∷ p) r h positive =
    ground (arith, h, set_end-length (skip_caret p) r, length-drop {0} 1 p)
