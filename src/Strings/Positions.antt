-- ===== src/Strings/Positions.antt =====
-- src/lstrlib.c: positions from either end, and `string.sub` and `string.reverse`.
use lua_reading.Prelude.{
  ℕ, zero, suc, ◌+◌, ◌-◌, ◌≤◌, ◌≡◌, refl, sym, ap, ◌∙◌, inl, inr, [], ◌∷◌, ◌++◌, arith, ltb, leb,
  if◌then◌else◌, Bool-cases, length, take, drop, length-drop,
}
use lua_reading.Prelude.Int.{ℤ, pos, negsuc}
use lua_reading.Proto.{Bytes}

-- `posrelat`; `-(n + 1) + len + 1` is `len - n` if that is not negative.
unfoldable pub posrelat : ℤ → ℕ → ℕ
posrelat (pos n) len = n
posrelat (negsuc n) len = len - n

-- `str_sub`; a missing end is the argument -1.
unfoldable pub str_sub : Bytes → ℤ → ℤ → Bytes
str_sub s i j =
    let l = length s in
    let start = if ltb (posrelat i l) 1 then 1 else posrelat i l in
    let end = if ltb l (posrelat j l) then l else posrelat j l in
    if leb start end then take (end - start + 1) (drop (start - 1) s) else []

take-all : (n : ℕ) (s : Bytes) → length s ≤ n → take n s ≡ s
take-all zero [] h = refl
take-all zero (c ∷ s) h = absurd (omega arith)
take-all (suc n) [] h = refl
take-all (suc n) (c ∷ s) h = ap (λ t. c ∷ t) (take-all n s (omega arith))

pub take-++-drop : (n : ℕ) (s : Bytes) → take n s ++ drop n s ≡ s
take-++-drop zero s = refl
take-++-drop (suc n) [] = refl
take-++-drop (suc n) (c ∷ s) = ap (λ t. c ∷ t) (take-++-drop n s)

drop-all : (n : ℕ) (s : Bytes) → length s ≤ n → drop n s ≡ []
drop-all zero [] h = refl
drop-all zero (c ∷ s) h = absurd (omega arith)
drop-all (suc n) [] h = refl
drop-all (suc n) (c ∷ s) h = drop-all n s (omega arith)

-- The test and the length that `str_sub` computes, from the first byte on and up to the last.
take_tested : (m : ℕ) (s : Bytes) → (if leb 1 m then take (m - 1 + 1) s else []) ≡ take m s
take_tested zero s = refl
take_tested (suc m) s = ground arith

drop_tested :
    (m : ℕ) (s : Bytes)
    → (if leb (m + 1) (length s) then take (length s - (m + 1) + 1) (drop m s) else []) ≡ drop m s
drop_tested m s = elim (Bool-cases (leb (m + 1) (length s))) [
  | inl e ↦ rw e (take-all _ (drop m s) (omega (arith, length-drop m s)))
  | inr e ↦ rw e (sym (drop-all m s (ground (arith, e))))
]

str_sub-take : (s : Bytes) (n : ℕ) → str_sub s (pos 1) (pos n) ≡ take n s
unfolding str_sub posrelat
str_sub-take s n = elim (Bool-cases (ltb (length s) n)) [
  | inl e ↦ rw e (
      take_tested (length s) s
      ∙ take-all (length s) s (omega arith)
      ∙ sym (take-all n s (ground (arith, e))))
  | inr e ↦ rw e (take_tested n s)
]

str_sub-drop : (s : Bytes) (n : ℕ) → str_sub s (pos (n + 1)) (negsuc 0) ≡ drop n s
unfolding str_sub posrelat
str_sub-drop s n =
    let start : (if ltb (n + 1) 1 then 1 else n + 1) ≡ n + 1 = ground arith in
    let end : (if ltb (length s) (length s - 0) then length s else length s - 0) ≡ length s =
      ground arith in
    let before : n + 1 - 1 ≡ n = omega arith in rw (start, end, before) (drop_tested n s)

-- `s:sub(1, n)` and `s:sub(n + 1)` together are `s`.
pub str_sub-++ :
    (s : Bytes) (n : ℕ) → str_sub s (pos 1) (pos n) ++ str_sub s (pos (n + 1)) (negsuc 0) ≡ s
str_sub-++ s n = rw (str_sub-take s n, str_sub-drop s n) (take-++-drop n s)
