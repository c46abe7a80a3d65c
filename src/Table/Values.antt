-- ===== src/Table/Values.antt =====
-- Lists of values, as `resize` and `numusearray` of src/ltable.c read them.
use lua_reading.Prelude.{
  ℕ, zero, suc, ◌+◌, ◌-◌, ◌≤◌, ◌<◌, ◌≡◌, refl, ap, ◌∙◌, if◌then◌else◌, arith, List, [], ◌∷◌, length,
  get_or, take, drop,
}
use lua_reading.Table.{Value, nil, is_nil}
use lua_reading.Table.Counting.{count_slots}
use lua_reading.Table.Growth.{resized}
use lua_reading.Table.Refill.{count_values}

pub length-resized : (n : ℕ) (xs : List Value) → length (resized n xs) ≡ n
length-resized zero xs = refl
length-resized (suc n) [] = ap suc (length-resized n [])
length-resized (suc n) (x ∷ xs) = ap suc (length-resized n xs)

pub get_or-resized :
    (n : ℕ) (xs : List Value) (i : ℕ) → i < n → get_or (resized n xs) i nil ≡ get_or xs i nil
get_or-resized zero xs i h = absurd (omega arith)
get_or-resized (suc n) [] zero h = refl
get_or-resized (suc n) [] (suc i) h = get_or-resized n [] i (omega arith) ∙ refl
get_or-resized (suc n) (x ∷ xs) zero h = refl
get_or-resized (suc n) (x ∷ xs) (suc i) h = get_or-resized n xs i (omega arith)

pub length-take : (n : ℕ) (xs : List Value) → n ≤ length xs → length (take n xs) ≡ n
length-take zero xs h = refl
length-take (suc n) [] h = absurd (omega arith)
length-take (suc n) (x ∷ xs) h = ap suc (length-take n xs (omega arith))

pub get_or-take :
    (n : ℕ) (xs : List Value) (i : ℕ) → i < n → get_or (take n xs) i nil ≡ get_or xs i nil
get_or-take zero xs i h = absurd (omega arith)
get_or-take (suc n) [] i h = refl
get_or-take (suc n) (x ∷ xs) zero h = refl
get_or-take (suc n) (x ∷ xs) (suc i) h = get_or-take n xs i (omega arith)

pub get_or-drop :
    (n : ℕ) (xs : List Value) (i : ℕ) → get_or (drop n xs) i nil ≡ get_or xs (n + i) nil
get_or-drop zero xs i = let e : 0 + i ≡ i = omega arith in rw e refl
get_or-drop (suc n) [] i = refl
get_or-drop (suc n) (x ∷ xs) i =
    let e : suc n + i ≡ suc (n + i) = omega arith in rw e (get_or-drop n xs i)

pub get_or_outside : (xs : List Value) (i : ℕ) → length xs ≤ i → get_or xs i nil ≡ nil
get_or_outside [] i h = refl
get_or_outside (x ∷ xs) zero h = absurd (omega arith)
get_or_outside (x ∷ xs) (suc i) h = get_or_outside xs i (omega arith)

-- The values from `p` on.
pub count_drop :
    (xs : List Value) (p : ℕ)
    → p < length xs
    → count_values (drop p xs)
      ≡ (if is_nil (get_or xs p nil) then 0 else 1) + count_values (drop (suc p) xs)
count_drop [] p h = absurd (omega arith)
count_drop (x ∷ xs) zero h = refl
count_drop (x ∷ xs) (suc p) h = count_drop xs p (omega arith)

pub count_drop_end : (xs : List Value) (p : ℕ) → length xs ≤ p → count_values (drop p xs) ≡ 0
count_drop_end [] zero h = refl
count_drop_end [] (suc p) h = refl
count_drop_end (x ∷ xs) zero h = absurd (omega arith)
count_drop_end (x ∷ xs) (suc p) h = count_drop_end xs p (omega arith)

pub count_slots-drop :
    (xs : List Value) (left p : ℕ)
    → p + left ≤ length xs
    → count_slots xs left (suc p) + count_values (drop (p + left) xs) ≡ count_values (drop p xs)
unfolding count_slots
count_slots-drop xs zero p h = let e : p + 0 ≡ p = omega arith in rw e (omega arith)
count_slots-drop xs (suc left) p h =
    let e : p + suc left ≡ suc p + left = omega arith in
    let back : suc p - 1 ≡ p = omega arith in
    rw (e, back)
      (ground
        (arith, count_slots-drop xs left (suc p) (omega arith), count_drop xs p (omega arith)))
