-- ===== src/Prelude/Lists.antt =====
-- Lists measured and indexed by native numbers, under the library's names.
use Prim.Native.Nat.{ℕ, zero, suc, ◌+◌, ◌-◌, ◌≤◌, ◌<◌}
use mathlib.Core.Path.{◌≡◌, refl, ap}
use mathlib.Core.List.{List, [], ◌∷◌, ◌++◌}
use mathlib.Core.Option.{Option, none, some}
use native.Mathlib.Omega.{arith}

module _ {ℓ} {A : Type ℓ} where
  abbrev pub length : List A → ℕ
  length [] = 0
  length (x ∷ xs) = suc (length xs)

  abbrev pub get_elem? : List A → ℕ → Option A
  get_elem? [] i = none
  get_elem? (x ∷ xs) zero = some x
  get_elem? (x ∷ xs) (suc i) = get_elem? xs i

  abbrev pub get_or : List A → ℕ → A → A
  get_or [] i d = d
  get_or (x ∷ xs) zero d = x
  get_or (x ∷ xs) (suc i) d = get_or xs i d

  abbrev pub take : ℕ → List A → List A
  take zero xs = []
  take (suc n) [] = []
  take (suc n) (x ∷ xs) = x ∷ take n xs

  abbrev pub drop : ℕ → List A → List A
  drop zero xs = xs
  drop (suc n) [] = []
  drop (suc n) (x ∷ xs) = drop n xs

  -- A write out of bounds changes nothing.
  abbrev pub set : List A → ℕ → A → List A
  set [] i v = []
  set (x ∷ xs) zero v = v ∷ xs
  set (x ∷ xs) (suc i) v = x ∷ set xs i v

  abbrev pub All {κ} : (A → Type κ) → List A → Type κ
  All P [] = Unit {κ}
  All P (x ∷ xs) = P x × All P xs

  pub length-append : (xs ys : List A) → length (xs ++ ys) ≡ length xs + length ys
  length-append [] ys = omega arith
  length-append (x ∷ xs) ys = omega (arith, length-append xs ys)

  pub length-drop : (n : ℕ) (xs : List A) → length (drop n xs) ≡ length xs - n
  length-drop zero xs = omega arith
  length-drop (suc n) [] = omega arith
  length-drop (suc n) (x ∷ xs) = omega (arith, length-drop n xs)

  -- Taking and dropping in two moves, the first inside `xs`.
  pub take_two :
      (m n : ℕ) (xs ys : List A)
      → m ≤ length xs
      → m ≤ n
      → take m xs ++ take (n - m) (drop m xs ++ ys) ≡ take n (xs ++ ys)
  take_two zero n xs ys h k = let e : n - 0 ≡ n = omega arith in rw e
  take_two (suc m) n [] ys h k = absurd (omega arith)
  take_two (suc m) zero (x ∷ xs) ys h k = absurd (omega arith)
  take_two (suc m) (suc n) (x ∷ xs) ys h k =
      let e : suc n - suc m ≡ n - m = omega arith in
      rw e (ap (◌∷◌ x) (take_two m n xs ys (omega arith) (omega arith)))

  pub drop_two :
      (m n : ℕ) (xs ys : List A)
      → m ≤ length xs
      → m ≤ n
      → drop (n - m) (drop m xs ++ ys) ≡ drop n (xs ++ ys)
  drop_two zero n xs ys h k = let e : n - 0 ≡ n = omega arith in rw e
  drop_two (suc m) n [] ys h k = absurd (omega arith)
  drop_two (suc m) zero (x ∷ xs) ys h k = absurd (omega arith)
  drop_two (suc m) (suc n) (x ∷ xs) ys h k =
      let e : suc n - suc m ≡ n - m = omega arith in
      rw e (drop_two m n xs ys (omega arith) (omega arith))

  pub take-append : (xs ys : List A) → take (length xs) (xs ++ ys) ≡ xs
  take-append [] ys = refl
  take-append (x ∷ xs) ys = ap (◌∷◌ x) (take-append xs ys)

  pub drop-append : (xs ys : List A) → drop (length xs) (xs ++ ys) ≡ ys
  drop-append [] ys = refl
  drop-append (x ∷ xs) ys = drop-append xs ys

  pub get_elem?-lt : (xs : List A) (n : ℕ) (x : A) → get_elem? xs n ≡ some x → n < length xs
  get_elem?-lt [] n x e = cc
  get_elem?-lt (y ∷ xs) zero x e = omega arith
  get_elem?-lt (y ∷ xs) (suc n) x e = omega (arith, get_elem?-lt xs n x e)
