-- ===== src/Lexer/Loops.antt =====
-- The loops of src/llex.c: a loop whose rounds pass bytes ends, and goes through its rounds.
use lua_reading.Prelude.{
  ℕ, zero, suc, ◌≤◌, ◌<◌, ◌≡◌, refl, Bool, true, false, arith, if◌then◌else◌, length,
}
use lua_reading.Lexer.{LexState, Scan, ok, thrown, exhausted, Round, again, stop, loop, run}

-- The result is not out of fuel, and where it is no error, `Good` holds of it.
unfoldable pub Ends : {A : Type 0} → (A → Type 0) → Scan A → Type 0
Ends Good (ok a) = Good a
Ends Good (thrown e near ls) = Unit {0}
Ends Good exhausted = ⊥

-- After a round that began with `n` bytes of input left.
unfoldable pub Passes : {A : Type 0} → (A → Type 0) → ℕ → Round A → Type 0
Passes Good n (again ls) = length ls.input < n
Passes Good n (stop result) = Ends Good result

pub if-Passes :
    {A : Type 0} (Good : A → Type 0) (n : ℕ) (b : Bool) (x y : Round A)
    → (b ≡ true → Passes Good n x)
    → (b ≡ false → Passes Good n y)
    → Passes Good n (if b then x else y)
if-Passes Good n true x y f g = f refl
if-Passes Good n false x y f g = g refl

pub Passes-later :
    {A : Type 0} (Good : A → Type 0) (m n : ℕ) (x : Round A)
    → m ≤ n
    → Passes Good m x
    → Passes Good n x
unfolding Passes
Passes-later Good m n (again ls) h p = omega (arith, p)
Passes-later Good m n (stop result) h p = p

module _ {A : Type 0} (body : LexState → Round A) where
  module _ (Good : A → Type 0) (m : ℕ)
      (passes : (ls : LexState)
        → length ls.input ≤ m
        → Passes Good (length ls.input) (body ls)) where
    after_round :
        (fuel n : ℕ) (x : Round A)
        → ((ls : LexState) → length ls.input < n → Ends Good (loop body fuel ls))
        → Passes Good n x
        → Ends Good (elim x [ again ls ↦ loop body fuel ls | stop result ↦ result ])
    unfolding Passes
    after_round fuel n (again ls) on p = on ls p
    after_round fuel n (stop result) on p = p

    loop-Ends :
        (fuel : ℕ) (ls : LexState)
        → length ls.input < fuel
        → length ls.input ≤ m
        → Ends Good (loop body fuel ls)
    unfolding loop
    loop-Ends zero ls h fits = absurd (omega arith)
    loop-Ends (suc fuel) ls h fits =
        after_round fuel (length ls.input) (body ls)
          (λ ls' less. loop-Ends fuel ls' (omega arith) (omega arith)) (passes ls fits)

  pub run-Ends :
      (Good : A → Type 0) (ls : LexState)
      → ((ls' : LexState)
          → length ls'.input ≤ length ls.input
          → Passes Good (length ls'.input) (body ls'))
      → Ends Good (run body ls)
  unfolding run
  run-Ends Good ls passes =
      loop-Ends Good (length ls.input) passes (suc (length ls.input)) ls (omega arith) (omega arith)

  module _ (passes : (ls : LexState) → Passes (λ a. Unit {0}) (length ls.input) (body ls)) where
    same_round :
        (f g n : ℕ) (x : Round A)
        → ((ls : LexState) → length ls.input < n → loop body f ls ≡ loop body g ls)
        → Passes (λ a. Unit {0}) n x
        → elim x as (λ x. Scan A) [ again ls ↦ loop body f ls | stop result ↦ result ]
          ≡ elim x [ again ls ↦ loop body g ls | stop result ↦ result ]
    unfolding Passes
    same_round f g n (again ls) on p = on ls p
    same_round f g n (stop result) on p = refl

    same_loop :
        (f g : ℕ) (ls : LexState)
        → length ls.input < f
        → length ls.input < g
        → loop body f ls ≡ loop body g ls
    unfolding loop
    same_loop zero g ls h k = absurd (omega arith)
    same_loop (suc f) zero ls h k = absurd (omega arith)
    same_loop (suc f) (suc g) ls h k =
        same_round f g (length ls.input) (body ls)
          (λ ls' less. same_loop f g ls' (omega arith) (omega arith)) (passes ls)

    pub run-again : (ls ls' : LexState) → body ls ≡ again ls' → run body ls ≡ run body ls'
    unfolding run loop Passes
    run-again ls ls' e =
        let p : Passes {A = A} (λ a. Unit {0}) (length ls.input) (again ls') =
          (let p' = passes ls in (rw e at p')) in
        rw (loop, e) (same_loop (length ls.input) (suc (length ls'.input)) ls' p (omega arith))

  pub run-stop : (ls : LexState) (x : Scan A) → body ls ≡ stop x → run body ls ≡ x
  unfolding run loop
  run-stop ls x e = rw (loop, e)
