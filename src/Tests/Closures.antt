-- ===== src/Tests/Closures.antt =====
-- Open upvalues of a stack of three, src/lfunc.c.
use lua_reading.Prelude.{ℕ, ◌+◌, ◌≡◌, refl, true, false, some, List, [], ◌∷◌, arith}
use lua_reading.Upvalues.{UpVal, State, walk, resurrect, chain_in, findupval, close, close_loop}
use lua_reading.Upvalues.Order.{IsOrdered, HasLive, findupval-IsOrdered}
use lua_reading.Upvalues.Sharing.{read, read-close}

abbrev open_ones : List UpVal
open_ones =
    record { addr = 10; v = 2; is_dead = true } ∷ record { addr = 11; v = 0; is_dead = false } ∷ []

abbrev thread : State ℕ
thread = record { stack = λ i. i + 50; openupval = open_ones; uvhead = 11 ∷ 10 ∷ []; gcroot = [] }

abbrev after : ℕ × State ℕ
after = findupval ℕ 1 12 thread

opened_in_the_middle : State.openupval after.1 ≡ (
    record { addr = 10; v = 2; is_dead = true }
    ∷ record { addr = 12; v = 1; is_dead = false }
    ∷ record { addr = 11; v = 0; is_dead = false }
    ∷ [])
unfolding findupval walk resurrect chain_in
opened_in_the_middle = refl

closed_value : read ℕ 12 (close ℕ 1 after.1) ≡ some 51
unfolding findupval walk resurrect chain_in close close_loop
closed_value = refl

ordered : IsOrdered open_ones
ordered = ((omega arith, tt), (tt, tt))

findupval-IsOrdered_example :
    IsOrdered (State.openupval after.1) × HasLive 1 after.0 (State.openupval after.1)
findupval-IsOrdered_example = findupval-IsOrdered ℕ 1 12 thread ordered

read-close_example : read ℕ 11 (close ℕ 0 thread) ≡ read ℕ 11 thread
read-close_example =
    read-close ℕ 11 0 thread (refl, (refl, tt)) ((λ e. absurd (omega arith)), ((λ e. refl), tt))
