-- ===== src/Tests/Jumping.antt =====
-- Lists of jumps in a function of six instructions, src/lcode.c.
use lua_reading.Prelude.{ℕ, zero, suc, ◌≡◌, refl, true, some, List, [], ◌∷◌, arith, get_or}
use lua_reading.Prelude.Int.{negsuc}
use lua_reading.Opcodes.{get_opcode, getarg_a, getarg_b, getarg_bx, getarg_sbx}
use lua_reading.Opcodes.Modes.{number}
use lua_reading.Checker.Checks.{no_reg}
use lua_reading.Jumps.{Code, getjump, concat, patchlistaux}
use lua_reading.Jumps.Lists.{IsJumpList, AreDistinct, AreWords}
use lua_reading.Jumps.Concat.{Appends, concat-Appends}
use lua_reading.Jumps.Patch.{AreJumps, Patches, patchlistaux-Patches}
use lua_reading.Jumps.Emit.{FuncState, emit, connects}
use lua_reading.Jumps.Pending.{IsPending, Lands, emit-Lands}

-- A TESTSET, its jump, a MOVE, a jump with the first one behind it in its list, a LOADNIL of the
-- registers 2 and 3, and a jump of its own.
abbrev words : List ℕ
words = 16777307 ∷ 2147450902 ∷ 0 ∷ 2147418134 ∷ 25165955 ∷ 2147450902 ∷ []

abbrev code : Code
code k = get_or words k 0

words_fit : AreWords code
words_fit zero = omega arith
words_fit (suc zero) = omega arith
words_fit (suc (suc zero)) = omega arith
words_fit (suc (suc (suc zero))) = omega arith
words_fit (suc (suc (suc (suc zero)))) = omega arith
words_fit (suc (suc (suc (suc (suc zero))))) = omega arith
words_fit (suc (suc (suc (suc (suc (suc k)))))) = omega arith

two_jumps : IsJumpList code (3 ∷ 1 ∷ []) (some 3)
unfolding getjump getarg_sbx getarg_bx
two_jumps = (refl, (refl, refl))

one_jump : IsJumpList code (5 ∷ []) (some 5)
unfolding getjump getarg_sbx getarg_bx
one_jump = (refl, refl)

are_jumps : AreJumps code (3 ∷ 1 ∷ [])
unfolding get_opcode number
are_jumps = ((refl, omega arith, omega arith), ((refl, omega arith, omega arith), tt))

are_distinct : AreDistinct (3 ∷ 1 ∷ [])
are_distinct = ((λ i. ground (arith, i)), ((λ i. i), tt))

concat-Appends_example : Appends code (3 ∷ 1 ∷ 5 ∷ []) (concat 6 code (some 3) (some 5))
concat-Appends_example =
    concat-Appends 6 code (3 ∷ 1 ∷ []) (5 ∷ []) (some 3) (some 5) words_fit two_jumps one_jump
      are_distinct (λ k i i'. ground (arith, i, i')) (λ k i. ground (arith, i)) (omega arith)

patchlistaux-Patches_example :
    Patches code 2 6 (3 ∷ 1 ∷ []) (patchlistaux 6 code (some 3) 2 no_reg 6)
patchlistaux-Patches_example =
    patchlistaux-Patches 6 code (3 ∷ 1 ∷ []) (some 3) 2 no_reg 6 two_jumps are_jumps are_distinct
      (omega arith) (omega arith) (omega arith)

abbrev state : FuncState
state = record {
  code = code;
  lineinfo = λ k. 1;
  pc = 6;
  lasttarget = negsuc 0;
  jpc = some 3;
  nactvar = 0;
  lastline = 1;
}

pending : IsPending state (3 ∷ 1 ∷ [])
pending = record {
  list = two_jumps;
  jumps = are_jumps;
  distinct = are_distinct;
  below = (omega arith, (omega arith, tt));
  short = omega arith;
}

emit-Lands_example : Lands 0 state (3 ∷ 1 ∷ []) (emit 0 state)
emit-Lands_example = emit-Lands 0 state (3 ∷ 1 ∷ []) pending

connected : connects 25165955 4 ≡ true
unfolding get_opcode number getarg_a getarg_b
connected = refl
