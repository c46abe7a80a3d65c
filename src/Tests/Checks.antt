-- ===== src/Tests/Checks.antt =====
-- The code checker at concrete functions.
use lua_reading.Prelude.{ℕ, List, [], ◌∷◌, ◌+◌, ◌<◌, true, ◌≡◌, refl, arith}
use lua_reading.Opcodes.Modes.{OpCode}
use lua_reading.Proto.{Proto, proto, end}
use lua_reading.Checker.Run.{checkcode}
use lua_reading.Checker.Starts.{first, width}
use lua_reading.Checker.Spec.{IsSafe}
use lua_reading.Checker.Reach.{checkcode-IsSafe, checkcode_stays_inside}
use lua_reading.Tests.Samples.{sample, sample_info, sample_accepted, checker}

-- A function with the given code.
abbrev of_code : List ℕ → Proto
of_code code = proto (record sample_info { code = code; lineinfo = [] }) end

-- TEST 0 0; JMP 0; LOADBOOL 0 1 1; LOADBOOL 0 0 0; RETURN 0 1
abbrev tested : Proto
tested = of_code (26 ∷ 2147467286 ∷ 8404994 ∷ 2 ∷ 8388638 ∷ [])

tested_accepted : checkcode tested ≡ true
unfolding checker
tested_accepted = refl

checkcode-IsSafe_example : (op : OpCode) × IsSafe tested 0 26 op
checkcode-IsSafe_example = checkcode-IsSafe tested 0 26 tested_accepted first refl

checkcode_stays_inside_example : 0 + width 1 < 4
checkcode_stays_inside_example =
    checkcode_stays_inside sample 0 1 sample_accepted first refl (unfold checker in omega arith)

-- LOADBOOL 0 1 2; RETURN 0 1: C is neither 0 nor 1, so the skip over the last instruction is not
-- checked, and the function is accepted.
unchecked_skip : checkcode (of_code (8421378 ∷ 8388638 ∷ [])) ≡ true
unfolding checker
unchecked_skip = refl
