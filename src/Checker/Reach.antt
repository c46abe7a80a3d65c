-- ===== src/Checker/Reach.antt =====
-- What `luaG_checkcode` of src/ldebug.c guarantees: its loop comes by every instruction.
use lua_reading.Prelude.{
  ℕ, zero, suc, ◌+◌, ◌-◌, ◌≤◌, ◌<◌, true, false, not, ◌&&◌, ◌==◌, if◌then◌else◌, Option, none, some,
  length, get_elem?, get_elem?-lt, ◌≡◌, ◌≢◌, refl, arith, Bool-cases, inl, inr, lt→ltb,
}
use native.Mathlib.Decide.{dec_lt}
use mathlib.Core.Path.{subst}
use lua_reading.Opcodes.{get_opcode, getarg_a}
use lua_reading.Opcodes.Modes.{
  OpCode, opcode?, number, number-opcode?, get_op_mode, op_setlist, op_return, test_a_mode,
  test_t_mode,
}
use lua_reading.Proto.{FuncInfo, Proto, info}
use lua_reading.Checker.Checks.{
  Outcome, pass, reject, fault, at, checkreg, is_op, precheck, is_setlist_zero, operands,
  check_test, no_reg,
}
use lua_reading.Checker.Switch.{check_at, step, dispatch, check_call, jump_to}
use lua_reading.Checker.Run.{loop, symbexec, checkcode}
use lua_reading.Checker.Starts.{Start, first, next, width}
use lua_reading.Checker.Spec.{IsSafe}
use lua_reading.Checker.Skips.{>>=-eq-pass, at-eq-pass}
use lua_reading.Checker.Operands.{decoded, operands-decoded}
use lua_reading.Checker.Safety.{step-IsSafe}

-- Where a round that is not a traced one leaves `pc`: before the next instruction, which is inside
-- the code behind a SETLIST with its count.
record Advances (f : Proto) (pc i : ℕ) (r : ℕ × ℕ) : Type 0 where
  moved : r.0 + 1 ≡ pc + width i
  inside : is_setlist_zero i ≡ true → pc + 2 < length (info f).code

dispatch-Advances :
    (f : Proto) (lastpc pc i last : ℕ) (r : ℕ × ℕ) (op : OpCode)
    → dispatch f lastpc no_reg pc (getarg_a i) (decoded i (get_op_mode op)) last op ≡ pass r
    → number op ≡ get_opcode i
    → Advances f pc i r
unfolding dispatch get_op_mode is_setlist_zero is_op number jump_to check_call
dispatch-Advances f lastpc pc i last r op_setlist e h = ground arith
dispatch-Advances f lastpc pc i last r _ e h = ground arith

step-Advances :
    (f : Proto) (lastpc pc i last : ℕ) (r : ℕ × ℕ)
    → get_elem? (info f).code pc ≡ some i
    → step f lastpc no_reg pc last ≡ pass r
    → Advances f pc i r
unfolding step check_at
step-Advances f lastpc pc i last r ei e =
    let (i', ei', e1) = >>=-eq-pass (at (info f).code pc) _ e in
    let same : i' ≡ i = cc (at-eq-pass (info f).code pc i' ei') in
    subst (λ w. Advances f pc w r) same (known i' (opcode? (get_opcode i')) refl e1)
  where
    run :
        (i : ℕ) (op : OpCode)
        → opcode? (get_opcode i) ≡ some op
        → check_at f lastpc no_reg pc last op i ≡ pass r
        → Advances f pc i r
    run i op d h =
        let (_, _, e1) = >>=-eq-pass (checkreg (info f) (getarg_a i)) _ h in
        let (o, eo, e2) = >>=-eq-pass (operands (info f) pc op i (get_op_mode op)) _ e1 in
        let (_, _, e3) = >>=-eq-pass (check_test (info f) pc (test_t_mode op)) _ e2 in
        dispatch-Advances f lastpc pc i
          (if test_a_mode op && getarg_a i == no_reg then pc else last) r op
          (rw (operands-decoded (info f) pc op i (get_op_mode op) o eo) e3)
          (number-opcode? (get_opcode i) op d)

    known :
        (i : ℕ) (o : Option OpCode)
        → opcode? (get_opcode i) ≡ o
        → elim o [ none ↦ reject | some op ↦ check_at f lastpc no_reg pc last op i ] ≡ pass r
        → Advances f pc i r
    known i none d h = cc
    known i (some op) d h = run i op d h

-- The loop came by `pc` and went on to its end.
record Visits (f : Proto) (lastpc pc : ℕ) : Type 0 where
  fuel : ℕ
  last : ℕ
  end : ℕ
  enough : lastpc ≤ pc + fuel
  run : loop fuel f lastpc no_reg pc last ≡ pass end

-- A round at `pc`, and the rounds after it.
record Rounds (f : Proto) (lastpc fuel pc last end : ℕ) : Type 0 where
  result : ℕ × ℕ
  step_passes : step f lastpc no_reg pc last ≡ pass result
  others : loop fuel f lastpc no_reg (result.0 + 1) result.1 ≡ pass end

loop-Rounds :
    (f : Proto) (lastpc fuel pc last end : ℕ)
    → pc < lastpc
    → loop (suc fuel) f lastpc no_reg pc last ≡ pass end
    → Rounds f lastpc fuel pc last end
unfolding loop
loop-Rounds f lastpc fuel pc last end inside e =
    let e' = rw (lt→ltb pc lastpc inside) at e in
    let (r, first_round, others) = >>=-eq-pass (step f lastpc no_reg pc last) _ e' in
    record { result = r; step_passes = first_round; others = others }

loop-Visits :
    (f : Proto) (lastpc pc i fuel last end : ℕ)
    → get_elem? (info f).code pc ≡ some i
    → pc < lastpc
    → lastpc ≤ pc + fuel
    → loop fuel f lastpc no_reg pc last ≡ pass end
    → Visits f lastpc (pc + width i)
loop-Visits f lastpc pc i zero last end ei inside enough e = absurd (omega arith)
loop-Visits f lastpc pc i (suc fuel) last end ei inside enough e =
    let rounds = loop-Rounds f lastpc fuel pc last end inside e in
    let a = step-Advances f lastpc pc i last rounds.result ei rounds.step_passes in
    record {
      fuel = fuel;
      last = rounds.result.1;
      end = end;
      enough = ground arith;
      run = rw a.moved at rounds.others;
    }

-- By induction on where instructions begin: the loop comes by each of them up to `lastpc`.
module _ (f : Proto) (lastpc : ℕ) (start : Visits f lastpc 0) where
  Start-Visits : {q : ℕ} → Start (info f).code q → q ≤ lastpc → Visits f lastpc q
  Start-Visits first below = start
  Start-Visits (next {pc = pc} {pc' = q} {i = i} s ei place) below =
      let earlier : pc < lastpc = ground (arith, place) in
      let v = Start-Visits s (omega arith) in
      rw place (loop-Visits f lastpc pc i v.fuel v.last v.end ei earlier v.enough v.run)

  -- Every instruction below `lastpc` went through a round.
  Start-step :
      {q : ℕ}
      → Start (info f).code q
      → q < lastpc
      → (last : ℕ) × (r : ℕ × ℕ) × (step f lastpc no_reg q last ≡ pass r)
  Start-step {q} s below =
      let v = Start-Visits s (omega arith) in once v.fuel v.last v.end v.enough v.run
    where
      once :
          (fuel last end : ℕ)
          → lastpc ≤ q + fuel
          → loop fuel f lastpc no_reg q last ≡ pass end
          → (last : ℕ) × (r : ℕ × ℕ) × (step f lastpc no_reg q last ≡ pass r)
      once zero last end enough e = absurd (omega arith)
      once (suc fuel) last end enough e =
          let rounds = loop-Rounds f lastpc fuel q last end below e in
          (last, rounds.result, rounds.step_passes)

passed :
    (o : Outcome ℕ)
    → elim o [ pass i ↦ not (i == 0) | reject ↦ false | fault ↦ false ] ≡ true
    → (i : ℕ) × (o ≡ pass i)
passed (pass i) e = (i, refl)
passed reject e = cc
passed fault e = cc

checkcode-loop :
    (f : Proto)
    → checkcode f ≡ true
    → (precheck (info f) ≡ pass tt) × Visits f (length (info f).code) 0
unfolding checkcode symbexec
checkcode-loop f h =
    let n = length (info f).code in
    let (i, e) = passed (symbexec f n no_reg) h in
    let (_, ep, e1) = >>=-eq-pass (precheck (info f)) _ e in
    let (end, run, _) = >>=-eq-pass (loop n f n no_reg 0 (n - 1)) _ e1 in
    (ep, record { fuel = n; last = n - 1; end = end; enough = omega arith; run = run })

precheck-return :
    (pt : FuncInfo) (i : ℕ)
    → precheck pt ≡ pass tt
    → get_elem? pt.code (length pt.code - 1) ≡ some i
    → get_opcode i ≡ number op_return
unfolding precheck is_op
precheck-return pt i e ei = ground arith

-- If the checker accepts a function, then every instruction in it is safe: its opcode is one of the
-- 38, the registers and constants that its operands name are there, its jump lands on an
-- instruction, and its opcode finds what it needs besides. A test has a jump and one more word behind
-- it; LOADBOOL with C = 1 (a larger C is not checked) skips a whole instruction that is not the last;
-- open results go to an instruction that takes them; a closure has its nested function and a word for
-- each upvalue; VARARG is in a vararg function without `arg`; windows of registers are on the stack.
-- Words behind a SETLIST with C = 0 are counts and no instructions.
pub checkcode-IsSafe :
    (f : Proto) (pc i : ℕ)
    → checkcode f ≡ true
    → Start (info f).code pc
    → get_elem? (info f).code pc ≡ some i
    → (op : OpCode) × IsSafe f pc i op
checkcode-IsSafe f pc i h s ei =
    let n = length (info f).code in
    let (last, r, e) = Start-step f n (checkcode-loop f h).1 s (get_elem?-lt _ pc i ei) in
    let (i', op, ei', safe) = step-IsSafe f n no_reg pc last r e in
    let same : i' ≡ i = cc in (op, subst (λ w. IsSafe f pc w op) same safe)

-- If the checker accepts a function, then behind every instruction that is no RETURN (and behind the
-- count word of a SETLIST with C = 0) there is another word of the code.
pub checkcode_stays_inside :
    (f : Proto) (pc i : ℕ)
    → checkcode f ≡ true
    → Start (info f).code pc
    → get_elem? (info f).code pc ≡ some i
    → get_opcode i ≢ number op_return
    → pc + width i < length (info f).code
checkcode_stays_inside f pc i h s ei other =
    let n = length (info f).code in
    let below = get_elem?-lt (info f).code pc i ei in
    let (last, r, e) = Start-step f n (checkcode-loop f h).1 s below in
    let a = step-Advances f n pc i last r ei e in
    elim (Bool-cases (is_setlist_zero i)) [
      | inl z ↦ rw z (a.inside z)
      | inr z ↦ elim (dec_lt (pc + 1) n) [
        | yes inside ↦ rw z inside
        | no outside ↦
            let at_end : pc ≡ n - 1 = omega arith in
            absurd (other (precheck-return (info f) i (checkcode-loop f h).0 (rw at_end at ei)))
      ]
    ]
