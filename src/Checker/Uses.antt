-- ===== src/Checker/Uses.antt =====
-- What the checks of src/ldebug.c for single opcodes say of an instruction.
use Prim.Native.Nat.{bit_and}
use lua_reading.Prelude.{
  ◌-◌, not, ◌≢◌, inl, inr, ◌⊎◌, ℕ, ◌+◌, ◌≤◌, ◌<◌, ltb, ◌&&◌, ◌==◌, if◌then◌else◌, Option, none,
  some, length, get_elem?, ◌≡◌, refl, ap, ◌∙◌, arith,
}
use lua_reading.Opcodes.{getarg_a, getarg_b, getarg_c, getarg_bx}
use lua_reading.Opcodes.Modes.{
  OpCode, get_op_mode, op_getupval, op_setupval, op_getglobal, op_setglobal, op_self, op_concat,
  op_tforloop, op_forloop, op_forprep, op_call, op_tailcall, op_return, op_setlist, op_closure,
  op_vararg, op_move, op_loadbool,
}
use lua_reading.Proto.{
  Bytes, Constant, nil, boolean, number, string, FuncInfo, Proto, Protos, info, nested, proto_at,
  sizep,
}
use lua_reading.Checker.Checks.{
  when, has, vararg_isvararg, vararg_needsarg, no_reg, checkopenop_next, Outcome, pass, fault,
  ◌>>=◌, ◌>>◌, check, at, checkreg, Operands,
}
use lua_reading.Checker.Switch.{check_skip, check_pseudo, dispatch, check_call, nups_at, is_string}
use lua_reading.Checker.Skips.{
  >>=-eq-pass, at-eq-pass, check_skip-SkipsOne, checkopenop_next-ResultsAreTaken,
  check_pseudo-CapturesAreSafe,
}
use lua_reading.Checker.Spec.{SkipsOne, ResultsAreTaken, CapturesAreSafe, CallIsSafe, UseIsSafe}
use lua_reading.Checker.Operands.{decoded}

string_of : (k : Constant) → check (is_string k) ≡ pass tt → (s : Option Bytes) × (k ≡ string s)
unfolding is_string
string_of nil e = cc
string_of (boolean b) e = cc
string_of (number n) e = cc
string_of (string s) e = (s, refl)

constant_is_string :
    (f : Proto) (b : ℕ) (x r : ℕ × ℕ)
    → (do k ← at (info f).k b; check (is_string k); pass x) ≡ pass r
    → (s : Option Bytes) × (get_elem? (info f).k b ≡ some (string s))
constant_is_string f b x r e =
    let (k, ek, e1) = >>=-eq-pass (at (info f).k b) _ e in
    let (s, same) = string_of k (>>=-eq-pass (check (is_string k)) _ e1).1 in
    (s, at-eq-pass (info f).k b k ek ∙ ap some same)

nups_at-proto_at :
    (ps : Protos) (b n : ℕ)
    → nups_at ps b ≡ pass n
    → (g : Proto) × (proto_at ps b ≡ some g) × ((info g).nups ≡ n)
unfolding nups_at
nups_at-proto_at ps b n e = found (proto_at ps b) e
  where
    found :
        (o : Option Proto)
        → elim o [ none ↦ fault | some g ↦ pass (info g).nups ] ≡ pass n
        → (g : Proto) × (o ≡ some g) × ((info g).nups ≡ n)
    found none e' = cc
    found (some g) e' = (g, refl, cc)

-- A check that is made when a number is the given one.
when-eq-pass :
    (n k : ℕ) (m : Outcome (Unit {0})) {u : Unit {0}}
    → when (n == k) m ≡ pass u
    → (n ≢ k) ⊎ (m ≡ pass tt)
when-eq-pass n k m e = ground arith

when-check_skip :
    (pt : FuncInfo) (pc c : ℕ) (x r : ℕ × ℕ)
    → (when (c == 1) (check_skip pt pc) >> pass x) ≡ pass r
    → (c ≢ 1) ⊎ SkipsOne pt pc
when-check_skip pt pc c x r e =
    let (_, h, _) = >>=-eq-pass (when (c == 1) (check_skip pt pc)) _ e in
    elim (when-eq-pass c 1 _ h) [ inl n ↦ inl n | inr s ↦ inr (check_skip-SkipsOne pt pc s) ]

when-checkopenop_next :
    (pt : FuncInfo) (pc n : ℕ) {u : Unit {0}}
    → when (n == 0) (checkopenop_next pt pc) ≡ pass u
    → (n ≢ 0) ⊎ ResultsAreTaken pt pc
when-checkopenop_next pt pc n e = elim (when-eq-pass n 0 _ e) [
  | inl h ↦ inl h
  | inr s ↦ inr (checkopenop_next-ResultsAreTaken pt pc s)
]

check_call-CallIsSafe :
    (pt : FuncInfo) (pc i : ℕ) (o : Operands) (reg last : ℕ) (r : ℕ × ℕ)
    → o.b ≡ getarg_b i
    → o.c ≡ getarg_c i
    → check_call pt pc (getarg_a i) o reg last ≡ pass r
    → getarg_a i < pt.maxstacksize
    → CallIsSafe pt pc i
unfolding check_call checkreg
check_call-CallIsSafe pt pc i o reg last r eb ec e h =
    let a = getarg_a i in
    let (_, args, e1) = >>=-eq-pass (when (not (o.b == 0)) (checkreg pt (a + o.b - 1))) _ e in
    let (_, taken, e2) = >>=-eq-pass (when (o.c == 0) (checkopenop_next pt pc)) _ e1 in
    let (_, results, _) = >>=-eq-pass (when (ltb 1 o.c) (checkreg pt (a + o.c - 2))) _ e2 in
    let window : a + getarg_b i ≤ pt.maxstacksize = ground (arith, args, eb, h) in
    let room : a + getarg_c i ≤ pt.maxstacksize + 1 = ground (arith, results, ec, h) in
    let open_end = when-checkopenop_next pt pc o.c taken in (window, room, rw ec at open_end)

check_closure-CapturesAreSafe :
    (f : Proto) (pc b reg last : ℕ) (r : ℕ × ℕ)
    → (do
      check (ltb b (sizep (nested f)))
      nup ← nups_at (nested f) b
      check (ltb (pc + nup) (length (info f).code))
      check_pseudo (info f) (pc + 1) nup
      pass (if not (reg == no_reg) then pc + nup else pc, last))
      ≡ pass r
    → (g : Proto) × (proto_at (nested f) b ≡ some g)
      × (pc + (info g).nups < length (info f).code)
      × CapturesAreSafe (info f).code (pc + 1) (info g).nups
check_closure-CapturesAreSafe f pc b reg last r e =
    let (_, _, e1) = >>=-eq-pass (check (ltb b (sizep (nested f)))) _ e in
    let (n, en, e2) = >>=-eq-pass (nups_at (nested f) b) _ e1 in
    let (_, room, e3) = >>=-eq-pass (check (ltb (pc + n) (length (info f).code))) _ e2 in
    let (_, words, _) = >>=-eq-pass (check_pseudo (info f) (pc + 1) n) _ e3 in
    let (g, eg, same) = nups_at-proto_at (nested f) b n en in
    let inside : pc + n < length (info f).code = ground (arith, room) in
    (g, eg, rw same inside, rw same (check_pseudo-CapturesAreSafe (info f) (pc + 1) n words))

vararg_window :
    (pt : FuncInfo) (pc a b : ℕ) (x r : ℕ × ℕ)
    → (do
      check (has pt.is_vararg vararg_isvararg && not (has pt.is_vararg vararg_needsarg))
      when (b == 0) (checkopenop_next pt pc)
      check (ltb (a + b) (pt.maxstacksize + 2))
      pass x)
      ≡ pass r
    → (a + b ≤ pt.maxstacksize + 1)
      × (bit_and pt.is_vararg 2 ≢ 0)
      × (bit_and pt.is_vararg 4 ≡ 0)
      × ((b ≢ 0) ⊎ ResultsAreTaken pt pc)
unfolding has
vararg_window pt pc a b x r e =
    let flags =
      check (has pt.is_vararg vararg_isvararg && not (has pt.is_vararg vararg_needsarg)) in
    let (_, known, e1) = >>=-eq-pass flags _ e in
    let (_, taken, e2) = >>=-eq-pass (when (b == 0) (checkopenop_next pt pc)) _ e1 in
    let (_, inside, _) = >>=-eq-pass (check (ltb (a + b) (pt.maxstacksize + 2))) _ e2 in
    let window : a + b ≤ pt.maxstacksize + 1 = ground (arith, inside) in
    let takes_any : bit_and pt.is_vararg 2 ≢ 0 = ground (arith, known) in
    let no_arg : bit_and pt.is_vararg 4 ≡ 0 = ground (arith, known) in
    (window, takes_any, no_arg, when-checkopenop_next pt pc b taken)

pub dispatch-UseIsSafe :
    (f : Proto) (lastpc reg pc i last : ℕ) (r : ℕ × ℕ) (op : OpCode)
    → dispatch f lastpc reg pc (getarg_a i) (decoded i (get_op_mode op)) last op ≡ pass r
    → getarg_a i < (info f).maxstacksize
    → UseIsSafe f pc i op
unfolding dispatch get_op_mode checkreg
dispatch-UseIsSafe f lastpc reg pc i last r op_loadbool e h =
    when-check_skip (info f) pc (getarg_c i) _ r e
dispatch-UseIsSafe f lastpc reg pc i last r op_getupval e h = ground arith
dispatch-UseIsSafe f lastpc reg pc i last r op_setupval e h = ground arith
dispatch-UseIsSafe f lastpc reg pc i last r op_getglobal e h = constant_is_string f _ _ r e
dispatch-UseIsSafe f lastpc reg pc i last r op_setglobal e h = constant_is_string f _ _ r e
dispatch-UseIsSafe f lastpc reg pc i last r op_self e h = ground arith
dispatch-UseIsSafe f lastpc reg pc i last r op_concat e h = ground arith
dispatch-UseIsSafe f lastpc reg pc i last r op_tforloop e h = ground arith
dispatch-UseIsSafe f lastpc reg pc i last r op_forloop e h = ground arith
dispatch-UseIsSafe f lastpc reg pc i last r op_forprep e h = ground arith
dispatch-UseIsSafe f lastpc reg pc i last r op_call e h =
    check_call-CallIsSafe (info f) pc i _ reg last r refl refl e h
dispatch-UseIsSafe f lastpc reg pc i last r op_tailcall e h =
    check_call-CallIsSafe (info f) pc i _ reg last r refl refl e h
dispatch-UseIsSafe f lastpc reg pc i last r op_return e h = ground arith
dispatch-UseIsSafe f lastpc reg pc i last r op_setlist e h =
    let window : getarg_a i + getarg_b i < (info f).maxstacksize = ground arith in
    let counted : (getarg_c i ≢ 0) ⊎ (pc + 2 < length (info f).code) = ground arith in
    (window, counted)
dispatch-UseIsSafe f lastpc reg pc i last r op_closure e h =
    check_closure-CapturesAreSafe f pc (getarg_bx i) reg last r e
dispatch-UseIsSafe f lastpc reg pc i last r op_vararg e h =
    vararg_window (info f) pc (getarg_a i) (getarg_b i) _ r e
dispatch-UseIsSafe f lastpc reg pc i last r op_move e h = tt
dispatch-UseIsSafe f lastpc reg pc i last r _ e h = tt
