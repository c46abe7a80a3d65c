-- ===== src/Checker/Run.antt =====
-- src/ldebug.c: `symbexec` and `luaG_checkcode`.
use lua_reading.Prelude.{ℕ, zero, suc, ◌+◌, ◌-◌, Bool, false, not, ltb, ◌==◌, if◌then◌else◌, length}
use lua_reading.Proto.{Proto, info}
use lua_reading.Checker.Checks.{Outcome, pass, reject, fault, ◌>>=◌, ◌>>◌, at, precheck, no_reg}
use lua_reading.Checker.Switch.{step}

-- `for (pc = ...; pc < lastpc; pc++)`. Each round moves `pc` up, so `lastpc` rounds are enough.
unfoldable pub loop : ℕ → Proto → ℕ → ℕ → ℕ → ℕ → Outcome ℕ
loop zero f lastpc reg pc last = pass last
loop (suc fuel) f lastpc reg pc last =
    let round = step f lastpc reg pc last >>= λ r. loop fuel f lastpc reg (r.0 + 1) r.1 in
    if ltb pc lastpc then round else pass last

-- The instruction that last changed `reg`; a rejected function gives 0.
unfoldable pub symbexec : Proto → ℕ → ℕ → Outcome ℕ
symbexec f lastpc reg = do
  precheck (info f)
  last ← loop lastpc f lastpc reg 0 (length (info f).code - 1)
  at (info f).code last

-- `luaG_checkcode`
unfoldable pub checkcode : Proto → Bool
checkcode f = elim (symbexec f (length (info f).code) no_reg) [
  | pass i ↦ not (i == 0)
  | reject ↦ false
  | fault ↦ false
]
