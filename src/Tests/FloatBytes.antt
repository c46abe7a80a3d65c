-- ===== src/Tests/FloatBytes.antt =====
-- Table sizes, src/lobject.c.
use lua_reading.Prelude.{ℕ, ◌≡◌, some, none, ◌*◌, ◌^◌, ◌+◌, ◌≤◌, ◌<◌, refl, arith}
use lua_reading.Prelude.Int.{pos}
use lua_reading.FloatByte.{round_up, int2fb, fb2int, fb2int-int2fb}
use lua_reading.Logarithm.{log2_loop, log2}

fb2int-int2fb_example : (int2fb 1000 < 256) × (v : ℕ) × (fb2int (int2fb 1000) ≡ some v) × (1000 ≤ v)
fb2int-int2fb_example = fb2int-int2fb 1000 (omega arith)

thousand_rounded : fb2int (int2fb 1000) ≡ some 1024
unfolding fb2int int2fb round_up
thousand_rounded = refl

-- One more than the bound, and the result leaves the range of int.
too_large : fb2int (int2fb (15 * 2 ^ 27 + 1)) ≡ none
unfolding fb2int int2fb round_up
too_large = refl

log2_of_70000 : log2 70000 ≡ pos 16
unfolding log2 log2_loop
log2_of_70000 = refl
