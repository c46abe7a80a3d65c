-- ===== src/Stream.antt =====
-- src/lzio.c: buffered input. A `Zio` is the unread part of the current buffer (`p` and `n`) and
-- what the reader, a callback of the host, will answer: a list of buffers, in order. An empty
-- answer stands for NULL or size 0, and so does the end of the list.
pub mod Read
use lua_reading.Prelude.{
  ℕ, zero, suc, ◌-◌, List, [], ◌∷◌, ◌++◌, Option, none, some, length, take, drop, min,
}

pub record Zio : Type 0 where
  pub buffer : List ℕ
  pub answers : List (List ℕ)

-- `luaZ_init`
unfoldable pub init : List (List ℕ) → Zio
init answers = record { buffer = []; answers = answers }

fill_from : List (List ℕ) → Zio → Option ℕ × Zio
fill_from [] z = (none, z)
fill_from ([] ∷ answers) z = (none, record z { answers = answers })
fill_from ((c ∷ p) ∷ answers) z = (some c, record { buffer = p; answers = answers })

-- `luaZ_fill`; `none` is EOZ.
fill : Zio → Option ℕ × Zio
unfolding fill_from
fill z = fill_from z.answers z

-- `z->n++; z->p--` after a fill.
put_back : Option ℕ × Zio → Option ℕ × Zio
put_back (none, z) = (none, z)
put_back (some c, z) = (some c, record z { buffer = c ∷ z.buffer })

lookahead_from : List ℕ → Zio → Option ℕ × Zio
unfolding fill put_back
lookahead_from [] z = put_back (fill z)
lookahead_from (c ∷ p) z = (some c, z)

-- `luaZ_lookahead`
lookahead : Zio → Option ℕ × Zio
unfolding lookahead_from
lookahead z = lookahead_from z.buffer z

-- What `luaZ_read` leaves: the bytes copied to `b`, the count of missing bytes, and the stream.
pub record Transfer : Type 0 where
  pub bytes : List ℕ
  pub missing : ℕ
  pub zio : Zio

-- The loop of `luaZ_read`; each round copies a byte at least, so `n` rounds are enough.
read_loop : ℕ → ℕ → Zio → Transfer
read_loop fuel zero z = record { bytes = []; missing = 0; zio = z }
read_loop zero (suc n) z = record { bytes = []; missing = suc n; zio = z }
read_loop (suc fuel) (suc n) z =
    let (found, z') = lookahead z in
    elim found [
      | none ↦ record { bytes = []; missing = suc n; zio = z' }
      | some c ↦
          let m = min (suc n) (length z'.buffer) in
          let rest = read_loop fuel (suc n - m) (record z' { buffer = drop m z'.buffer }) in
          record rest { bytes = take m z'.buffer ++ rest.bytes }
    ]

-- `luaZ_read`
unfoldable pub read : ℕ → Zio → Transfer
unfolding read_loop lookahead
read n z = read_loop n n z
