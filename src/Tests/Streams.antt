-- ===== src/Tests/Streams.antt =====
-- Reads across buffers, and a chunk written to a sink of bytes.
use lua_reading.Prelude.{ℕ, [], ◌∷◌, ◌+◌, ◌==◌, if◌then◌else◌, ◌≡◌, false, zero}
use lua_reading.Proto.{Bytes}
use lua_reading.Stream.{Zio, read}
use lua_reading.Stream.Read.{Delivers, read-Delivers}
use lua_reading.Chunk.Dump.{dump}
use lua_reading.Chunk.Format.{chunk_blocks, write_blocks, dump-write_blocks}
use lua_reading.Tests.Samples.{sample}

abbrev buffers : Zio
buffers = record { buffer = 1 ∷ []; answers = (2 ∷ 3 ∷ []) ∷ (4 ∷ 5 ∷ []) ∷ [] ∷ [] }

read-Delivers_example : Delivers 4 (1 ∷ 2 ∷ 3 ∷ 4 ∷ 5 ∷ []) (read 4 buffers)
read-Delivers_example = read-Delivers 4 buffers

-- A writer that counts the blocks it takes and refuses the third.
abbrev refuse_third : ℕ → Bytes → ℕ × ℕ
refuse_third n bytes = if n == 2 then (1, n) else (0, n + 1)

dump-write_blocks_example :
    dump refuse_third false sample zero ≡ write_blocks refuse_third (chunk_blocks false sample) zero
dump-write_blocks_example = dump-write_blocks refuse_third false sample zero
