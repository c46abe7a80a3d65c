-- ===== src/Tests/Chunks.antt =====
-- Chunks written and read back.
use lua_reading.Prelude.{[], ◌∷◌, ◌≡◌, refl, arith, some, none, false, true}
use lua_reading.Proto.{Bytes}
use lua_reading.Chunk.Dump.{kept, same_source}
use lua_reading.Stream.{Zio}
use lua_reading.Stream.Read.{stream}
use lua_reading.Chunk.Load.{ok, err, bad_header, undump, unknown_source}
use lua_reading.Chunk.RoundTrip.{restored, FunctionFits}
use lua_reading.Chunk.Whole.{IsStorable, chunk_of, undump-dump, undump-dump_stripped}
use lua_reading.Chunk.Reject.{undump_bad_header, undump-IsAccepted, IsAccepted}
use lua_reading.Tests.Samples.{sample, sample_accepted, inner_accepted, checker}

sample-IsStorable : IsStorable sample
sample-IsStorable = (
  omega arith,
  omega arith,
  (λ e. cc),
  ((omega arith, omega arith, (λ e. cc), tt, inner_accepted), tt),
  sample_accepted,
)

-- The chunk in one buffer, and a byte that follows it in another.
abbrev followed : Bytes → Zio
followed chunk = record { buffer = chunk; answers = (7 ∷ []) ∷ [] }

undump-dump_example :
    (z' : Zio) × (undump 0 (followed (chunk_of false sample)) ≡ ok sample z') × (stream z' ≡ 7 ∷ [])
undump-dump_example =
    undump-dump sample 0 (followed (chunk_of false sample)) (7 ∷ []) sample-IsStorable (omega arith)
      refl

stripped : Unit {0}
unfolding checker kept same_source
stripped = tt

sample_stripped : FunctionFits true none (some unknown_source) sample
unfolding stripped
sample_stripped = (omega arith, omega arith, ((omega arith, omega arith, tt, refl), tt), refl)

undump-dump_stripped_example :
    (z' : Zio) × (undump 0 (followed (chunk_of true sample))
      ≡ ok (restored true none (some unknown_source) sample) z')
    × (stream z' ≡ 7 ∷ [])
undump-dump_stripped_example =
    undump-dump_stripped sample 0 (followed (chunk_of true sample)) (7 ∷ []) sample_stripped
      (omega arith) refl

undump-IsAccepted_example : IsAccepted sample
undump-IsAccepted_example =
    undump-IsAccepted 0 (followed (chunk_of false sample)) undump-dump_example.0 sample
      undump-dump_example.1

-- A text file is no chunk.
abbrev text : Zio
text = record {
  buffer =
      b'p' ∷ b'r' ∷ b'i' ∷ b'n' ∷ b't' ∷ b' ' ∷ b'"' ∷ b'h' ∷ b'e' ∷ b'l' ∷ b'l' ∷ b'o' ∷ b'"' ∷ [];
  answers = [];
}

undump_bad_header_example : undump 0 text ≡ err bad_header
undump_bad_header_example = undump_bad_header 0 text (omega arith) (λ e. cc)
