-- ===== src/Chunk/Whole.antt =====
-- A whole chunk written by src/ldump.c and read by src/lundump.c.
use lua_reading.Prelude.{
  ℕ, ◌-◌, ◌^◌, ◌≤◌, ◌<◌, Bool, true, false, [], ◌∷◌, ◌++◌, Option, none, some, ◌≡◌, ◌≢◌, refl, ap,
  ap₂, ◌∙◌, arith,
}
use lua_reading.Proto.{Bytes, Proto, proto, Protos, end, cons, sizep}
use lua_reading.Chunk.Header.{bytes_eq→eq}
use lua_reading.Chunk.Dump.{DumpState, kept, same_source, dump}
use lua_reading.Chunk.Format.{Blocks, chunk_blocks, written_source, write_blocks, dump-write_blocks}
use lua_reading.Chunk.Load.{ok, or_else, undump, unknown_source, max_ccalls}
use lua_reading.Chunk.Rules.{flat}
use lua_reading.Chunk.RoundTrip.{
  InfoFits, FunctionFits, FunctionsFit, restored, restored_all, depth, undump-Loads,
}
use lua_reading.Checker.Run.{checkcode}
use lua_reading.Stream.{Zio}
use lua_reading.Stream.Read.{stream}
use mathlib.Core.List.{append_assoc, append-nil}

-- A function that the format can hold and the loader accepts, at every level.
abbrev mutual
  pub AreStorable : Protos → Type 0
  AreStorable end = Unit {0}
  AreStorable (cons f ps) = IsStorable f × AreStorable ps

  pub IsStorable : Proto → Type 0
  IsStorable (proto f ps) =
      InfoFits f
      × (sizep ps < 2 ^ 31)
      × (f.source ≢ none)
      × AreStorable ps
      × (checkcode (proto f ps) ≡ true)

-- Between functions that are not stripped, a source that was left out is found again.
source_kept : (s p : Option Bytes) → s ≢ none → or_else (written_source false s p) p ≡ s
unfolding same_source
source_kept none p h = absurd (h refl)
source_kept (some s) none h = refl
source_kept (some s) (some p) h = ground (arith, bytes_eq→eq s p)

source_kept_top :
    (s : Option Bytes) (q : Option Bytes) → s ≢ none → or_else (written_source false s none) q ≡ s
unfolding same_source
source_kept_top none q h = absurd (h refl)
source_kept_top (some s) q h = refl

-- Nothing of a storable function is lost when it is not stripped.
mutual
  unfolding kept

  restored_all-eq :
      (ps : Protos) (p : Option Bytes) → AreStorable ps → restored_all false p p ps ≡ ps
  restored_all-eq end p h = refl
  restored_all-eq (cons f ps) p (hf, hs) = ap₂ cons (restored-eq f p hf) (restored_all-eq ps p hs)

  restored-eq : (f : Proto) (p : Option Bytes) → IsStorable f → restored false p p f ≡ f
  restored-eq (proto f ps) p (fits, short, known, inner, accepted) =
      rw (source_kept f.source p known, restored_all-eq ps f.source inner)

mutual
  unfolding kept

  all_storable-fit : (ps : Protos) (p : Option Bytes) → AreStorable ps → FunctionsFit false p p ps
  all_storable-fit end p h = tt
  all_storable-fit (cons f ps) p (hf, hs) = (storable-fits f p hf, all_storable-fit ps p hs)

  storable-fits : (f : Proto) (p : Option Bytes) → IsStorable f → FunctionFits false p p f
  storable-fits (proto f ps) p (fits, short, known, inner, accepted) =
      rw (source_kept f.source p known, restored_all-eq ps f.source inner)
        (fits, short, all_storable-fit ps f.source inner, accepted)

-- The outermost function, written with no enclosing source and read with the default one.
storable_top :
    (f : Proto) (q : Option Bytes)
    → IsStorable f
    → (restored false none q f ≡ f) × FunctionFits false none q f
unfolding kept
storable_top (proto f ps) q (fits, short, known, inner, accepted) =
    rw (source_kept_top f.source q known, restored_all-eq ps f.source inner)
      (refl, (fits, short, all_storable-fit ps f.source inner, accepted))

-- A writer that appends to a buffer, as `string.dump` uses one, and never fails.
collect : Bytes → Bytes → Bytes × ℕ
collect buffer b = (buffer ++ b, 0)

-- The bytes of a function's chunk.
pub chunk_of : Bool → Proto → Bytes
chunk_of strip f = (dump collect strip f []).sink

write_blocks-collect :
    (bs : Blocks) (w : Bytes)
    → write_blocks collect bs w ≡ record { sink = w ++ flat bs; status = 0 }
unfolding write_blocks collect
write_blocks-collect [] w = rw append-nil
write_blocks-collect (b ∷ bs) w = rw (write_blocks-collect bs (w ++ b), append_assoc)

chunk_of-flat : (strip : Bool) (f : Proto) → chunk_of strip f ≡ flat (chunk_blocks strip f)
unfolding chunk_of
chunk_of-flat strip f =
    ap (λ (d : DumpState Bytes). d.sink)
      (dump-write_blocks collect strip f [] ∙ write_blocks-collect (chunk_blocks strip f) [])

-- If a function fits the format and is accepted by the checker at every level, and its nesting leaves
-- room below LUAI_MAXCCALLS, then from a chunk dumped with its debug information, split into buffers
-- in any way, `luaU_undump` reads the same function, and it stops behind the chunk.
pub undump-dump :
    (f : Proto) (calls : ℕ) (z : Zio) (rest : Bytes)
    → IsStorable f
    → depth f ≤ max_ccalls - calls
    → stream z ≡ chunk_of false f ++ rest
    → (z' : Zio) × (undump calls z ≡ ok f z') × (stream z' ≡ rest)
undump-dump f calls z rest storable room e =
    let (same, fits) = storable_top f (some unknown_source) storable in
    let loads = rw same at (undump-Loads false f calls room fits) in
    loads.run z rest (rw (chunk_of-flat false f) at e)

-- A function that fits the format and is accepted without its debug information, nested so that
-- LUAI_MAXCCALLS leaves room, is read back from a chunk dumped with `strip` as the same function
-- without debug information and with the source "=?" at every level; the loader stops behind the
-- chunk.
pub undump-dump_stripped :
    (f : Proto) (calls : ℕ) (z : Zio) (rest : Bytes)
    → FunctionFits true none (some unknown_source) f
    → depth f ≤ max_ccalls - calls
    → stream z ≡ chunk_of true f ++ rest
    → (z' : Zio) × (undump calls z ≡ ok (restored true none (some unknown_source) f) z')
      × (stream z' ≡ rest)
undump-dump_stripped f calls z rest fits room e =
    (undump-Loads true f calls room fits).run z rest (rw (chunk_of-flat true f) at e)
