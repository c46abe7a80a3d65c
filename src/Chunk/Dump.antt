-- ===== src/Chunk/Dump.antt =====
-- src/ldump.c: a function written as a precompiled chunk. The writer is a callback of the host: it
-- takes its own data and a block, and answers with the new data and a status, 0 for success.
use lua_reading.Prelude.{
  ℕ, ◌+◌, Bool, true, false, ◌||◌, ◌==◌, if◌then◌else◌, List, [], ◌∷◌, ◌++◌, Option, none, some,
  length,
}
use lua_reading.Proto.{
  Bytes, Constant, nil, boolean, number, string, LocVar, FuncInfo, Proto, proto, Protos, end, cons,
  sizep,
}
use lua_reading.Chunk.Header.{
  sizeof_int, sizeof_size_t, sizeof_instruction, sizeof_number, to_memory, header, bytes_eq,
}

pub record DumpState (W : Type 0) : Type 0 where
  pub sink : W
  pub status : ℕ

-- The contents of a vector of `n` objects of `size` bytes.
unfoldable pub vector_bytes : ℕ → List ℕ → Bytes
vector_bytes size [] = []
vector_bytes size (x ∷ xs) = to_memory size x ++ vector_bytes size xs

-- LUA_TNIL, LUA_TBOOLEAN, LUA_TNUMBER, LUA_TSTRING
abbrev pub type_tag : Constant → ℕ
type_tag nil = 0
type_tag (boolean b) = 1
type_tag (number n) = 3
type_tag (string s) = 4

abbrev pub bvalue : Bool → ℕ
bvalue true = 1
bvalue false = 0

-- `f->source==p`, on pointers to interned strings
unfoldable pub same_source : Option Bytes → Option Bytes → Bool
same_source none none = true
same_source none (some p) = false
same_source (some s) none = false
same_source (some s) (some p) = bytes_eq s p

-- `n = (D->strip) ? 0 : f->size…`
unfoldable pub kept : {A : Type 0} → Bool → List A → List A
kept strip xs = if strip then [] else xs

module _ {W : Type 0} (writer : W → Bytes → W × ℕ) where
  unfoldable pub dump_block : Bytes → DumpState W → DumpState W
  dump_block b d =
      let (sink, status) = writer d.sink b in
      if d.status == 0 then record { sink = sink; status = status } else d

  unfoldable pub dump_char : ℕ → DumpState W → DumpState W
  dump_char y = dump_block (to_memory 1 y)

  unfoldable pub dump_int : ℕ → DumpState W → DumpState W
  dump_int x = dump_block (to_memory sizeof_int x)

  unfoldable pub dump_number : ℕ → DumpState W → DumpState W
  dump_number x = dump_block (to_memory sizeof_number x)

  unfoldable pub dump_vector : List ℕ → ℕ → DumpState W → DumpState W
  dump_vector b size d = dump_block (vector_bytes size b) (dump_int (length b) d)

  unfoldable pub dump_string : Option Bytes → DumpState W → DumpState W
  dump_string none d = dump_block (to_memory sizeof_size_t 0) d
  dump_string (some s) d =
      dump_block (s ++ 0 ∷ []) (dump_block (to_memory sizeof_size_t (length s + 1)) d)

  unfoldable pub dump_code : FuncInfo → DumpState W → DumpState W
  dump_code f = dump_vector f.code sizeof_instruction

  unfoldable pub dump_value : Constant → DumpState W → DumpState W
  dump_value nil d = d
  dump_value (boolean b) d = dump_char (bvalue b) d
  dump_value (number x) d = dump_number x d
  dump_value (string s) d = dump_string s d

  unfoldable pub dump_each : List Constant → DumpState W → DumpState W
  dump_each [] d = d
  dump_each (o ∷ k) d = dump_each k (dump_value o (dump_char (type_tag o) d))

  unfoldable pub dump_locvars : List LocVar → DumpState W → DumpState W
  dump_locvars [] d = d
  dump_locvars (v ∷ vs) d =
      dump_locvars vs (dump_int v.endpc (dump_int v.startpc (dump_string v.varname d)))

  unfoldable pub dump_names : List (Option Bytes) → DumpState W → DumpState W
  dump_names [] d = d
  dump_names (u ∷ us) d = dump_names us (dump_string u d)

  unfoldable pub dump_header : DumpState W → DumpState W
  dump_header = dump_block header

  -- DumpConstants up to the nested functions.
  unfoldable pub dump_constants : FuncInfo → DumpState W → DumpState W
  dump_constants f d = dump_each f.k (dump_int (length f.k) d)

module _ {W : Type 0} (writer : W → Bytes → W × ℕ) (strip : Bool) where
  unfoldable pub dump_debug : FuncInfo → DumpState W → DumpState W
  dump_debug f d =
      let d1 = dump_vector writer (kept strip f.lineinfo) sizeof_int d in
      let d2 =
        dump_locvars writer (kept strip f.locvars)
          (dump_int writer (length (kept strip f.locvars)) d1) in
      dump_names writer (kept strip f.upvalues)
        (dump_int writer (length (kept strip f.upvalues)) d2)

  -- DumpFunction up to DumpCode.
  unfoldable pub dump_start : FuncInfo → Option Bytes → DumpState W → DumpState W
  dump_start f p d =
      let source = if same_source f.source p || strip then none else f.source in
      let d1 =
        dump_int writer f.lastlinedefined
          (dump_int writer f.linedefined (dump_string writer source d)) in
      let d2 =
        dump_char writer f.is_vararg (dump_char writer f.numparams (dump_char writer f.nups d1)) in
      dump_code writer f (dump_char writer f.maxstacksize d2)

  unfoldable mutual
    -- The end of DumpConstants: the nested functions, `p` being the source of theirs.
    pub dump_functions : Protos → Option Bytes → DumpState W → DumpState W
    dump_functions end p d = d
    dump_functions (cons f ps) p d = dump_functions ps p (dump_function f p d)

    pub dump_function : Proto → Option Bytes → DumpState W → DumpState W
    dump_function (proto f ps) p d = dump_debug f (
        dump_functions ps f.source
          (dump_int writer (sizep ps) (dump_constants writer f (dump_start f p d))))

  -- `luaU_dump`: the status, and what the writer made of its data.
  unfoldable pub dump : Proto → W → DumpState W
  dump f sink = dump_function f none (dump_header writer (record { sink = sink; status = 0 }))
