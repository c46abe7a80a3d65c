-- ===== src/Chunk/Format.antt =====
-- The chunk format: the blocks that a function is written as, one to a call of the writer, and that
-- src/ldump.c hands over just these, up to the first that the writer refuses.
use lua_reading.Prelude.{
  ℕ, ◌+◌, Bool, false, ◌||◌, ◌==◌, if◌then◌else◌, List, [], ◌∷◌, ◌++◌, Option, none, some, length,
  ◌≡◌, refl, ◌∙◌, Bool-cases, ==_iff, inl, inr,
}
use lua_reading.Proto.{
  Bytes, Constant, nil, boolean, number, string, LocVar, FuncInfo, Proto, proto, Protos, end, cons,
  sizep,
}
use lua_reading.Chunk.Header.{
  sizeof_int, sizeof_size_t, sizeof_instruction, sizeof_number, to_memory, header,
}
use lua_reading.Chunk.Dump.{
  DumpState, vector_bytes, type_tag, bvalue, same_source, dump_block, dump_char, dump_int,
  dump_number, dump_vector, dump_string, dump_code, dump_value, dump_each, dump_locvars, dump_names,
  kept, dump_debug, dump_constants, dump_start, dump_functions, dump_function, dump_header, dump,
}

abbrev pub Blocks : Type 0
Blocks = List Bytes

abbrev pub int_blocks : ℕ → Blocks
int_blocks x = to_memory sizeof_int x ∷ []

abbrev pub char_blocks : ℕ → Blocks
char_blocks x = to_memory 1 x ∷ []

abbrev pub string_blocks : Option Bytes → Blocks
string_blocks none = to_memory sizeof_size_t 0 ∷ []
string_blocks (some s) = to_memory sizeof_size_t (length s + 1) ∷ (s ++ 0 ∷ []) ∷ []

abbrev pub vector_blocks : ℕ → List ℕ → Blocks
vector_blocks size xs = to_memory sizeof_int (length xs) ∷ vector_bytes size xs ∷ []

abbrev pub value_blocks : Constant → Blocks
value_blocks nil = []
value_blocks (boolean b) = char_blocks (bvalue b)
value_blocks (number x) = to_memory sizeof_number x ∷ []
value_blocks (string s) = string_blocks s

-- The elements of a list, one after the other.
abbrev pub each : {A : Type 0} → (A → Blocks) → List A → Blocks
each f [] = []
each f (x ∷ xs) = f x ++ each f xs

abbrev pub constant_blocks : Constant → Blocks
constant_blocks o = char_blocks (type_tag o) ++ value_blocks o

abbrev pub locvar_blocks : LocVar → Blocks
locvar_blocks v = string_blocks v.varname ++ (int_blocks v.startpc ++ int_blocks v.endpc)

abbrev pub list_blocks : {A : Type 0} → (A → Blocks) → List A → Blocks
list_blocks f xs = int_blocks (length xs) ++ each f xs

abbrev pub debug_blocks : Bool → FuncInfo → Blocks
debug_blocks strip f =
    vector_blocks sizeof_int (kept strip f.lineinfo)
    ++ (list_blocks locvar_blocks (kept strip f.locvars)
        ++ list_blocks string_blocks (kept strip f.upvalues))

-- The source of a function, which is left out if it is that of the enclosing one.
abbrev pub written_source : Bool → Option Bytes → Option Bytes → Option Bytes
written_source strip source p = if same_source source p || strip then none else source

abbrev pub start_blocks : Bool → FuncInfo → Option Bytes → Blocks
start_blocks strip f p =
    string_blocks (written_source strip f.source p)
    ++ (int_blocks f.linedefined
        ++ (int_blocks f.lastlinedefined
            ++ (char_blocks f.nups
                ++ (char_blocks f.numparams
                    ++ (char_blocks f.is_vararg
                        ++ (char_blocks f.maxstacksize
                            ++ vector_blocks sizeof_instruction f.code))))))

abbrev mutual
  pub functions_blocks : Bool → Protos → Option Bytes → Blocks
  functions_blocks strip end p = []
  functions_blocks strip (cons f ps) p = function_blocks strip f p ++ functions_blocks strip ps p

  pub function_blocks : Bool → Proto → Option Bytes → Blocks
  function_blocks strip (proto f ps) p =
      start_blocks strip f p
      ++ (list_blocks constant_blocks f.k
          ++ (int_blocks (sizep ps)
              ++ (functions_blocks strip ps f.source ++ debug_blocks strip f)))

-- The whole chunk.
abbrev pub chunk_blocks : Bool → Proto → Blocks
chunk_blocks strip f = header ∷ function_blocks strip f none

module _ {W : Type 0} (writer : W → Bytes → W × ℕ) where
  feed : Blocks → DumpState W → DumpState W
  feed [] d = d
  feed (b ∷ bs) d = feed bs (dump_block writer b d)

  feed-append : (cs bs : Blocks) (d : DumpState W) → feed (cs ++ bs) d ≡ feed bs (feed cs d)
  unfolding feed
  feed-append [] bs d = refl
  feed-append (c ∷ cs) bs d = feed-append cs bs (dump_block writer c d)

  dump_string-feed :
      (s : Option Bytes) (d : DumpState W) → dump_string writer s d ≡ feed (string_blocks s) d
  unfolding feed dump_string
  dump_string-feed none d = refl
  dump_string-feed (some s) d = refl

  dump_value-feed :
      (o : Constant) (d : DumpState W) → dump_value writer o d ≡ feed (value_blocks o) d
  unfolding feed dump_value dump_char dump_number
  dump_value-feed nil d = refl
  dump_value-feed (boolean b) d = refl
  dump_value-feed (number x) d = refl
  dump_value-feed (string s) d = dump_string-feed s d

  dump_each-feed :
      (k : List Constant) (d : DumpState W) → dump_each writer k d ≡ feed (each constant_blocks k) d
  unfolding feed dump_each dump_char
  dump_each-feed [] d = refl
  dump_each-feed (o ∷ k) d =
      rw (feed-append, ← dump_value-feed o (dump_char writer (type_tag o) d))
        (dump_each-feed k (dump_value writer o (dump_char writer (type_tag o) d)))

  dump_locvars-feed :
      (vs : List LocVar) (d : DumpState W)
      → dump_locvars writer vs d ≡ feed (each locvar_blocks vs) d
  unfolding feed dump_locvars dump_int
  dump_locvars-feed [] d = refl
  dump_locvars-feed (v ∷ vs) d =
      let d' =
        dump_int writer v.endpc (dump_int writer v.startpc (dump_string writer v.varname d)) in
      rw (dump_locvars-feed vs d') (simp (feed-append, dump_string-feed))

  dump_names-feed :
      (us : List (Option Bytes)) (d : DumpState W)
      → dump_names writer us d ≡ feed (each string_blocks us) d
  unfolding feed dump_names
  dump_names-feed [] d = refl
  dump_names-feed (u ∷ us) d =
      rw (feed-append, ← dump_string-feed u d) (dump_names-feed us (dump_string writer u d))

  module _ (strip : Bool) where
    dump_start-feed :
        (f : FuncInfo) (p : Option Bytes) (d : DumpState W)
        → dump_start writer strip f p d ≡ feed (start_blocks strip f p) d
    unfolding feed dump_start dump_int dump_char dump_code dump_vector
    dump_start-feed f p d = simp (feed-append, dump_string-feed)

    dump_debug-feed :
        (f : FuncInfo) (d : DumpState W)
        → dump_debug writer strip f d ≡ feed (debug_blocks strip f) d
    unfolding feed dump_debug dump_int dump_vector
    dump_debug-feed f d = simp (feed-append, dump_locvars-feed, dump_names-feed)

    mutual
      unfolding feed dump_function dump_constants dump_int

      dump_functions-feed :
          (ps : Protos) (p : Option Bytes) (d : DumpState W)
          → dump_functions writer strip ps p d ≡ feed (functions_blocks strip ps p) d
      dump_functions-feed end p d = refl
      dump_functions-feed (cons f ps) p d =
          rw (feed-append, ← dump_function-feed f p d)
            (dump_functions-feed ps p (dump_function writer strip f p d))

      dump_function-feed :
          (f : Proto) (p : Option Bytes) (d : DumpState W)
          → dump_function writer strip f p d ≡ feed (function_blocks strip f p) d
      dump_function-feed (proto f ps) p d =
          let d' =
            dump_int writer (sizep ps) (dump_constants writer f (dump_start writer strip f p d)) in
          rw (dump_functions-feed ps f.source d')
            (simp (feed-append, dump_debug-feed, dump_each-feed, dump_start-feed))

-- What the writer makes of a list of blocks: it is called on them in order, and not again once it
-- has answered with a status other than 0.
unfoldable pub write_blocks : {W : Type 0} → (W → Bytes → W × ℕ) → Blocks → W → DumpState W
write_blocks writer [] sink = record { sink = sink; status = 0 }
write_blocks writer (b ∷ bs) sink =
    let (sink', status) = writer sink b in
    let rest = write_blocks writer bs sink' in
    if status == 0 then rest else record { sink = sink'; status = status }

module _ {W : Type 0} (writer : W → Bytes → W × ℕ) where
  feed_stopped : (bs : Blocks) (d : DumpState W) → (d.status == 0) ≡ false → feed writer bs d ≡ d
  unfolding feed dump_block
  feed_stopped [] d h = refl
  feed_stopped (b ∷ bs) d h = rw h (feed_stopped bs d h)

  feed-write_blocks :
      (bs : Blocks) (sink : W)
      → feed writer bs (record { sink = sink; status = 0 }) ≡ write_blocks writer bs sink
  unfolding feed write_blocks dump_block
  feed-write_blocks [] sink = refl
  feed-write_blocks (b ∷ bs) sink = elim (Bool-cases ((writer sink b).1 == 0)) [
    | inl e ↦ rw ((==_iff _ 0).0 e) (feed-write_blocks bs (writer sink b).0)
    | inr e ↦ rw e (feed_stopped bs _ e)
  ]

  -- `luaU_dump` hands the writer the blocks of the chunk in order and stops at the first that it
  -- refuses, whose status it returns; with no refusal the status is 0.
  pub dump-write_blocks :
      (strip : Bool) (f : Proto) (sink : W)
      → dump writer strip f sink ≡ write_blocks writer (chunk_blocks strip f) sink
  unfolding dump dump_header feed write_blocks
  dump-write_blocks strip f sink =
      dump_function-feed writer strip f none _ ∙ feed-write_blocks (chunk_blocks strip f) sink
