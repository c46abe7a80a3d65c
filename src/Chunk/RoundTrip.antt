-- ===== src/Chunk/RoundTrip.antt =====
-- `luaU_undump` reads back what `luaU_dump` wrote: src/ldump.c against src/lundump.c.
use lua_reading.Prelude.{
  ℕ, zero, suc, ◌-◌, ◌^◌, ◌≤◌, ◌<◌, Bool, true, false, ◌||◌, Bool-cases, inl, inr, List, [], ◌∷◌,
  Option, none, some, length, All, ◌≡◌, refl, ap, arith,
}
use lua_reading.Proto.{Bytes, FuncInfo, Proto, proto, Protos, end, cons, sizep}
use lua_reading.Chunk.Header.{bytes_eq, header}
use lua_reading.Chunk.Dump.{kept, same_source}
use lua_reading.Chunk.Format.{
  start_blocks, debug_blocks, functions_blocks, function_blocks, chunk_blocks, written_source,
  constant_blocks, locvar_blocks, string_blocks, list_blocks,
}
use lua_reading.Chunk.Load.{
  bad_code, or_else, load_start, load_k, load_debug, to_protos, finish, load_function, load_header,
  undump, repeat, load_locvar, load_string, load_constant, unknown_source, max_ccalls,
}
use lua_reading.Chunk.Rules.{
  Loads, return-Loads, bind-Loads, last-Loads, raise_if-Loads, load_block-Loads, load_int-Loads,
  load_char-Loads, load_string-Loads, load_vector-Loads, load_code-Loads, repeat-Loads,
  load_constant-Loads, load_locvar-Loads, StringFits, ConstantFits, LocVarFits,
}
use lua_reading.Checker.Run.{checkcode}
use Prim.Native.Nat.{max}

-- What is left of a function after a dump and a load. `p` is the source of the enclosing function
-- when it was written, and `q` the one that it has now.
abbrev pub restored_info : Bool → Option Bytes → Option Bytes → FuncInfo → FuncInfo
restored_info strip p q f = record f {
  source = or_else (written_source strip f.source p) q;
  lineinfo = kept strip f.lineinfo;
  locvars = kept strip f.locvars;
  upvalues = kept strip f.upvalues;
}

abbrev mutual
  pub restored_all : Bool → Option Bytes → Option Bytes → Protos → Protos
  restored_all strip p q end = end
  restored_all strip p q (cons f ps) = cons (restored strip p q f) (restored_all strip p q ps)

  pub restored : Bool → Option Bytes → Option Bytes → Proto → Proto
  restored strip p q (proto f ps) =
      proto (restored_info strip p q f)
        (restored_all strip f.source (or_else (written_source strip f.source p) q) ps)

-- The values fit the fields of the format.
pub record InfoFits (f : FuncInfo) : Type 0 where
  pub source : StringFits f.source
  pub linedefined : f.linedefined < 2 ^ 31
  pub lastlinedefined : f.lastlinedefined < 2 ^ 31
  pub nups : f.nups < 256
  pub numparams : f.numparams < 256
  pub is_vararg : f.is_vararg < 256
  pub maxstacksize : f.maxstacksize < 256
  pub code : All (λ x. x < 2 ^ 32) f.code
  pub sizecode : length f.code < 2 ^ 31
  pub k : All ConstantFits f.k
  pub sizek : length f.k < 2 ^ 31
  pub lineinfo : All (λ x. x < 2 ^ 32) f.lineinfo
  pub sizelineinfo : length f.lineinfo < 2 ^ 31
  pub locvars : All LocVarFits f.locvars
  pub sizelocvars : length f.locvars < 2 ^ 31
  pub upvalues : All StringFits f.upvalues
  pub sizeupvalues : length f.upvalues < 2 ^ 31

-- At every level the values fit, and the checker accepts what is restored.
abbrev mutual
  pub FunctionsFit : Bool → Option Bytes → Option Bytes → Protos → Type 0
  FunctionsFit strip p q end = Unit {0}
  FunctionsFit strip p q (cons f ps) = FunctionFits strip p q f × FunctionsFit strip p q ps

  pub FunctionFits : Bool → Option Bytes → Option Bytes → Proto → Type 0
  FunctionFits strip p q (proto f ps) =
      InfoFits f
      × (sizep ps < 2 ^ 31)
      × FunctionsFit strip f.source (or_else (written_source strip f.source p) q) ps
      × (checkcode (restored strip p q (proto f ps)) ≡ true)

abbrev mutual
  pub depth_all : Protos → ℕ
  depth_all end = 0
  depth_all (cons f ps) = max (depth f) (depth_all ps)

  pub depth : Proto → ℕ
  depth (proto f ps) = suc (depth_all ps)

to_list : Protos → List Proto
to_list end = []
to_list (cons f ps) = f ∷ to_list ps

to_protos-to_list : (ps : Protos) → to_protos (to_list ps) ≡ ps
unfolding to_protos to_list
to_protos-to_list end = refl
to_protos-to_list (cons f ps) = ap (cons f) (to_protos-to_list ps)

module _ {A : Type 0} {P Q : A → Type 0} (weaken : (x : A) → P x → Q x) where
  All-map : (xs : List A) → All P xs → All Q xs
  All-map [] h = tt
  All-map (x ∷ xs) (hx, hs) = (weaken x hx, All-map xs hs)

-- Stripping keeps the bounds.
kept-All :
    {A : Type 0} (P : A → Type 0) (strip : Bool) (xs : List A) → All P xs → All P (kept strip xs)
unfolding kept
kept-All P true xs h = tt
kept-All P false xs h = h

length-kept : {A : Type 0} (strip : Bool) (xs : List A) → length (kept strip xs) ≤ length xs
unfolding kept
length-kept true xs = omega arith
length-kept false xs = omega arith

load_debug-Loads :
    (strip : Bool) (f : FuncInfo)
    → InfoFits f
    → Loads load_debug (debug_blocks strip f) (record {
      lineinfo = kept strip f.lineinfo;
      locvars = kept strip f.locvars;
      upvalues = kept strip f.upvalues;
    })
unfolding load_debug
load_debug-Loads strip f fits =
    bind-Loads _ (load_int-Loads _ (omega (arith, length-kept strip f.lineinfo, fits.sizelineinfo)))
      (bind-Loads _ (load_vector-Loads 4 _ (kept-All _ strip f.lineinfo fits.lineinfo)) (
        bind-Loads _
          (load_int-Loads _ (omega (arith, length-kept strip f.locvars, fits.sizelocvars)))
          (bind-Loads _ (repeat-Loads load_locvar locvar_blocks _ vars) (
            bind-Loads _
              (load_int-Loads _ (omega (arith, length-kept strip f.upvalues, fits.sizeupvalues)))
              (last-Loads _ (repeat-Loads load_string string_blocks _ names) (return-Loads _))))))
  where
    vars : All (λ v. Loads load_locvar (locvar_blocks v) v) (kept strip f.locvars)
    vars = All-map load_locvar-Loads _ (kept-All _ strip f.locvars fits.locvars)

    names : All (λ s. Loads load_string (string_blocks s) s) (kept strip f.upvalues)
    names = All-map load_string-Loads _ (kept-All _ strip f.upvalues fits.upvalues)

written_source-StringFits :
    (strip : Bool) (s p : Option Bytes) → StringFits s → StringFits (written_source strip s p)
written_source-StringFits strip s p h = elim (Bool-cases (same_source s p || strip)) [
  | inl e ↦ rw e tt
  | inr e ↦ rw e h
]

-- A function as LoadFunction holds it before its constants are read.
abbrev started : Bool → Option Bytes → Option Bytes → FuncInfo → FuncInfo
started strip p q f = record f {
  source = or_else (written_source strip f.source p) q;
  k = [];
  lineinfo = [];
  locvars = [];
  upvalues = [];
}

load_start-Loads :
    (strip : Bool) (p q : Option Bytes) (f : FuncInfo)
    → InfoFits f
    → Loads (load_start q) (start_blocks strip f p) (started strip p q f)
unfolding load_start
load_start-Loads strip p q f fits =
    let source = written_source-StringFits strip f.source p fits.source in
    bind-Loads _ (load_string-Loads (written_source strip f.source p) source) (
      bind-Loads _ (load_int-Loads _ fits.linedefined) (
        bind-Loads _ (load_int-Loads _ fits.lastlinedefined) (
          bind-Loads _ (load_char-Loads _ fits.nups) (
            bind-Loads _ (load_char-Loads _ fits.numparams) (
              bind-Loads _ (load_char-Loads _ fits.is_vararg) (
                bind-Loads _ (load_char-Loads _ fits.maxstacksize) (
                  last-Loads _ (load_code-Loads f.code fits.code fits.sizecode)
                    (return-Loads _))))))))

load_k-Loads : (f : FuncInfo) → InfoFits f → Loads load_k (list_blocks constant_blocks f.k) f.k
unfolding load_k
load_k-Loads f fits =
    bind-Loads _ (load_int-Loads _ fits.sizek)
      (repeat-Loads load_constant constant_blocks f.k (All-map load_constant-Loads f.k fits.k))

-- LoadFunction, given that the loop over the nested functions reads them.
load_function-Loads_step :
    (strip : Bool) (p q : Option Bytes) (room : ℕ) (f : FuncInfo) (ps : Protos)
    → FunctionFits strip p q (proto f ps)
    → let source = or_else (written_source strip f.source p) q in
      Loads
        (repeat (sizep ps) (load_function room source))
        (functions_blocks strip ps f.source)
        (to_list (restored_all strip f.source source ps))
      → Loads
          (load_function (suc room) q)
          (function_blocks strip (proto f ps) p)
          (restored strip p q (proto f ps))
unfolding load_function finish
load_function-Loads_step strip p q room f ps (fits, short, _, accepted) inner =
    let whole =
      to_protos-to_list
        (restored_all strip f.source (or_else (written_source strip f.source p) q) ps) in
    bind-Loads _ (load_start-Loads strip p q f fits) (
      bind-Loads _ (load_k-Loads f fits) (
        bind-Loads _ (load_int-Loads _ short) (
          bind-Loads _ inner (
            last-Loads _ (load_debug-Loads strip f fits) (
              rw whole
                (last-Loads _ (raise_if-Loads _ bad_code (rw accepted)) (return-Loads _)))))))

mutual
  unfolding repeat to_list

  load_functions-Loads :
      (strip : Bool) (ps : Protos) (p q : Option Bytes) (room : ℕ)
      → depth_all ps ≤ room
      → FunctionsFit strip p q ps
      → Loads
          (repeat (sizep ps) (load_function room q))
          (functions_blocks strip ps p)
          (to_list (restored_all strip p q ps))
  load_functions-Loads strip end p q room h fits = return-Loads []
  load_functions-Loads strip (cons f ps) p q room h (fit, fits) =
      bind-Loads _ (load_function-Loads strip f p q room (omega arith) fit)
        (last-Loads _ (load_functions-Loads strip ps p q room (omega arith) fits) (return-Loads _))

  load_function-Loads :
      (strip : Bool) (f : Proto) (p q : Option Bytes) (room : ℕ)
      → depth f ≤ room
      → FunctionFits strip p q f
      → Loads (load_function room q) (function_blocks strip f p) (restored strip p q f)
  load_function-Loads strip (proto f ps) p q zero h fits = absurd (omega arith)
  load_function-Loads strip (proto f ps) p q (suc room) h fits =
      load_function-Loads_step strip p q room f ps fits (
        load_functions-Loads strip ps f.source (or_else (written_source strip f.source p) q) room
          (omega arith) fits.2)

load_header-Loads : Loads load_header (header ∷ []) tt
unfolding load_header bytes_eq
load_header-Loads = last-Loads _ (load_block-Loads header) (return-Loads tt)

pub undump-Loads :
    (strip : Bool) (f : Proto) (calls : ℕ)
    → depth f ≤ max_ccalls - calls
    → FunctionFits strip none (some unknown_source) f
    → Loads (undump calls) (chunk_blocks strip f) (restored strip none (some unknown_source) f)
unfolding undump
undump-Loads strip f calls h fits =
    bind-Loads _ load_header-Loads
      (load_function-Loads strip f none (some unknown_source) (max_ccalls - calls) h fits)
