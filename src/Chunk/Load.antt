-- ===== src/Chunk/Load.antt =====
-- src/lundump.c: a precompiled chunk read back. `err` is a thrown LUA_ERRSYNTAX with the reason that
-- `error` prints. Memory is not modelled: an allocation succeeds, and no anchor is needed on the
-- stack. The state is the input stream; the count of nested C calls is an argument.
use lua_reading.Prelude.{
  ℕ, zero, suc, ◌-◌, ◌*◌, ◌^◌, Bool, true, false, not, leb, ◌==◌, if◌then◌else◌, List, [], ◌∷◌,
  Option, none, some, take, drop,
}
use lua_reading.Proto.{
  Bytes, Constant, nil, boolean, number, string, LocVar, FuncInfo, Proto, proto, Protos, end, cons,
}
use lua_reading.Chunk.Header.{
  sizeof_int, sizeof_size_t, sizeof_instruction, sizeof_number, luac_headersize, of_memory, header,
  bytes_eq,
}
use lua_reading.Stream.{Zio, read}
use lua_reading.Checker.Run.{checkcode}

pub data Error : Type 0 where
  unexpected_end bad_integer bad_constant code_too_deep bad_code bad_header : Error

pub data Result (A : Type 0) : Type 0 where
  ok : A → Zio → Result A
  err : Error → Result A

-- A step of the loader.
abbrev pub M : Type 0 → Type 0
M A = Zio → Result A

infixl 5 ◌>>=◌ ◌>>◌
unfoldable pub ◌>>=◌ : {A B : Type 0} → M A → (A → M B) → M B
◌>>=◌ m f z = elim (m z) [ ok a z' ↦ f a z' | err e ↦ err e ]

abbrev pub ◌>>◌ : {B : Type 0} → M (Unit {0}) → M B → M B
m >> k = m >>= λ _. k

abbrev pub return : {A : Type 0} → A → M A
return a z = ok a z

abbrev pub error : {A : Type 0} → Error → M A
error e z = err e

-- `IF(c,s)`
abbrev pub raise_if : Bool → Error → M (Unit {0})
raise_if true e = error e
raise_if false e = return tt

unfoldable pub load_block : ℕ → M Bytes
load_block size z =
    let r = read size z in if r.missing == 0 then ok r.bytes r.zio else err unexpected_end

-- `LoadVar` of an object of `size` bytes
unfoldable pub load_var : ℕ → M ℕ
load_var size = do b ← load_block size; return (of_memory b)

-- A `char` is given by its byte; the code tests only whether it is 0 to 4.
unfoldable pub load_char : M ℕ
load_char = load_var 1

unfoldable pub load_int : M ℕ
load_int = do x ← load_var sizeof_int; raise_if (leb (2 ^ 31) x) bad_integer; return x

unfoldable pub load_number : M ℕ
load_number = load_var sizeof_number

-- The last byte, a '\0', is dropped.
unfoldable pub load_string : M (Option Bytes)
load_string = do
  size ← load_var sizeof_size_t
  elim (size == 0) [
    | true ↦ return none
    | false ↦ do s ← load_block size; return (some (take (size - 1) s))
  ]

-- A block as `n` objects of `size` bytes.
unfoldable pub vector_of : ℕ → ℕ → Bytes → List ℕ
vector_of size zero b = []
vector_of size (suc n) b = of_memory (take size b) ∷ vector_of size n (drop size b)

unfoldable pub load_vector : ℕ → ℕ → M (List ℕ)
load_vector n size = do b ← load_block (n * size); return (vector_of size n b)

unfoldable pub load_code : M (List ℕ)
load_code = do n ← load_int; load_vector n sizeof_instruction

-- `for (i=0; i<n; i++) a[i] = …`
unfoldable pub repeat : {A : Type 0} → ℕ → M A → M (List A)
repeat zero m = return []
repeat (suc n) m = do x ← m; xs ← repeat n m; return (x ∷ xs)

-- The switch on a constant's tag: LUA_TNIL, LUA_TBOOLEAN, LUA_TNUMBER, LUA_TSTRING.
unfoldable pub load_tagged : ℕ → M Constant
load_tagged t =
    if t == 0
    then return nil
    else if t == 1
    then (do b ← load_char; return (boolean (not (b == 0))))
    else if t == 3
    then (do x ← load_number; return (number x))
    else if t == 4
    then (do s ← load_string; return (string s))
    else error bad_constant

unfoldable pub load_constant : M Constant
load_constant = do t ← load_char; load_tagged t

unfoldable pub load_locvar : M LocVar
load_locvar = do
  name ← load_string
  start ← load_int
  finish ← load_int
  return (record { varname = name; startpc = start; endpc = finish })

-- The first part of LoadConstants.
unfoldable pub load_k : M (List Constant)
load_k = do n ← load_int; repeat n load_constant

-- What LoadDebug fills in.
pub record Debug : Type 0 where
  pub lineinfo : List ℕ
  pub locvars : List LocVar
  pub upvalues : List (Option Bytes)

unfoldable pub load_debug : M Debug
load_debug = do
  n ← load_int
  lines ← load_vector n sizeof_int
  m ← load_int
  vars ← repeat m load_locvar
  u ← load_int
  names ← repeat u load_string
  return (record { lineinfo = lines; locvars = vars; upvalues = names })

abbrev pub or_else : Option Bytes → Option Bytes → Option Bytes
or_else none p = p
or_else (some s) p = some s

-- The fields that LoadFunction reads up to LoadCode, with the default for the source.
unfoldable pub load_start : Option Bytes → M FuncInfo
load_start p = do
  s ← load_string
  line ← load_int
  last ← load_int
  nups ← load_char
  numparams ← load_char
  is_vararg ← load_char
  maxstacksize ← load_char
  code ← load_code
  return (record {
    source = or_else s p;
    linedefined = line;
    lastlinedefined = last;
    nups = nups;
    numparams = numparams;
    is_vararg = is_vararg;
    maxstacksize = maxstacksize;
    code = code;
    k = [];
    lineinfo = [];
    locvars = [];
    upvalues = [];
  })

unfoldable pub to_protos : List Proto → Protos
to_protos [] = end
to_protos (f ∷ fs) = cons f (to_protos fs)

-- The code after the nested functions are read.
unfoldable pub finish : FuncInfo → List Constant → List Proto → Debug → Proto
finish f k ps d =
    let f' = record f {
      k = k;
      lineinfo = d.lineinfo;
      locvars = d.locvars;
      upvalues = d.upvalues;
    } in
    proto f' (to_protos ps)

-- `room` is LUAI_MAXCCALLS less `nCcalls`, the number of nested calls that may still be made.
unfoldable pub load_function : ℕ → Option Bytes → M Proto
load_function zero p = error code_too_deep
load_function (suc room) p = do
  f ← load_start p
  k ← load_k
  n ← load_int
  ps ← repeat n (load_function room f.source)
  d ← load_debug
  raise_if (not (checkcode (finish f k ps d))) bad_code
  return (finish f k ps d)

unfoldable pub load_header : M (Unit {0})
load_header = do s ← load_block luac_headersize; raise_if (not (bytes_eq header s)) bad_header

abbrev pub max_ccalls : ℕ
max_ccalls = 200

-- `luaS_newliteral(L,"=?")`
abbrev pub unknown_source : Bytes
unknown_source = b'=' ∷ b'?' ∷ []

-- `luaU_undump`, called with `nCcalls` at `calls`
unfoldable pub undump : ℕ → M Proto
undump calls = do load_header; load_function (max_ccalls - calls) (some unknown_source)
