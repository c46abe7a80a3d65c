-- ===== src/Proto.antt =====
-- src/lobject.h: function prototypes, what the precompiler writes and the checker inspects.
-- A `TString *` that may be NULL is an `Option` of the string's bytes; strings are interned, so
-- equal bytes mean equal pointers. A `lua_Number` is its 64-bit pattern. A size field such as
-- `sizek` is the length of its list.
use lua_reading.Prelude.{ℕ, zero, suc, Bool, List, Option, none, some}

abbrev pub Bytes : Type 0
Bytes = List ℕ

-- The constants that a function can hold; a string constant that was loaded may be NULL.
pub data Constant : Type 0 where
  nil : Constant
  boolean : Bool → Constant
  number : ℕ → Constant
  string : Option Bytes → Constant

pub record LocVar : Type 0 where
  pub varname : Option Bytes
  pub startpc : ℕ
  pub endpc : ℕ

-- The fields of a `Proto` but for the nested functions.
pub record FuncInfo : Type 0 where
  pub source : Option Bytes
  pub linedefined : ℕ
  pub lastlinedefined : ℕ
  pub nups : ℕ
  pub numparams : ℕ
  pub is_vararg : ℕ
  pub maxstacksize : ℕ
  pub code : List ℕ
  pub k : List Constant
  pub lineinfo : List ℕ
  pub locvars : List LocVar
  pub upvalues : List (Option Bytes)

-- `p` is the array of nested functions.
mutual
  pub data Proto : Type 0 where
    proto : FuncInfo → Protos → Proto

  pub data Protos : Type 0 where
    end : Protos
    cons : Proto → Protos → Protos

abbrev pub info : Proto → FuncInfo
info (proto h ps) = h

abbrev pub nested : Proto → Protos
nested (proto h ps) = ps

abbrev pub sizep : Protos → ℕ
sizep end = 0
sizep (cons f ps) = suc (sizep ps)

abbrev pub proto_at : Protos → ℕ → Option Proto
proto_at end i = none
proto_at (cons f ps) zero = some f
proto_at (cons f ps) (suc i) = proto_at ps i
