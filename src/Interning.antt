-- ===== src/Interning.antt =====
-- src/lstring.c: the table of all strings. A string object is known by its address; chains of `next`
-- pointers are lists, and the array of the chains is a function of the index.
use lua_reading.Prelude.{
  ℕ, zero, suc, ◌+◌, ◌-◌, ◌*◌, ◌/◌, ◌%◌, ◌^◌, ◌≤◌, ◌<◌, min, ◌≡◌, refl, sym, ap, ap₂, ◌∙◌, ◌≢◌, ◌↔◌,
  ◌⊎◌, inl, inr, Bool, true, false, not, ◌&&◌, ◌||◌, Option, none, some, List, [], ◌∷◌, ◌++◌, map,
  arith, ltb, leb, ◌==◌, if◌then◌else◌, ltb→lt, lt→ltb, ==_iff, Bool-cases, Option-cases, length,
  get_elem?, get_or, take, drop, All, length-append, length-drop, take-append, drop-append,
  get_elem?-lt,
}
use Prim.Native.Nat.{bit_and, bit_xor}
use lua_reading.Proto.{Bytes}
use lua_reading.Chunk.Header.{bytes_eq}
pub mod Resize
pub mod Unique

pub record TString : Type 0 where
  pub addr : ℕ
  pub bytes : Bytes
  pub hash : ℕ

abbrev pub Chains : Type 0
Chains = ℕ → List TString

-- `is_dead` is what `isdead` says of the object at an address; `sweeping` is
-- `gcstate == GCSsweepstring`.
pub record StringTable : Type 0 where
  pub hash : Chains
  pub nuse : ℕ
  pub size : ℕ
  pub is_dead : ℕ → Bool
  pub sweeping : Bool

abbrev pub uint : ℕ
uint = 2 ^ 32

abbrev pub max_int : ℕ
max_int = 2 ^ 31 - 3

-- The bytes that a string can have at most: MAX_SIZET less the head of a string and the final '\0'.
abbrev pub max_length : ℕ
max_length = 2 ^ 64 - 3 - 24 - 1

-- The loop of the hash; `fuel` is the length.
unfoldable pub hash_loop : ℕ → Bytes → ℕ → ℕ → ℕ → ℕ
hash_loop zero s step l1 h = h
hash_loop (suc fuel) s step l1 h =
    let c = get_or s (l1 - 1) 0 in
    let mixed = bit_xor h ((h * 2 ^ 5 % uint + h / 2 ^ 2 + c) % uint) in
    let rest = hash_loop fuel s step (l1 - step) mixed in if leb step l1 then rest else h

unfoldable pub hash_of : Bytes → ℕ
hash_of s = let l = length s in hash_loop l s (l / 2 ^ 5 + 1) l (l % uint)

unfoldable pub lmod : ℕ → ℕ → ℕ
lmod h size = bit_and h (size - 1)

-- `p->gch.next = newhash[h1]; newhash[h1] = p;`
abbrev pub push_front : Chains → ℕ → TString → Chains
push_front chains i p k = if k == i then p ∷ chains k else chains k

-- The inner loop of `luaS_resize`.
unfoldable pub rehash_chain : ℕ → List TString → Chains → Chains
rehash_chain newsize [] newhash = newhash
rehash_chain newsize (p ∷ ps) newhash =
    rehash_chain newsize ps (push_front newhash (lmod p.hash newsize) p)

-- The outer loop, with `left` chains from `i` on.
unfoldable pub rehash : ℕ → Chains → ℕ → ℕ → Chains → Chains
rehash newsize chains zero i newhash = newhash
rehash newsize chains (suc left) i newhash =
    rehash newsize chains left (i + 1) (rehash_chain newsize (chains i) newhash)

abbrev pub rehashed : ℕ → StringTable → StringTable
rehashed newsize tb = record tb {
  hash = rehash newsize tb.hash tb.size 0 (λ i. []);
  size = newsize;
}

unfoldable pub resize : ℕ → StringTable → StringTable
resize newsize tb = if tb.sweeping then tb else rehashed newsize tb

abbrev pub grow : StringTable → StringTable
grow tb = if ltb tb.size tb.nuse && leb tb.size (max_int / 2) then resize (tb.size * 2) tb else tb

-- `newlstr`; `new` is the address that the allocator gives.
unfoldable pub newlstr : Bytes → ℕ → ℕ → StringTable → Option (TString × StringTable)
newlstr s h new tb =
    let ts : TString = record { addr = new; bytes = s; hash = h } in
    if ltb max_length (length s)
    then none
    else some (
      ts,
      grow (record tb {
        hash = push_front tb.hash (lmod h tb.size) ts;
        nuse = (tb.nuse + 1) % uint;
        is_dead = λ a. if a == new then false else tb.is_dead a;
      }),
    )

-- The loop of `luaS_newlstr` over a chain.
unfoldable pub lookup : Bytes → List TString → Option TString
lookup s [] = none
lookup s (ts ∷ rest) =
    let further = lookup s rest in if bytes_eq s ts.bytes then some ts else further

abbrev pub use_or_make :
    Bytes → ℕ → ℕ → StringTable → Option TString → Option (TString × StringTable)
use_or_make s h new tb (some ts) =
    some (ts, record tb { is_dead = λ a. if a == ts.addr then false else tb.is_dead a })
use_or_make s h new tb none = newlstr s h new tb

-- `luaS_newlstr`
unfoldable pub intern : Bytes → ℕ → StringTable → Option (TString × StringTable)
intern s new tb = let h = hash_of s in use_or_make s h new tb (lookup s (tb.hash (lmod h tb.size)))
