-- ===== src/Chunk/Rules.antt =====
-- Rules for what the loader makes of the blocks of the chunk format, whatever buffers they come in.
use lua_reading.Prelude.{
  ℕ, zero, suc, ◌+◌, ◌-◌, ◌*◌, ◌/◌, ◌^◌, ◌≤◌, ◌<◌, Bool, true, false, ◌==◌, List, [], ◌∷◌, ◌++◌,
  Option, none, some, length, take, drop, take-append, drop-append, length-append, All, ◌≡◌, refl,
  ap, ◌∙◌, arith,
}
use lua_reading.Proto.{Bytes, Constant, nil, boolean, number, string, LocVar}
use lua_reading.Chunk.Header.{sizeof_instruction, sizeof_number, to_memory, of_memory}
use lua_reading.Chunk.Dump.{vector_bytes}
use lua_reading.Chunk.Format.{
  Blocks, int_blocks, char_blocks, string_blocks, vector_blocks, each, constant_blocks,
  locvar_blocks,
}
use lua_reading.Chunk.Load.{
  M, Error, bad_integer, ok, ◌>>=◌, return, raise_if, load_block, load_var, load_char, load_int,
  load_number, load_string, vector_of, load_vector, load_code, repeat, load_tagged, load_constant,
  load_locvar,
}
use lua_reading.Stream.{Zio, read}
use lua_reading.Stream.Read.{stream, read-Delivers}
use mathlib.Core.List.{append_assoc, append-nil}
use mathlib.Core.Path.{subst}
use native.Mathlib.Nat.{pow-suc, div-lt_iff_lt-mul}

abbrev pub flat : Blocks → Bytes
flat [] = []
flat (b ∷ bs) = b ++ flat bs

pub flat-append : (bs cs : Blocks) → flat (bs ++ cs) ≡ flat bs ++ flat cs
flat-append [] cs = refl
flat-append (b ∷ bs) cs = rw (flat-append bs cs, append_assoc)

-- On any stream that begins with these blocks `m` succeeds with `v` and reads no further.
pub record Loads {A : Type 0} (m : M A) (bs : Blocks) (v : A) : Type 0 where
  pub run :
      (z : Zio) (rest : Bytes)
      → stream z ≡ flat bs ++ rest
      → (z' : Zio) × (m z ≡ ok v z') × (stream z' ≡ rest)

pub return-Loads : {A : Type 0} (v : A) → Loads (return v) [] v
return-Loads v = record { run = λ z rest e. (z, refl, e) }

pub bind-Loads :
    {A B : Type 0} {m : M A} (f : A → M B) {bs cs : Blocks} {x : A} {y : B}
    → Loads m bs x
    → Loads (f x) cs y
    → Loads (m >>= f) (bs ++ cs) y
unfolding ◌>>=◌
bind-Loads f {bs = bs} {cs = cs} h k = record {
  run = λ z rest e.
      let (z1, r1, s1) =
        h.run z (flat cs ++ rest)
          (e ∙ rw (flat-append bs cs) (append_assoc (flat bs) (flat cs) rest)) in
      let (z2, r2, s2) = k.run z1 rest s1 in (z2, rw (r1, ◌>>=◌) r2, s2);
}

pub raise_if-Loads : (b : Bool) (e : Error) → b ≡ false → Loads (raise_if b e) [] tt
raise_if-Loads b e h = rw h (return-Loads tt)

pub load_block-Loads : (b : Bytes) → Loads (load_block (length b)) (b ∷ []) b
unfolding load_block
load_block-Loads b = record {
  run = λ z rest e.
      let d = read-Delivers (length b) z in
      let same : stream z ≡ b ++ rest = rw append-nil at e in
      let enough : length b ≤ length (stream z) = rw (same, length-append) (omega arith) in
      let none_missing : (read (length b) z).missing ≡ 0 = omega (arith, d.short) in
      let bytes : (read (length b) z).bytes ≡ b = d.copied ∙ rw (same, take-append) in
      ((read (length b) z).zio, rw (none_missing, bytes), d.left enough ∙ rw (same, drop-append));
}

-- A step with no input.
pub then-Loads :
    {A B : Type 0} {m : M A} (f : A → M B) {cs : Blocks} {x : A} {y : B}
    → Loads m [] x
    → Loads (f x) cs y
    → Loads (m >>= f) cs y
then-Loads f h k = bind-Loads f h k

-- The last step of a block.
pub last-Loads :
    {A B : Type 0} {m : M A} (f : A → M B) {bs : Blocks} {x : A} {y : B}
    → Loads m bs x
    → Loads (f x) [] y
    → Loads (m >>= f) bs y
last-Loads {m = m} f {bs = bs} {y = y} h k =
    subst (λ bs'. Loads (m >>= f) bs' y) (append-nil bs) (bind-Loads f h k)

-- The representation in memory.
of_memory-to_memory : (n x : ℕ) → x < 256 ^ n → of_memory (to_memory n x) ≡ x
unfolding of_memory to_memory
of_memory-to_memory zero x h = omega arith
of_memory-to_memory (suc n) x h =
    let bound : x < 256 ^ n * 256 = rw (← pow-suc 256 n) h in
    omega (arith, of_memory-to_memory n (x / 256) ((div-lt_iff_lt-mul (omega arith)).1 bound))

pub length-to_memory : (n x : ℕ) → length (to_memory n x) ≡ n
unfolding to_memory
length-to_memory zero x = refl
length-to_memory (suc n) x = ap suc (length-to_memory n (x / 256))

load_var-Loads : (n x : ℕ) → x < 256 ^ n → Loads (load_var n) (to_memory n x ∷ []) x
unfolding load_var
load_var-Loads n x h =
    let block = rw (length-to_memory n x) at (load_block-Loads (to_memory n x)) in
    last-Loads _ block (rw (of_memory-to_memory n x h) (return-Loads x))

pub load_int-Loads : (x : ℕ) → x < 2 ^ 31 → Loads load_int (int_blocks x) x
unfolding load_int
load_int-Loads x h =
    last-Loads _ (load_var-Loads 4 x (omega arith))
      (last-Loads _ (raise_if-Loads _ bad_integer (ground arith)) (return-Loads x))

pub load_char-Loads : (x : ℕ) → x < 256 → Loads load_char (char_blocks x) x
unfolding load_char
load_char-Loads x h = load_var-Loads 1 x h

pub load_number-Loads : (x : ℕ) → x < 2 ^ 64 → Loads load_number (to_memory sizeof_number x ∷ []) x
unfolding load_number
load_number-Loads x h = load_var-Loads 8 x h

-- A string that fits a `size_t` with its '\0'.
abbrev pub StringFits : Option Bytes → Type 0
StringFits none = Unit {0}
StringFits (some s) = length s + 1 < 2 ^ 64

pub load_string-Loads : (s : Option Bytes) → StringFits s → Loads load_string (string_blocks s) s
unfolding load_string
load_string-Loads none h = last-Loads _ (load_var-Loads 8 0 (omega arith)) (return-Loads none)
load_string-Loads (some s) h =
    let nonzero : (length s + 1 == 0) ≡ false = ground arith in
    let bytes : length (s ++ 0 ∷ []) ≡ length s + 1 = rw length-append (omega arith) in
    let one_less : length s + 1 - 1 ≡ length s = omega arith in
    let front : take (length s + 1 - 1) (s ++ 0 ∷ []) ≡ s = rw one_less (take-append s (0 ∷ [])) in
    let block = rw bytes at (load_block-Loads (s ++ 0 ∷ [])) in
    bind-Loads _ (load_var-Loads 8 (length s + 1) h)
      (rw nonzero (last-Loads _ block (rw front (return-Loads (some s)))))

vector_of-vector_bytes :
    (size : ℕ) (xs : List ℕ)
    → All (λ x. x < 256 ^ size) xs
    → vector_of size (length xs) (vector_bytes size xs) ≡ xs
unfolding vector_of vector_bytes
vector_of-vector_bytes size [] h = refl
vector_of-vector_bytes size (x ∷ xs) (hx, hs) =
    let whole = length-to_memory size x in
    let bytes = vector_bytes size xs in
    let front : take size (to_memory size x ++ bytes) ≡ to_memory size x =
      rw whole at (take-append (to_memory size x) bytes) in
    let back : drop size (to_memory size x ++ bytes) ≡ bytes =
      rw whole at (drop-append (to_memory size x) bytes) in
    rw (front, back, of_memory-to_memory size x hx, vector_of-vector_bytes size xs hs)

length-vector_bytes : (size : ℕ) (xs : List ℕ) → length (vector_bytes size xs) ≡ length xs * size
unfolding vector_bytes
length-vector_bytes size [] = omega arith
length-vector_bytes size (x ∷ xs) =
    rw (length-append, length-to_memory, length-vector_bytes size xs) (omega arith)

pub load_vector-Loads :
    (size : ℕ) (xs : List ℕ)
    → All (λ x. x < 256 ^ size) xs
    → Loads (load_vector (length xs) size) (vector_bytes size xs ∷ []) xs
unfolding load_vector
load_vector-Loads size xs h =
    let block = rw (length-vector_bytes size xs) at (load_block-Loads (vector_bytes size xs)) in
    last-Loads _ block (rw (vector_of-vector_bytes size xs h) (return-Loads xs))

pub load_code-Loads :
    (xs : List ℕ)
    → All (λ x. x < 2 ^ 32) xs
    → length xs < 2 ^ 31
    → Loads load_code (vector_blocks sizeof_instruction xs) xs
unfolding load_code
load_code-Loads xs h short =
    bind-Loads _ (load_int-Loads (length xs) short) (load_vector-Loads 4 xs h)

pub repeat-Loads :
    {A : Type 0} (m : M A) (blocks : A → Blocks) (xs : List A)
    → All (λ x. Loads m (blocks x) x) xs
    → Loads (repeat (length xs) m) (each blocks xs) xs
unfolding repeat
repeat-Loads m blocks [] h = return-Loads []
repeat-Loads m blocks (x ∷ xs) (hx, hs) =
    bind-Loads _ hx (last-Loads _ (repeat-Loads m blocks xs hs) (return-Loads (x ∷ xs)))

-- A constant that survives the format: a number is 64 bits, a string fits.
abbrev pub ConstantFits : Constant → Type 0
ConstantFits nil = Unit {0}
ConstantFits (boolean b) = Unit {0}
ConstantFits (number x) = x < 2 ^ 64
ConstantFits (string s) = StringFits s

pub load_constant-Loads :
    (o : Constant) → ConstantFits o → Loads load_constant (constant_blocks o) o
unfolding load_constant load_tagged
load_constant-Loads nil h = bind-Loads _ (load_char-Loads 0 (omega arith)) (return-Loads nil)
load_constant-Loads (boolean true) h =
    bind-Loads _ (load_char-Loads 1 (omega arith))
      (last-Loads _ (load_char-Loads 1 (omega arith)) (return-Loads (boolean true)))
load_constant-Loads (boolean false) h =
    bind-Loads _ (load_char-Loads 1 (omega arith))
      (last-Loads _ (load_char-Loads 0 (omega arith)) (return-Loads (boolean false)))
load_constant-Loads (number x) h =
    bind-Loads _ (load_char-Loads 3 (omega arith))
      (last-Loads _ (load_number-Loads x h) (return-Loads (number x)))
load_constant-Loads (string s) h =
    bind-Loads _ (load_char-Loads 4 (omega arith))
      (last-Loads _ (load_string-Loads s h) (return-Loads (string s)))

abbrev pub LocVarFits : LocVar → Type 0
LocVarFits v = StringFits v.varname × (v.startpc < 2 ^ 31) × (v.endpc < 2 ^ 31)

pub load_locvar-Loads : (v : LocVar) → LocVarFits v → Loads load_locvar (locvar_blocks v) v
unfolding load_locvar
load_locvar-Loads v (name, start, finish) = bind-Loads _ (load_string-Loads v.varname name) (
    bind-Loads _ (load_int-Loads v.startpc start)
      (last-Loads _ (load_int-Loads v.endpc finish) (return-Loads v)))
