-- ===== src/Interning/Unique.antt =====
-- Strings with equal bytes are one object.
use lua_reading.Prelude.{
  ℕ, ◌+◌, ◌%◌, ◌<◌, ◌≡◌, refl, sym, ap, ◌∙◌, ◌≢◌, ◌⊎◌, inl, inr, Bool, true, false, Option, none,
  some, List, [], ◌∷◌, arith, ltb, ◌==◌, if◌then◌else◌, ltb→lt, Bool-cases, length,
}
use mathlib.Core.Path.{subst}
use lua_reading.Proto.{Bytes}
use lua_reading.Chunk.Header.{bytes_eq, bytes_eq→eq}
use lua_reading.Interning.{
  TString, StringTable, hash_of, lmod, uint, max_length, push_front, grow, newlstr, lookup,
  use_or_make, intern,
}
use lua_reading.Interning.Resize.{
  IsIn, IsAt, IsPlaced, Has, Keeps, push_front-IsIn, lmod-size, grow-Keeps,
}

-- Of two strings of the table with equal bytes, and the hash of each.
abbrev IsUnique : StringTable → Type 0
IsUnique tb =
    ((a : TString) → Has tb a → a.hash ≡ hash_of a.bytes)
    × ((a b : TString) → Has tb a → Has tb b → a.bytes ≡ b.bytes → a ≡ b)

-- There is a power of 2 of chains, every string is in the chain of its hash, which is that of its
-- bytes, and strings with equal bytes are one object.
abbrev pub IsTable : StringTable → Type 0
IsTable tb = ((p : ℕ) × IsPlaced p tb) × IsUnique tb

-- A string `a` for the bytes `s`, in a table which has it and the strings of `tb`.
abbrev pub Adds : StringTable → Bytes → TString → StringTable → Type 0
Adds tb s a tb' =
    IsTable tb'
    × Has tb' a
    × (a.bytes ≡ s)
    × ((b : TString) → Has tb b → Has tb' b)
    × ((b : TString) → Has tb' b → Has tb b ⊎ (b ≡ a))

abbrev pub Interns : StringTable → Bytes → Option (TString × StringTable) → Type 0
Interns tb s none = max_length < length s
Interns tb s (some (a, tb')) = Adds tb s a tb'

bytes_eq_same : (s : Bytes) → bytes_eq s s ≡ true
unfolding bytes_eq
bytes_eq_same [] = refl
bytes_eq_same (x ∷ s) = ground (arith, bytes_eq_same s)

lookup-IsIn :
    (s : Bytes) (chain : List TString) (a : TString)
    → lookup s chain ≡ some a
    → IsIn a chain × (a.bytes ≡ s)
unfolding lookup
lookup-IsIn s [] a h = cc
lookup-IsIn s (ts ∷ rest) a h = elim (Bool-cases (bytes_eq s ts.bytes)) [
  | inl e ↦
      let same : ts ≡ a = (let found : some ts ≡ some a = (rw e at h) in cc) in
      (inl (sym same), sym (bytes_eq→eq s ts.bytes e ∙ ap TString.bytes same))
  | inr e ↦ let (i, same) = lookup-IsIn s rest a (rw e at h) in (inr i, same)
]

lookup_missing :
    (s : Bytes) (chain : List TString) (a : TString)
    → lookup s chain ≡ none
    → IsIn a chain
    → a.bytes ≢ s
unfolding lookup
lookup_missing s [] a h i same = absurd i
lookup_missing s (ts ∷ rest) a h (inl e) same =
    let hit : bytes_eq s ts.bytes ≡ true =
      subst (λ x. bytes_eq s x ≡ true) (sym same ∙ ap TString.bytes e) (bytes_eq_same s) in
    let clash : some ts ≡ none = (rw hit at h) in cc
lookup_missing s (ts ∷ rest) a h (inr i) same = elim (Bool-cases (bytes_eq s ts.bytes)) [
  | inl e ↦ let clash : some ts ≡ none = (rw e at h) in cc
  | inr e ↦ lookup_missing s rest a (rw e at h) i same
]

-- A table with the same strings is as good.
Keeps-Adds :
    (tb tb1 tb2 : StringTable) (s : Bytes) (a : TString)
    → Adds tb s a tb1
    → Keeps tb1 tb2
    → Adds tb s a tb2
Keeps-Adds tb tb1 tb2 s a ((placed, (hashes, unique)), has, same, kept, fresh) (placed', both) = (
  (
    placed',
    ((λ b h. hashes b ((both b).1 h)), λ b c h k. unique b c ((both b).1 h) ((both c).1 k)),
  ),
  (both a).0 has,
  same,
  (λ b h. (both b).0 (kept b h)),
  λ b h. fresh b ((both b).1 h),
)

-- A new string for bytes that no string has.
module _ (tb : StringTable) (ts : TString) (n : ℕ) (dead : ℕ → Bool) where
  abbrev place : ℕ
  place = lmod ts.hash tb.size

  abbrev pushed : StringTable
  pushed = record tb { hash = push_front tb.hash place ts; nuse = n; is_dead = dead }

  pushed-from : (i : ℕ) (b : TString) → IsAt pushed i b → IsAt tb i b ⊎ ((i ≡ place) × (b ≡ ts))
  pushed-from i b (fits, h) = elim ((push_front-IsIn tb.size b tb.hash place i ts).0 h) [
    | inl old ↦ inl (fits, old)
    | inr new ↦ inr new
  ]

  pushed-old : (b : TString) → Has tb b → Has pushed b
  pushed-old b (i, (fits, h)) =
      (i, (fits, (push_front-IsIn tb.size b tb.hash place i ts).1 (inl h)))

  pushed-Has : (b : TString) → Has pushed b → Has tb b ⊎ (b ≡ ts)
  pushed-Has b (i, at) = elim (pushed-from i b at) [
    | inl old ↦ inl (i, old)
    | inr (_, new) ↦ inr new
  ]

  pushed-Adds :
      (s : Bytes)
      → IsTable tb
      → ts.bytes ≡ s
      → ts.hash ≡ hash_of s
      → ((a : TString) → Has tb a → a.bytes ≢ s)
      → Adds tb s ts pushed
  pushed-Adds s ((p, (size, placed)), (hashes, unique)) same hashed absent =
      let fits : place < tb.size = rw size (lmod-size p ts.hash) in
      (
        (
          (
            p,
            (
              size,
              λ i b at. elim (pushed-from i b at) [
                | inl old ↦ placed i b old
                | inr (here, new) ↦ ap (λ x. lmod (TString.hash x) tb.size) new ∙ sym here
              ],
            ),
          ),
          (
            (λ b h. elim (pushed-Has b h) [
              | inl old ↦ hashes b old
              | inr new ↦
                  ap TString.hash new ∙ hashed ∙ ap hash_of (sym same ∙ sym (ap TString.bytes new))
            ]),
            λ b c h k e. elim (pushed-Has b h) [
              | inl old ↦ elim (pushed-Has c k) [
                | inl old' ↦ unique b c old old' e
                | inr new' ↦ absurd (absent b old (e ∙ ap TString.bytes new' ∙ same))
              ]
              | inr new ↦ elim (pushed-Has c k) [
                | inl old' ↦ absurd (absent c old' (sym e ∙ ap TString.bytes new ∙ same))
                | inr new' ↦ new ∙ sym new'
              ]
            ],
          ),
        ),
        (place, (fits, (push_front-IsIn tb.size ts tb.hash place place ts).1 (inr (refl, refl)))),
        same,
        pushed-old,
        pushed-Has,
      )

-- The chain of the hash is the only one that can have the bytes.
missing_anywhere :
    (tb : StringTable) (s : Bytes)
    → IsTable tb
    → lookup s (tb.hash (lmod (hash_of s) tb.size)) ≡ none
    → (a : TString) → Has tb a
    → a.bytes ≢ s
missing_anywhere tb s ((p, (size, placed)), (hashes, unique)) missing a (i, (fits, h)) same =
    let hash : a.hash ≡ hash_of s = hashes a (i, (fits, h)) ∙ ap hash_of same in
    let here : lmod (hash_of s) tb.size ≡ i =
      ap (λ x. lmod x tb.size) (sym hash) ∙ placed i a (fits, h) in
    lookup_missing s (tb.hash (lmod (hash_of s) tb.size)) a missing
      (subst (λ k. IsIn a (tb.hash k)) (sym here) h) same

use_or_make-Interns :
    (tb : StringTable) (s : Bytes) (new : ℕ) (o : Option TString)
    → IsTable tb
    → lookup s (tb.hash (lmod (hash_of s) tb.size)) ≡ o
    → Interns tb s (use_or_make s (hash_of s) new tb o)
unfolding newlstr
use_or_make-Interns tb s new (some a) table found =
    let (at, same) = lookup-IsIn s (tb.hash (lmod (hash_of s) tb.size)) a found in
    let (p, (size, placed)) = table.0 in
    let fits : lmod (hash_of s) tb.size < tb.size = rw size (lmod-size p (hash_of s)) in
    (table, (lmod (hash_of s) tb.size, (fits, at)), same, (λ b h. h), λ b h. inl h)
use_or_make-Interns tb s new none table missing = elim (Bool-cases (ltb max_length (length s))) [
  | inl long ↦ rw long (ltb→lt _ _ long)
  | inr short ↦
      let ts : TString = record { addr = new; bytes = s; hash = hash_of s } in
      let dead = λ (a : ℕ). if a == new then false else tb.is_dead a in
      let adds =
        pushed-Adds tb ts ((tb.nuse + 1) % uint) dead s table refl refl
          (missing_anywhere tb s table missing) in
      let added = pushed tb ts ((tb.nuse + 1) % uint) dead in
      let placed = adds.0.0 in
      rw short (Keeps-Adds tb added (grow added) s ts adds (grow-Keeps placed.0 added placed.1))
]

-- `luaS_newlstr` gives a string with the bytes that it is asked for, unless they are too many. The
-- table stays well formed; it has that string, all that it had, and no other.
pub intern-Interns :
    (tb : StringTable) (s : Bytes) (new : ℕ) → IsTable tb → Interns tb s (intern s new tb)
unfolding intern
intern-Interns tb s new table = use_or_make-Interns tb s new _ table refl

-- In a well-formed table: asked again for the same bytes, `luaS_newlstr` gives the same object.
pub intern-intern :
    (tb tb1 tb2 : StringTable) (s : Bytes) (new new' : ℕ) (a b : TString)
    → IsTable tb
    → intern s new tb ≡ some (a, tb1)
    → intern s new' tb1 ≡ some (b, tb2)
    → a ≡ b
intern-intern tb tb1 tb2 s new new' a b table first second =
    let (table1, has1, same1, _, _) : Adds tb s a tb1 =
      (rw first at (intern-Interns tb s new table)) in
    let (table2, has2, same2, kept, _) : Adds tb1 s b tb2 =
      (rw second at (intern-Interns tb1 s new' table1)) in
    table2.1.1 a b (kept a has1) has2 (same1 ∙ sym same2)
