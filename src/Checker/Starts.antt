-- ===== src/Checker/Starts.antt =====
-- Where instructions begin: the word behind a SETLIST with C = 0 is a count and no instruction.
-- src/ldebug.c decides that for a jump's target by counting the words before it.
use lua_reading.Prelude.{
  ℕ, zero, suc, ◌+◌, ◌≤◌, ◌<◌, Bool, true, false, not, if◌then◌else◌, List, [], ◌∷◌, some, length,
  get_elem?, ◌≡◌, refl, ap, arith, ◌⊎◌, inl, inr, Bool-cases,
}
use lua_reading.Checker.Checks.{pass, is_setlist_zero, setlists_before}

-- The number of words that an instruction takes.
abbrev pub width : ℕ → ℕ
width i = if is_setlist_zero i then 2 else 1

pub data Start (code : List ℕ) : ℕ → Type 0 where
  first : Start code 0
  next :
      {pc pc' i : ℕ}
      → Start code pc
      → get_elem? code pc ≡ some i
      → pc' ≡ pc + width i
      → Start code pc'

-- The word at `n` is the count of a SETLIST.
record IsCount (code : List ℕ) (n : ℕ) : Type 0 where
  before : ℕ
  word : ℕ
  place : n ≡ suc before
  start : Start code before
  read : get_elem? code before ≡ some word
  setlist : is_setlist_zero word ≡ true

get_elem?-some : (code : List ℕ) (n : ℕ) → n < length code → (i : ℕ) × (get_elem? code n ≡ some i)
get_elem?-some [] n h = absurd (omega arith)
get_elem?-some (x ∷ code) zero h = (x, refl)
get_elem?-some (x ∷ code) (suc n) h = get_elem?-some code n (omega arith)

after_count : {code : List ℕ} {n : ℕ} → IsCount code n → Start code (suc n)
after_count c = next c.start c.read (ground (arith, c.setlist, c.place))

Start-or-IsCount : (code : List ℕ) (n : ℕ) → n ≤ length code → Start code n ⊎ IsCount code n
Start-or-IsCount code zero h = inl first
Start-or-IsCount code (suc n) h = elim (Start-or-IsCount code n (omega arith)) [
  | inr c ↦ inl (after_count c)
  | inl s ↦
      let (i, e) = get_elem?-some code n (omega arith) in
      elim (Bool-cases (is_setlist_zero i)) [
        | inl z ↦
            inr (record { before = n; word = i; place = refl; start = s; read = e; setlist = z })
        | inr z ↦ inl (next s e (ground (arith, z)))
      ]
]

abbrev Parity : List ℕ → ℕ → Bool → Type 0
Parity code n true = Start code n
Parity code n false = IsCount code n

setlists_before_step :
    (code : List ℕ) (left i : ℕ) (even : Bool)
    → get_elem? code left ≡ some i
    → setlists_before code (suc left) even
      ≡ (if is_setlist_zero i then setlists_before code left (not even) else pass even)
unfolding setlists_before
setlists_before_step code left i even e = ground arith

not_count :
    {code : List ℕ} {n i : ℕ}
    → get_elem? code n ≡ some i
    → is_setlist_zero i ≡ false
    → IsCount code (suc n)
    → ⊥
not_count {code} {n} {i} e z c =
    let same : c.before ≡ n = omega (arith, c.place) in
    let read : get_elem? code n ≡ some c.word = rw same at c.read in
    let word : c.word ≡ i = cc in cc (ap is_setlist_zero word, c.setlist)

setlists_before-Parity :
    (code : List ℕ) (left : ℕ) (even : Bool)
    → left ≤ length code
    → setlists_before code left even ≡ pass true
    → Parity code left even
setlists_before-Parity code zero true h e = first
setlists_before-Parity code zero false h e = unfold setlists_before in cc
setlists_before-Parity code (suc left) even h e =
    let (i, r) = get_elem?-some code left h in
    let e' = rw (setlists_before_step code left i even r) at e in
    elim (Bool-cases (is_setlist_zero i)) [
      | inl z ↦
          counted even i r z
            (setlists_before-Parity code left (not even) (omega arith) (rw z at e'))
      | inr z ↦ stopped even i r z (rw z at e')
    ]
  where
    counted :
        (b : Bool) (i : ℕ)
        → get_elem? code left ≡ some i
        → is_setlist_zero i ≡ true
        → Parity code left (not b)
        → Parity code (suc left) b
    counted true i r z c = after_count c
    counted false i r z s = record {
      before = left;
      word = i;
      place = refl;
      start = s;
      read = r;
      setlist = z;
    }

    stopped :
        (b : Bool) (i : ℕ)
        → get_elem? code left ≡ some i
        → is_setlist_zero i ≡ false
        → pass b ≡ pass true
        → Parity code (suc left) b
    stopped true i r z k = elim (Start-or-IsCount code (suc left) h) [
      | inl s ↦ s
      | inr c ↦ absurd (not_count r z c)
    ]
    stopped false i r z k = cc

-- An even count of such words means that an instruction begins at `dest`.
pub setlists_before-Start :
    (code : List ℕ) (dest : ℕ)
    → dest ≤ length code
    → setlists_before code dest true ≡ pass true
    → Start code dest
setlists_before-Start code dest h e = setlists_before-Parity code dest true h e
