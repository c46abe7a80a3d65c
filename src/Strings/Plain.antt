-- ===== src/Strings/Plain.antt =====
-- src/lstrlib.c: `lmemfind`, the search without patterns.
use lua_reading.Prelude.{
  ℕ, zero, suc, ◌+◌, ◌-◌, ◌≤◌, ◌<◌, ◌≡◌, refl, sym, ap, ◌∙◌, inl, inr, Bool, false, Option, none,
  some, [], ◌∷◌, arith, ltb, ◌==◌, if◌then◌else◌, Bool-cases, length, take, drop,
}
use lua_reading.Proto.{Bytes}
use lua_reading.Chunk.Header.{bytes_eq}

-- An offset moved by `n`.
abbrev pub later : ℕ → Option ℕ → Option ℕ
later n none = none
later n (some i) = some (n + i)

-- The C library's `memchr`, as an offset.
unfoldable pub memchr : Bytes → ℕ → ℕ → Option ℕ
memchr s c zero = none
memchr [] c (suc n) = none
memchr (x ∷ s) c (suc n) = let rest = later 1 (memchr s c n) in if x == c then some 0 else rest

-- `memcmp(s, t, strlen(t)) == 0`
abbrev pub begins_with : Bytes → Bytes → Bool
begins_with t s = bytes_eq (take (length t) s) t

-- What a round of the loop makes of the first byte's place `i`, `again i` being the rest of the loop.
abbrev pub check_rest : (ℕ → Option ℕ) → Bytes → Bytes → Option ℕ → Option ℕ
check_rest again s t none = none
check_rest again s t (some i) =
    if begins_with t (drop (i + 1) s) then some i else later (i + 1) (again i)

-- The loop of `lmemfind`, for `c` and then `t`, with `l1` bytes where it may begin. Each round passes
-- a byte at least, so `l1` rounds are enough.
unfoldable pub memfind_loop : ℕ → Bytes → ℕ → ℕ → Bytes → Option ℕ
memfind_loop zero s l1 c t = none
memfind_loop (suc fuel) s l1 c t =
    check_rest (λ i. memfind_loop fuel (drop (i + 1) s) (l1 - (i + 1)) c t) s t (memchr s c l1)

-- `lmemfind`
unfoldable pub lmemfind : Bytes → Bytes → Option ℕ
lmemfind s1 [] = some 0
lmemfind s1 (c ∷ t) =
    if ltb (length s1) (length t + 1)
    then none
    else memfind_loop (length s1) s1 (length s1 - length t) c t

-- The search that tries every offset.
abbrev pub first_occurrence : Bytes → Bytes → Option ℕ
first_occurrence [] t = if begins_with t [] then some 0 else none
first_occurrence (x ∷ s) t =
    let rest = later 1 (first_occurrence s t) in if begins_with t (x ∷ s) then some 0 else rest

later-later : (m n : ℕ) (o : Option ℕ) → later m (later n o) ≡ later (m + n) o
later-later m n none = refl
later-later m n (some i) = ground arith

-- Nothing is found where too little is left.
begins_with_short : (s t : Bytes) → length s < length t → begins_with t s ≡ false
unfolding bytes_eq
begins_with_short s [] h = absurd (omega arith)
begins_with_short [] (c ∷ t) h = refl
begins_with_short (x ∷ s) (c ∷ t) h = ground (arith, begins_with_short s t)

first_occurrence_short : (s t : Bytes) → length s < length t → first_occurrence s t ≡ none
first_occurrence_short [] t h = rw (begins_with_short [] t h) refl
first_occurrence_short (x ∷ s) t h =
    rw (begins_with_short (x ∷ s) t h, first_occurrence_short s t (omega arith)) refl

-- A byte that differs is passed.
check_rest-later :
    (f g : ℕ → Option ℕ) (x : ℕ) (s t : Bytes) (o : Option ℕ)
    → ((i : ℕ) → f (1 + i) ≡ g i)
    → check_rest f (x ∷ s) t (later 1 o) ≡ later 1 (check_rest g s t o)
check_rest-later f g x s t none h = refl
check_rest-later f g x s t (some i) h =
    let next : 1 + i + 1 ≡ suc (i + 1) = omega arith in
    let one : 1 + (i + 1) ≡ suc (i + 1) = omega arith in
    rw (next, h i)
      (elim (Bool-cases (begins_with t (drop (i + 1) s))) [
        | inl e ↦ rw e (ap some (omega arith))
        | inr e ↦ rw e (sym (later-later 1 (i + 1) (g i) ∙ ap (λ n. later n (g i)) one))
      ])

memfind_loop_pass :
    (fuel : ℕ) (x : ℕ) (s : Bytes) (l1 c : ℕ) (t : Bytes)
    → (x == c) ≡ false
    → memfind_loop (suc fuel) (x ∷ s) (suc l1) c t ≡ later 1 (memfind_loop (suc fuel) s l1 c t)
unfolding memfind_loop memchr
memfind_loop_pass fuel x s l1 c t differs = rw differs (
    check_rest-later _ _ x s t (memchr s c l1) (λ i.
      let next : 1 + i + 1 ≡ suc (i + 1) = omega arith in
      let left : suc l1 - suc (i + 1) ≡ l1 - (i + 1) = omega arith in rw (next, left) refl))

memfind_loop-first_occurrence :
    (s : Bytes) (fuel l1 c : ℕ) (t : Bytes)
    → l1 + length t ≡ length s
    → l1 ≤ fuel
    → memfind_loop fuel s l1 c t ≡ first_occurrence s (c ∷ t)
unfolding memfind_loop memchr bytes_eq
memfind_loop-first_occurrence s zero l1 c t fits enough =
    rw (first_occurrence_short s (c ∷ t) (omega arith)) refl
memfind_loop-first_occurrence s (suc fuel) zero c t fits enough =
    rw (first_occurrence_short s (c ∷ t) (omega arith)) refl
memfind_loop-first_occurrence [] (suc fuel) (suc l1) c t fits enough = absurd (omega arith)
memfind_loop-first_occurrence (x ∷ s) (suc fuel) (suc l1) c t fits enough =
    elim (Bool-cases (x == c)) [
      | inl e ↦
          let left : suc l1 - (0 + 1) ≡ l1 = omega arith in
          let further = memfind_loop-first_occurrence s fuel l1 c t (omega arith) (omega arith) in
          rw (e, left, further) refl
      | inr e ↦ rw (memfind_loop_pass fuel x s l1 c t e) (
          rw (memfind_loop-first_occurrence s (suc fuel) l1 c t (omega arith) (omega arith), e)
            refl)
    ]

first_occurrence_empty : (s : Bytes) → first_occurrence s [] ≡ some 0
unfolding bytes_eq
first_occurrence_empty [] = refl
first_occurrence_empty (x ∷ s) = refl

-- `lmemfind` finds what a search that tries every offset in turn finds.
pub lmemfind-first_occurrence : (s t : Bytes) → lmemfind s t ≡ first_occurrence s t
unfolding lmemfind
lmemfind-first_occurrence s [] = sym (first_occurrence_empty s)
lmemfind-first_occurrence s (c ∷ t) = elim (Bool-cases (ltb (length s) (length t + 1))) [
  | inl e ↦ rw e (sym (first_occurrence_short s (c ∷ t) (ground (arith, e))))
  | inr e ↦ rw e (
      memfind_loop-first_occurrence s (length s) (length s - length t) c t (ground (arith, e))
        (omega arith))
]
