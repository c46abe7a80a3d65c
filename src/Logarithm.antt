-- ===== src/Logarithm.antt =====
-- src/lobject.c: the logarithm for the sizes of hash parts.
use lua_reading.Prelude.{
  ℕ, zero, suc, ◌+◌, ◌-◌, ◌*◌, ◌/◌, ◌^◌, ◌≤◌, ◌<◌, ◌≡◌, refl, ap, ◌∙◌, inl, inr, Bool, true, false,
  ◌&&◌, List, [], ◌∷◌, arith, ltb, leb, if◌then◌else◌, Bool-cases, length, get_or, drop,
}
use lua_reading.Prelude.Int.{ℤ, pos, sub_ℕ}
use native.Mathlib.Nat.{two-pow-succ, pow-succ'}

abbrev pub log_2 : List ℕ
log_2 =
    0 ∷ 1 ∷ 2 ∷ 2 ∷ 3 ∷ 3 ∷ 3 ∷ 3 ∷ 4 ∷ 4 ∷ 4 ∷ 4 ∷ 4 ∷ 4 ∷ 4 ∷ 4 ∷ 5 ∷ 5 ∷ 5 ∷ 5 ∷ 5 ∷ 5 ∷ 5 ∷ 5
    ∷ 5 ∷ 5 ∷ 5 ∷ 5 ∷ 5 ∷ 5 ∷ 5 ∷ 5 ∷ 6 ∷ 6 ∷ 6 ∷ 6 ∷ 6 ∷ 6 ∷ 6 ∷ 6 ∷ 6 ∷ 6 ∷ 6 ∷ 6 ∷ 6 ∷ 6 ∷ 6 ∷ 6
    ∷ 6 ∷ 6 ∷ 6 ∷ 6 ∷ 6 ∷ 6 ∷ 6 ∷ 6 ∷ 6 ∷ 6 ∷ 6 ∷ 6 ∷ 6 ∷ 6 ∷ 6 ∷ 6 ∷ 7 ∷ 7 ∷ 7 ∷ 7 ∷ 7 ∷ 7 ∷ 7 ∷ 7
    ∷ 7 ∷ 7 ∷ 7 ∷ 7 ∷ 7 ∷ 7 ∷ 7 ∷ 7 ∷ 7 ∷ 7 ∷ 7 ∷ 7 ∷ 7 ∷ 7 ∷ 7 ∷ 7 ∷ 7 ∷ 7 ∷ 7 ∷ 7 ∷ 7 ∷ 7 ∷ 7 ∷ 7
    ∷ 7 ∷ 7 ∷ 7 ∷ 7 ∷ 7 ∷ 7 ∷ 7 ∷ 7 ∷ 7 ∷ 7 ∷ 7 ∷ 7 ∷ 7 ∷ 7 ∷ 7 ∷ 7 ∷ 7 ∷ 7 ∷ 7 ∷ 7 ∷ 7 ∷ 7 ∷ 7 ∷ 7
    ∷ 7 ∷ 7 ∷ 7 ∷ 7 ∷ 7 ∷ 7 ∷ 7 ∷ 7 ∷ 8 ∷ 8 ∷ 8 ∷ 8 ∷ 8 ∷ 8 ∷ 8 ∷ 8 ∷ 8 ∷ 8 ∷ 8 ∷ 8 ∷ 8 ∷ 8 ∷ 8 ∷ 8
    ∷ 8 ∷ 8 ∷ 8 ∷ 8 ∷ 8 ∷ 8 ∷ 8 ∷ 8 ∷ 8 ∷ 8 ∷ 8 ∷ 8 ∷ 8 ∷ 8 ∷ 8 ∷ 8 ∷ 8 ∷ 8 ∷ 8 ∷ 8 ∷ 8 ∷ 8 ∷ 8 ∷ 8
    ∷ 8 ∷ 8 ∷ 8 ∷ 8 ∷ 8 ∷ 8 ∷ 8 ∷ 8 ∷ 8 ∷ 8 ∷ 8 ∷ 8 ∷ 8 ∷ 8 ∷ 8 ∷ 8 ∷ 8 ∷ 8 ∷ 8 ∷ 8 ∷ 8 ∷ 8 ∷ 8 ∷ 8
    ∷ 8 ∷ 8 ∷ 8 ∷ 8 ∷ 8 ∷ 8 ∷ 8 ∷ 8 ∷ 8 ∷ 8 ∷ 8 ∷ 8 ∷ 8 ∷ 8 ∷ 8 ∷ 8 ∷ 8 ∷ 8 ∷ 8 ∷ 8 ∷ 8 ∷ 8 ∷ 8 ∷ 8
    ∷ 8 ∷ 8 ∷ 8 ∷ 8 ∷ 8 ∷ 8 ∷ 8 ∷ 8 ∷ 8 ∷ 8 ∷ 8 ∷ 8 ∷ 8 ∷ 8 ∷ 8 ∷ 8 ∷ 8 ∷ 8 ∷ 8 ∷ 8 ∷ 8 ∷ 8 ∷ 8 ∷ 8
    ∷ 8 ∷ 8 ∷ 8 ∷ 8 ∷ 8 ∷ 8 ∷ 8 ∷ 8 ∷ 8 ∷ 8 ∷ 8 ∷ 8 ∷ 8 ∷ 8 ∷ 8 ∷ 8 ∷ []

-- The loop of `luaO_log2`, with l + 1 for its `l`, and the sum behind it.
unfoldable pub log2_loop : ℕ → ℕ → ℕ → ℕ
log2_loop zero x l = l + get_or log_2 x 0
log2_loop (suc fuel) x l =
    let rest = log2_loop fuel (x / 256) (l + 8) in
    let last = l + get_or log_2 x 0 in if leb 256 x then rest else last

-- `luaO_log2`; below 2 ^ 32, three shifts leave one byte.
unfoldable pub log2 : ℕ → ℤ
log2 x = sub_ℕ (log2_loop 3 x 0) 1

abbrev is_entry : ℕ → ℕ → Bool
is_entry i v = leb 1 v && (leb (2 ^ (v - 1)) i && ltb i (2 ^ v))

abbrev are_entries : ℕ → List ℕ → Bool
are_entries i [] = true
are_entries i (v ∷ vs) =
    let further = are_entries (i + 1) vs in if is_entry i v then further else false

checked : (b c : Bool) → (if b then c else false) ≡ true → (b ≡ true) × (c ≡ true)
checked true c h = (refl, h)
checked false c h = cc

entry_of :
    (i : ℕ) (vs : List ℕ) (k : ℕ)
    → are_entries i vs ≡ true
    → k < length vs
    → is_entry (i + k) (get_or vs k 0) ≡ true
entry_of i [] k ok less = absurd (omega arith)
entry_of i (v ∷ vs) zero ok less =
    let same : i + 0 ≡ i = omega arith in rw same (checked (is_entry i v) _ ok).0
entry_of i (v ∷ vs) (suc k) ok less =
    let same : i + suc k ≡ i + 1 + k = omega arith in
    rw same (entry_of (i + 1) vs k (checked (is_entry i v) _ ok).1 (omega arith))

table_right : are_entries 1 (drop 1 log_2) ≡ true
table_right = refl

-- Between two powers of 2.
abbrev pub IsLog : ℕ → ℕ → Type 0
IsLog x n = (2 ^ n ≤ x) × (x < 2 ^ suc n)

is_entry-IsLog : (x v : ℕ) → is_entry x v ≡ true → (n : ℕ) × (v ≡ suc n) × IsLog x n
is_entry-IsLog x zero h = absurd (ground (arith, h))
is_entry-IsLog x (suc n) h =
    let same : suc n - 1 ≡ n = omega arith in
    let h' : (leb 1 (suc n) && (leb (2 ^ n) x && ltb x (2 ^ suc n))) ≡ true = (rw same at h) in
    (n, refl, (ground (arith, h'), ground (arith, h')))

log_2-IsLog : (x : ℕ) → 1 ≤ x → x < 256 → (n : ℕ) × (get_or log_2 x 0 ≡ suc n) × IsLog x n
log_2-IsLog zero low high = absurd (omega arith)
log_2-IsLog (suc k) low high =
    let one : 1 + k ≡ suc k = omega arith in
    let entry : is_entry (suc k) (get_or (drop 1 log_2) k 0) ≡ true =
      (rw one at (entry_of 1 (drop 1 log_2) k table_right (omega arith))) in
    is_entry-IsLog (suc k) (get_or (drop 1 log_2) k 0) entry

two-pow_eight : (n : ℕ) → 2 ^ (n + 8) ≡ 2 ^ n * 256
two-pow_eight n =
    let e : n + 8 ≡ suc (suc (suc (suc (suc (suc (suc (suc n))))))) = omega arith in
    rw e (
      omega (
        arith,
        two-pow-succ n,
        two-pow-succ (suc n),
        two-pow-succ (suc (suc n)),
        two-pow-succ (suc (suc (suc n))),
        two-pow-succ (suc (suc (suc (suc n)))),
        two-pow-succ (suc (suc (suc (suc (suc n))))),
        two-pow-succ (suc (suc (suc (suc (suc (suc n)))))),
        two-pow-succ (suc (suc (suc (suc (suc (suc (suc n))))))),
      ))

log2_loop-IsLog :
    (fuel x l : ℕ)
    → 1 ≤ x
    → x < 256 ^ suc fuel
    → (n : ℕ) × (log2_loop fuel x l ≡ l + suc n) × IsLog x n
unfolding log2_loop
log2_loop-IsLog zero x l low high =
    let (n, same, bounds) = log_2-IsLog x low (omega arith) in (n, ap (λ v. l + v) same, bounds)
log2_loop-IsLog (suc fuel) x l low high = elim (Bool-cases (leb 256 x)) [
  | inr small ↦
      let (n, same, bounds) = log_2-IsLog x low (ground (arith, small)) in
      rw small (n, ap (λ v. l + v) same, bounds)
  | inl large ↦
      let big : 256 ≤ x = ground (arith, large) in
      let (n, same, (above, below)) =
        log2_loop-IsLog fuel (x / 256) (l + 8) (omega arith)
          (omega (arith, high, pow-succ' 256 (suc fuel))) in
      let next : 2 ^ suc (n + 8) ≡ 2 ^ suc n * 256 =
        two-pow-succ (n + 8) ∙ omega (arith, two-pow_eight n, two-pow-succ n) in
      rw large (
        n + 8,
        same ∙ omega arith,
        (omega (arith, above, two-pow_eight n), omega (arith, below, next)),
      )
]

-- For an unsigned int that is not 0, `luaO_log2` is its logarithm to base 2, rounded down.
pub log2-IsLog : (x : ℕ) → 1 ≤ x → x < 2 ^ 32 → (n : ℕ) × (log2 x ≡ pos n) × IsLog x n
unfolding log2
log2-IsLog x low high =
    let (n, same, bounds) = log2_loop-IsLog 3 x 0 low (omega arith) in
    (n, (rw same (ground arith)), bounds)
