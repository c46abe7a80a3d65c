-- ===== src/Interning/Resize.antt =====
-- `luaS_resize` moves every string to its chain, and adds and loses none.
use lua_reading.Prelude.{
  ℕ, zero, suc, ◌+◌, ◌*◌, ◌/◌, ◌^◌, ◌≤◌, ◌<◌, ◌≡◌, refl, sym, ap, ◌∙◌, ◌↔◌, ◌⊎◌, inl, inr, Bool,
  true, false, ◌&&◌, List, [], ◌∷◌, arith, ltb, leb, ◌==◌, if◌then◌else◌, ==_iff, Bool-cases,
}
use lua_reading.Prelude.Bits.{bit_and-ones}
use native.Mathlib.Nat.{mod-lt, one-le-pow, two-pow-succ}
use lua_reading.Interning.{
  TString, Chains, StringTable, lmod, push_front, rehash_chain, rehash, rehashed, resize, grow,
  max_int,
}

abbrev pub IsIn : TString → List TString → Type 0
IsIn a [] = ⊥
IsIn a (b ∷ bs) = (a ≡ b) ⊎ IsIn a bs

-- A string of the table, in the chain `i`.
abbrev pub IsAt : StringTable → ℕ → TString → Type 0
IsAt tb i a = (i < tb.size) × IsIn a (tb.hash i)

module _ (newsize : ℕ) (a : TString) where
  -- Where a string belongs.
  abbrev Goes : ℕ → Type 0
  Goes i = lmod a.hash newsize ≡ i

  pub push_front-IsIn :
      (chains : Chains) (i k : ℕ) (p : TString)
      → IsIn a (push_front chains i p k) ↔ (IsIn a (chains k) ⊎ ((k ≡ i) × (a ≡ p)))
  push_front-IsIn chains i k p = elim (Bool-cases (k == i)) [
    | inl e ↦
        let same : k ≡ i = (==_iff _ _).0 e in
        rw e (
          (λ h. elim h [ inl here ↦ inr (same, here) | inr x ↦ inl x ]),
          λ h. elim h [ inl x ↦ inr x | inr (_, here) ↦ inl here ],
        )
    | inr e ↦
        rw e (
          (λ h. inl h),
          λ h. elim h [ inl x ↦ x | inr (same, _) ↦ absurd (ground (arith, e, same)) ],
        )
  ]

  rehash_chain-from :
      (ps : List TString) (chains : Chains) (k : ℕ)
      → IsIn a (rehash_chain newsize ps chains k)
      → IsIn a (chains k) ⊎ (IsIn a ps × Goes k)
  unfolding rehash_chain
  rehash_chain-from [] chains k h = inl h
  rehash_chain-from (p ∷ ps) chains k h =
      elim (rehash_chain-from ps (push_front chains (lmod p.hash newsize) p) k h) [
        | inr (i, goes) ↦ inr (inr i, goes)
        | inl h' ↦ elim ((push_front-IsIn chains (lmod p.hash newsize) k p).0 h') [
          | inl was ↦ inl was
          | inr (same, e) ↦ inr (inl e, ap (λ x. lmod (TString.hash x) newsize) e ∙ sym same)
        ]
      ]

  rehash_chain-to :
      (ps : List TString) (chains : Chains) (k : ℕ)
      → IsIn a (chains k) ⊎ (IsIn a ps × Goes k)
      → IsIn a (rehash_chain newsize ps chains k)
  unfolding rehash_chain
  rehash_chain-to [] chains k (inl h) = h
  rehash_chain-to [] chains k (inr (h, _)) = absurd h
  rehash_chain-to (p ∷ ps) chains k (inl h) =
      rehash_chain-to ps (push_front chains (lmod p.hash newsize) p) k
        (inl ((push_front-IsIn chains (lmod p.hash newsize) k p).1 (inl h)))
  rehash_chain-to (p ∷ ps) chains k (inr (inl e, goes)) =
      rehash_chain-to ps (push_front chains (lmod p.hash newsize) p) k (
        inl (
          (push_front-IsIn chains (lmod p.hash newsize) k p).1
            (inr (sym goes ∙ ap (λ x. lmod (TString.hash x) newsize) e, e))))
  rehash_chain-to (p ∷ ps) chains k (inr (inr i, goes)) =
      rehash_chain-to ps (push_front chains (lmod p.hash newsize) p) k (inr (i, goes))

  -- A string of one of `left` chains from `i` on.
  abbrev Among : Chains → ℕ → ℕ → Type 0
  Among old left i = (j : ℕ) × (i ≤ j) × (j < i + left) × IsIn a (old j)

  rehash-from :
      (old : Chains) (left i : ℕ) (chains : Chains) (k : ℕ)
      → IsIn a (rehash newsize old left i chains k)
      → IsIn a (chains k) ⊎ (Among old left i × Goes k)
  unfolding rehash
  rehash-from old zero i chains k h = inl h
  rehash-from old (suc left) i chains k h =
      elim (rehash-from old left (i + 1) (rehash_chain newsize (old i) chains) k h) [
        | inr ((j, low, high, at), goes) ↦ inr ((j, omega arith, omega arith, at), goes)
        | inl h' ↦ elim (rehash_chain-from (old i) chains k h') [
          | inl was ↦ inl was
          | inr (at, goes) ↦ inr ((i, omega arith, omega arith, at), goes)
        ]
      ]

  rehash-to :
      (old : Chains) (left i : ℕ) (chains : Chains) (k : ℕ)
      → IsIn a (chains k) ⊎ (Among old left i × Goes k)
      → IsIn a (rehash newsize old left i chains k)
  unfolding rehash
  rehash-to old zero i chains k (inl h) = h
  rehash-to old zero i chains k (inr ((j, low, high, at), goes)) = absurd (omega arith)
  rehash-to old (suc left) i chains k (inl h) =
      rehash-to old left (i + 1) _ k (inl (rehash_chain-to (old i) chains k (inl h)))
  rehash-to old (suc left) i chains k (inr ((j, low, high, at), goes)) =
      elim (Bool-cases (j == i)) [
        | inl e ↦
            let same : j ≡ i = (==_iff _ _).0 e in
            rehash-to old left (i + 1) _ k
              (inl (rehash_chain-to (old i) chains k (inr (rw same at at, goes))))
        | inr e ↦
            rehash-to old left (i + 1) _ k
              (inr ((j, ground (arith, e, low), omega (arith, high), at), goes))
      ]

-- Every string is in the chain that its hash belongs to, and there are 2 ^ p chains.
abbrev pub IsPlaced : ℕ → StringTable → Type 0
IsPlaced p tb = (tb.size ≡ 2 ^ p) × ((i : ℕ) (a : TString) → IsAt tb i a → lmod a.hash tb.size ≡ i)

pub lmod-size : (p h : ℕ) → lmod h (2 ^ p) < 2 ^ p
unfolding lmod
lmod-size p h = rw (bit_and-ones p h) (mod-lt h (one-le-pow p 2 (omega arith)))

-- A string of the table, in any chain.
abbrev pub Has : StringTable → TString → Type 0
Has tb a = (i : ℕ) × IsAt tb i a

-- A well-placed table with the same strings.
abbrev pub Keeps : StringTable → StringTable → Type 0
Keeps tb tb' = ((r : ℕ) × IsPlaced r tb') × ((a : TString) → Has tb a ↔ Has tb' a)

rehashed-Keeps : (q : ℕ) (tb : StringTable) → Keeps tb (rehashed (2 ^ q) tb)
rehashed-Keeps q tb = (
  (
    q,
    (
      refl,
      λ i a (fits, h). elim (rehash-from (2 ^ q) a tb.hash tb.size 0 (λ k. []) i h) [
        | inl nothing ↦ absurd nothing
        | inr (_, goes) ↦ goes
      ],
    ),
  ),
  λ a. (
    (λ (i, (fits, h)). (
      lmod (TString.hash a) (2 ^ q),
      (
        lmod-size q (TString.hash a),
        rehash-to (2 ^ q) a tb.hash tb.size 0 (λ k. []) _
            (inr ((i, omega arith, omega (arith, fits), h), refl)),
      ),
    )),
    λ (i, (fits, h)). elim (rehash-from (2 ^ q) a tb.hash tb.size 0 (λ k. []) i h) [
      | inl nothing ↦ absurd nothing
      | inr ((j, low, high, at), goes) ↦ (j, (omega (arith, high), at))
    ],
  ),
)

either-Keeps :
    (b : Bool) (tb t1 t2 : StringTable)
    → Keeps tb t1
    → Keeps tb t2
    → Keeps tb (if b then t1 else t2)
either-Keeps true tb t1 t2 h k = h
either-Keeps false tb t1 t2 h k = k

-- `luaS_resize` to a power of 2 keeps the strings of a well-placed table, and leaves it well placed.
pub resize-Keeps : (p q : ℕ) (tb : StringTable) → IsPlaced p tb → Keeps tb (resize (2 ^ q) tb)
unfolding resize
resize-Keeps p q tb placed =
    either-Keeps tb.sweeping tb tb (rehashed (2 ^ q) tb) ((p, placed), λ a. ((λ h. h), λ h. h))
      (rehashed-Keeps q tb)

-- `newlstr` doubles the size.
pub grow-Keeps : (p : ℕ) (tb : StringTable) → IsPlaced p tb → Keeps tb (grow tb)
grow-Keeps p tb placed =
    let double : tb.size * 2 ≡ 2 ^ suc p = omega (arith, placed.0, two-pow-succ p) in
    either-Keeps (ltb tb.size tb.nuse && leb tb.size (max_int / 2)) tb (resize (tb.size * 2) tb) tb
      (rw double (resize-Keeps p (suc p) tb placed)) ((p, placed), λ a. ((λ h. h), λ h. h))
