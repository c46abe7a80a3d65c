-- ===== src/Stream/Read.antt =====
-- Reading through buffers of any size is reading from one stream of bytes.
use lua_reading.Prelude.{
  ℕ, zero, suc, ◌-◌, List, [], ◌∷◌, ◌++◌, Option, none, some, length, take, drop, min, ◌≤◌, ◌≡◌,
  refl, ◌∙◌, arith, length-append, length-drop, take_two, drop_two, Option-cases, inl, inr,
}
use lua_reading.Stream.{Zio, fill_from, fill, put_back, lookahead, Transfer, read_loop, read}

-- The bytes that come before the reader's first empty answer.
abbrev answered : List (List ℕ) → List ℕ
answered [] = []
answered ([] ∷ answers) = []
answered ((c ∷ p) ∷ answers) = (c ∷ p) ++ answered answers

abbrev pub stream : Zio → List ℕ
stream z = z.buffer ++ answered z.answers

-- A lookahead keeps the stream; it fails only at its end, and else leaves a byte in the buffer.
record Looks (z : Zio) (r : Option ℕ × Zio) : Type 0 where
  ended : r.0 ≡ none → stream z ≡ []
  kept : (c : ℕ) → r.0 ≡ some c → (stream r.1 ≡ stream z) × (1 ≤ length r.1.buffer)

lookahead_from-Looks :
    (p : List ℕ) (answers : List (List ℕ))
    → let z : Zio = record { buffer = p; answers = answers } in Looks z (lookahead z)
unfolding lookahead fill fill_from put_back
lookahead_from-Looks [] [] = record { ended = λ e. refl; kept = λ c e. cc }
lookahead_from-Looks [] ([] ∷ answers) = record { ended = λ e. refl; kept = λ c e. cc }
lookahead_from-Looks [] ((x ∷ p) ∷ answers) = record {
  ended = λ e. cc;
  kept = λ c e. (refl, omega arith);
}
lookahead_from-Looks (x ∷ p) answers = record { ended = λ e. cc; kept = λ c e. (refl, omega arith) }

lookahead-Looks : (z : Zio) → Looks z (lookahead z)
lookahead-Looks z = lookahead_from-Looks z.buffer z.answers

-- What a transfer of `n` bytes from the stream `s` leaves.
pub record Delivers (n : ℕ) (s : List ℕ) (r : Transfer) : Type 0 where
  pub copied : r.bytes ≡ take n s
  pub short : r.missing ≡ n - length s
  pub left : n ≤ length s → stream r.zio ≡ drop n s

read_loop-Delivers : (fuel n : ℕ) (z : Zio) → n ≤ fuel → Delivers n (stream z) (read_loop fuel n z)
unfolding read_loop
read_loop-Delivers fuel zero z h = record { copied = refl; short = omega arith; left = λ _. refl }
read_loop-Delivers zero (suc n) z h = absurd (omega arith)
read_loop-Delivers (suc fuel) (suc n) z h =
    let seen = lookahead-Looks z in
    let z' = (lookahead z).1 in
    elim (Option-cases (lookahead z).0) [
      | inl e ↦
          rw (e, read_loop, seen.ended e)
            (record { copied = refl; short = omega arith; left = λ k. absurd (omega arith) })
      | inr (c, e) ↦
          let (same, filled) = seen.kept c e in
          let m = min (suc n) (length z'.buffer) in
          let rest =
            read_loop-Delivers fuel (suc n - m) (record z' { buffer = drop m z'.buffer })
              (omega arith) in
          rw (e, read_loop, ← same)
            (record {
              copied = rw rest.copied (take_two m (suc n) z'.buffer _ (omega arith) (omega arith));
              short = rest.short ∙ simp (length-append, length-drop) (omega arith);
              left = λ k.
                  rest.left (rw (length-append, length-drop) (omega (arith, rw length-append at k)))
                  ∙ drop_two m (suc n) z'.buffer _ (omega arith) (omega arith);
            })
    ]

-- Whatever buffers the reader answers with, `luaZ_read` copies the next `n` bytes of the stream that
-- they make up, or all that are left of it, and returns how many are missing; if none is, what
-- follows is left to be read.
pub read-Delivers : (n : ℕ) (z : Zio) → Delivers n (stream z) (read n z)
unfolding read
read-Delivers n z = read_loop-Delivers n n z (omega arith)
