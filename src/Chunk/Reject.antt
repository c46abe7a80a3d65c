-- ===== src/Chunk/Reject.antt =====
-- src/lundump.c on input that is no chunk: what the loader lets through, and what it refuses.
use lua_reading.Prelude.{
  ℕ, zero, suc, ◌-◌, ◌≤◌, Bool, true, false, List, [], ◌∷◌, length, take, All, Option, some, ◌≡◌,
  ◌≢◌, refl, sym, arith, Bool-cases, inl, inr,
}
use lua_reading.Proto.{Bytes, Proto, proto, Protos, end, cons}
use lua_reading.Chunk.Header.{header, bytes_eq, bytes_eq→eq, luac_headersize}
use lua_reading.Chunk.Load.{
  M, Error, Result, bad_header, ok, err, ◌>>=◌, return, raise_if, load_block, load_header, repeat,
  to_protos, finish, load_function, undump, unknown_source, max_ccalls,
}
use mathlib.Core.Path.{subst}
use lua_reading.Checker.Run.{checkcode}
use lua_reading.Stream.{Zio, read}
use lua_reading.Stream.Read.{stream, read-Delivers}

-- The checker has accepted the function and every function in it.
abbrev mutual
  pub AreAccepted : Protos → Type 0
  AreAccepted end = Unit {0}
  AreAccepted (cons f ps) = IsAccepted f × AreAccepted ps

  pub IsAccepted : Proto → Type 0
  IsAccepted (proto f ps) = (checkcode (proto f ps) ≡ true) × AreAccepted ps

-- What holds of every result of `m`.
record Ensures {A : Type 0} (m : M A) (P : A → Type 0) : Type 0 where
  holds : (z z' : Zio) (x : A) → m z ≡ ok x z' → P x

bind-eq-ok :
    {A B : Type 0} (r : Result A) (f : A → M B) (y : B) (z' : Zio)
    → elim r [ ok a z1 ↦ f a z1 | err e ↦ err e ] ≡ ok y z'
    → (x : A) × (z1 : Zio) × (r ≡ ok x z1) × (f x z1 ≡ ok y z')
bind-eq-ok (ok x z1) f y z' e = (x, z1, refl, e)
bind-eq-ok (err _) f y z' e = cc

bind-Ensures :
    {A B : Type 0} {m : M A} (f : A → M B) (Q : A → Type 0) {P : B → Type 0}
    → Ensures m Q
    → ((x : A) → Q x → Ensures (f x) P)
    → Ensures (m >>= f) P
unfolding ◌>>=◌
bind-Ensures {m = m} f Q h k = record {
  holds = λ z z' y e.
      let (x, z1, first, second) = bind-eq-ok (m z) f y z' e in
      (k x (h.holds z z1 x first)).holds z1 z' y second;
}

-- A step whose result does not matter.
any-Ensures :
    {A B : Type 0} (m : M A) (f : A → M B) {P : B → Type 0}
    → ((x : A) → Ensures (f x) P)
    → Ensures (m >>= f) P
any-Ensures m f k =
    bind-Ensures {m = m} f (λ _. Unit {0}) (record { holds = λ z z' x e. tt }) (λ x _. k x)

raise_if-Ensures : (b : Bool) (e : Error) → Ensures (raise_if b e) (λ _. b ≡ false)
raise_if-Ensures true e = record { holds = λ z z' x h. cc }
raise_if-Ensures false e = record { holds = λ z z' x h. refl }

return-Ensures : {A : Type 0} (x : A) (P : A → Type 0) → P x → Ensures (return x) P
return-Ensures x P h = record { holds = λ z z' y e. subst P (cc) h }

repeat-Ensures :
    {A : Type 0} (n : ℕ) (m : M A) (P : A → Type 0) → Ensures m P → Ensures (repeat n m) (All P)
unfolding repeat
repeat-Ensures zero m P h = return-Ensures [] (All P) tt
repeat-Ensures (suc n) m P h = bind-Ensures _ P h (λ x hx.
    bind-Ensures _ (All P) (repeat-Ensures n m P h)
      (λ xs hs. return-Ensures (x ∷ xs) (All P) (hx, hs)))

to_protos-AreAccepted : (fs : List Proto) → All IsAccepted fs → AreAccepted (to_protos fs)
unfolding to_protos
to_protos-AreAccepted [] h = tt
to_protos-AreAccepted (f ∷ fs) (hf, hs) = (hf, to_protos-AreAccepted fs hs)

load_function-Ensures : (room : ℕ) (p : Option Bytes) → Ensures (load_function room p) IsAccepted
unfolding load_function finish
load_function-Ensures zero p = record { holds = λ z z' x e. cc }
load_function-Ensures (suc room) p = any-Ensures _ _ λ f. any-Ensures _ _ λ k. any-Ensures _ _ λ n.
    bind-Ensures _ (All IsAccepted)
      (repeat-Ensures n _ IsAccepted (load_function-Ensures room f.source))
      λ ps hps. any-Ensures _ _ λ d.
        bind-Ensures _ _ (raise_if-Ensures _ _)
          λ _ accepted. return-Ensures _ IsAccepted (ground arith, to_protos-AreAccepted ps hps)

-- Whatever the input, a function that `luaU_undump` returns has been accepted by the checker, and so
-- has every function in it.
pub undump-IsAccepted :
    (calls : ℕ) (z z' : Zio) (f : Proto) → undump calls z ≡ ok f z' → IsAccepted f
unfolding undump
undump-IsAccepted calls z z' f e =
    let top = load_function-Ensures (max_ccalls - calls) (some unknown_source) in
    (any-Ensures _ _ λ _. top).holds z z' f e

load_block_full :
    (n : ℕ) (z : Zio)
    → n ≤ length (stream z)
    → load_block n z ≡ ok (take n (stream z)) (read n z).zio
unfolding load_block
load_block_full n z enough =
    let d = read-Delivers n z in
    let none_missing : (read n z).missing ≡ 0 = omega (arith, d.short) in
    rw (none_missing, d.copied)

-- A stream that holds the 12 bytes of a header, but not those of this version and host, is refused
-- with "bad header".
pub undump_bad_header :
    (calls : ℕ) (z : Zio)
    → luac_headersize ≤ length (stream z)
    → take luac_headersize (stream z) ≢ header
    → undump calls z ≡ err bad_header
unfolding undump load_header ◌>>=◌
undump_bad_header calls z enough differs =
    let front = take luac_headersize (stream z) in
    elim (Bool-cases (bytes_eq header front)) [
      | inl e ↦ absurd (differs (sym (bytes_eq→eq header front e)))
      | inr e ↦ ground (arith, load_block_full luac_headersize z enough, e)
    ]
