-- ===== src/Pattern/Undo.antt =====
-- A failure undoes what was done to the captures.
use lua_reading.Prelude.{ℕ, suc, [], ◌∷◌, ◌≡◌, refl, ap, ◌∙◌, inl, inr, arith, Bool-cases}
use lua_reading.Pattern.Classes.{Checked, ok, raise}
use lua_reading.Pattern.Captures.{
  Length, unfinished, Capture, Captures, is_unfinished, one_more, capture_to_close, set_len,
}
use lua_reading.Pattern.Match.{Outcome, matched, failed, raised, exhausted, or_else}
use lua_reading.Pattern.Expand.{Decides}

one_more-ok : (m : Checked ℕ) (d : ℕ) → one_more m ≡ ok d → (d' : ℕ) × (m ≡ ok d') × (d ≡ suc d')
one_more-ok (ok d') d h = (d', refl, cc)
one_more-ok (raise e) d h = cc

-- A capture that is closed and reopened is as it was.
pub reopen :
    (cs : Captures) (d : ℕ) (len : Capture → Length)
    → capture_to_close cs ≡ ok d
    → set_len d (λ c. unfinished) (set_len d len cs) ≡ cs
unfolding capture_to_close
reopen [] d len h = cc
reopen (c ∷ cs) d len h = elim (Bool-cases (is_unfinished c.len)) [
  | inl e ↦
      let newest : d ≡ 0 = ground (arith, h, e) in
      let same : record c { len = unfinished } ≡ c = ground (arith, e) in
      rw newest (ap (λ x. x ∷ cs) same)
  | inr e ↦
      let (d', older, next) = one_more-ok (capture_to_close cs) d (rw e at h) in
      rw next (ap (λ x. c ∷ x) (reopen cs d' len older))
]

-- A failure undoes a change of the captures.
pub undo-Decides :
    (P Q : ℕ → Captures → Type 0) (changed cs : Captures) (o : Outcome) (undo : Captures → Captures)
    → undo changed ≡ cs
    → ((e : ℕ) (c : Captures) → P e c → Q e c)
    → ((e : ℕ) (c : Captures) → Q e c → P e c)
    → Decides P changed o
    → Decides Q cs (or_else o (λ c. failed (undo c)))
undo-Decides P Q changed cs (matched e c) undo back f g h = f e c h
undo-Decides P Q changed cs (failed c) undo back f g (same, no_match) =
    (ap undo same ∙ back, λ e c q. no_match e c (g e c q))
undo-Decides P Q changed cs (raised e) undo back f g h = tt
undo-Decides P Q changed cs exhausted undo back f g h = h
