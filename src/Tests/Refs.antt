-- ===== src/Tests/Refs.antt =====
-- References to values of a host, src/lauxlib.c.
use lua_reading.Prelude.{ℕ, ◌≡◌, refl, inr, none, [], ◌∷◌, arith, ◌==◌, if◌then◌else◌}
use lua_reading.Prelude.Int.{pos, negsuc}
use lua_reading.References.{Slot, nil, integer, value, to_integer, ref_value, ref, unref}
use lua_reading.References.Free.{IsKept, Refers, Refs, Frees, ref_value-Refs, unref-Frees}

-- The references 1 and 2, of which 1 is free, and 2 has the value 5.
abbrev shelf : ℕ → Slot ℕ
shelf k = if k == 0 then integer 1 else if k == 2 then value 5 else nil

abbrev objlen : (ℕ → Slot ℕ) → ℕ
objlen t = 2

shelf-IsKept : IsKept 2 (1 ∷ []) shelf
unfolding to_integer
shelf-IsKept = record {
  linked = (refl, omega arith, omega arith, tt, refl);
  used = λ k h le absent. let two : k ≡ 2 = ground (arith, h, le, absent.0) in rw two refl;
  beyond = λ k h. ground (arith, h);
}

shelf-Refers : Refers 2 (1 ∷ []) shelf 2 5
shelf-Refers = record {
  positive = omega arith;
  small = omega arith;
  in_use = ((λ e. omega (arith, e)), tt);
  holds = refl;
}

ref_value-Refs_example :
    Refs 2 (1 ∷ []) shelf 7 (ref_value objlen 7 shelf).0 (ref_value objlen 7 shelf).1
ref_value-Refs_example = ref_value-Refs objlen 2 (1 ∷ []) shelf 7 (refl, inr refl) shelf-IsKept

unref-Frees_example : Frees 2 (1 ∷ []) shelf 2 (unref (pos 2) shelf)
unref-Frees_example = unref-Frees 2 (1 ∷ []) shelf 2 5 shelf-IsKept shelf-Refers

-- The free reference is given, and then a new one.
two_refs :
    let first = ref_value objlen 7 shelf in (first.0 ≡ 1) × ((ref_value objlen 8 first.1).0 ≡ 3)
unfolding ref_value to_integer
two_refs = (refl, refl)

nil_has_its_own : (ref objlen none shelf).0 ≡ negsuc 0
unfolding ref
nil_has_its_own = refl
