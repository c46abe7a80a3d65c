-- ===== src/Tests/Names.antt =====
-- Interned strings in a table of two chains, src/lstring.c.
use lua_reading.Prelude.{◌≡◌, refl, false, some, [], ◌∷◌, ◌==◌, if◌then◌else◌}
use lua_reading.Proto.{Bytes}
use lua_reading.Chunk.Header.{bytes_eq}
use lua_reading.Interning.{TString, StringTable, hash_loop, hash_of, lmod, newlstr, lookup, intern}
use lua_reading.Interning.Resize.{IsPlaced}
use lua_reading.Interning.Unique.{IsTable, Interns, intern-Interns}

abbrev fresh : StringTable
fresh = record { hash = λ i. []; nuse = 0; size = 2; is_dead = λ a. false; sweeping = false }

abbrev if_word : Bytes
if_word = b'i' ∷ b'f' ∷ []

-- The string that `luaS_newlstr` makes at the address 7.
abbrev if_string : TString
if_string = record { addr = 7; bytes = if_word; hash = hash_of if_word }

fresh-IsPlaced : IsPlaced 1 fresh
fresh-IsPlaced = (refl, λ i a (fits, h). absurd h)

fresh-IsTable : IsTable fresh
fresh-IsTable =
    ((1, fresh-IsPlaced), ((λ a (i, (fits, h)). absurd h), λ a b (i, (fits, h)). absurd h))

intern-Interns_example : Interns fresh if_word (intern if_word 7 fresh)
intern-Interns_example = intern-Interns fresh if_word 7 fresh-IsTable

abbrev with_if : StringTable
with_if = record fresh {
  hash = λ k. if k == lmod (hash_of if_word) 2 then if_string ∷ [] else [];
  nuse = 1;
  is_dead = λ a. if a == 7 then false else false;
}

interned : intern if_word 7 fresh ≡ some (if_string, with_if)
unfolding intern newlstr lookup hash_of hash_loop lmod
interned = refl

abbrev with_if_again : StringTable
with_if_again = record with_if {
  is_dead = λ a. if a == 7 then false else if a == 7 then false else false;
}

interned_again : intern if_word 8 with_if ≡ some (if_string, with_if_again)
unfolding intern newlstr lookup hash_of hash_loop lmod bytes_eq
interned_again = refl
