-- ===== src/Tests/Comparisons.antt =====
-- Strings compared and sorted, src/lvm.c and src/ltablib.c, and the name of a chunk, src/lobject.c.
use lua_reading.Prelude.{ℕ, ◌<◌, ◌≡◌, refl, some, [], ◌∷◌, arith, length, get_or}
use lua_reading.Proto.{Bytes}
use lua_reading.Lexer.Numerals.{c_string}
use lua_reading.Ordering.{less, after_equal, strcmp_loop, l_strcmp, less_than}
use lua_reading.Ordering.Lexical.{lexical, l_strcmp-lexical, sort-less_than}
use lua_reading.ChunkId.{chunkid, file_id, shorten, chunkid_fits}
use lua_reading.Sorting.{sort}
use lua_reading.Sorting.Sorted.{Sorts}

-- They differ behind a '\0'.
abbrev one : Bytes
one = b'a' ∷ 0 ∷ b'b' ∷ []

abbrev two : Bytes
two = b'a' ∷ 0 ∷ b'c' ∷ []

l_strcmp-lexical_example : l_strcmp lexical one two ≡ some (lexical one two)
l_strcmp-lexical_example = l_strcmp-lexical lexical (λ l r. refl) one two

one_before_two : l_strcmp lexical one two ≡ some less
unfolding l_strcmp strcmp_loop after_equal lexical c_string
one_before_two = refl

abbrev words : ℕ → Bytes
words i = get_or ([] ∷ two ∷ one ∷ []) i []

sort-less_than_example : Sorts (less_than lexical) 1 2 words (sort (less_than lexical) 2 words)
sort-less_than_example = sort-less_than lexical (λ l r. refl) 2 words

-- The source `@abcdefghijkl` in a buffer of 17 bytes.
abbrev long_name : Bytes
long_name =
    b'@' ∷ b'a' ∷ b'b' ∷ b'c' ∷ b'd' ∷ b'e' ∷ b'f' ∷ b'g' ∷ b'h' ∷ b'i' ∷ b'j' ∷ b'k' ∷ b'l' ∷ []

chunkid_fits_example : length (chunkid 17 long_name) < 17
chunkid_fits_example = chunkid_fits 17 long_name (omega arith) (omega arith)

end_of_name :
    chunkid 17 long_name
    ≡ b'.' ∷ b'.' ∷ b'.' ∷ b'd' ∷ b'e' ∷ b'f' ∷ b'g' ∷ b'h' ∷ b'i' ∷ b'j' ∷ b'k' ∷ b'l' ∷ []
unfolding chunkid file_id shorten
end_of_name = refl
