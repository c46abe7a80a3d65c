-- ===== src/ChunkId.antt =====
-- `luaO_chunkid` of src/lobject.c, which describes a source for messages. A C string is its bytes
-- before the '\0'; `out` is what the function leaves there.
use lua_reading.Prelude.{
  ℕ, zero, suc, ◌+◌, ◌-◌, ◌%◌, ◌^◌, ◌≤◌, ◌<◌, ◌≡◌, inl, inr, ◌||◌, [], ◌∷◌, ◌++◌, arith, ltb, ◌==◌,
  if◌then◌else◌, Bool-cases, length, take, drop, length-append, length-drop,
}
use lua_reading.Proto.{Bytes}

-- `bufflen -= size`, for a size_t of 8 bytes
unfoldable pub shorten : ℕ → ℕ → ℕ
shorten bufflen size = (bufflen + 2 ^ 64 - size) % 2 ^ 64

abbrev dots : Bytes
dots = b'.' ∷ b'.' ∷ b'.' ∷ []

-- `strcspn(source, "\n\r")`
unfoldable pub line_length : Bytes → ℕ
line_length [] = 0
line_length (c ∷ s) = let rest = line_length s in if c == b'\n' || c == b'\r' then 0 else suc rest

-- `out = "source", or "...source"`
unfoldable pub file_id : ℕ → Bytes → Bytes
file_id room source =
    let l = length source in if ltb room l then dots ++ drop (l - room) source else source

-- The part of the source between the quotes.
unfoldable pub shown : ℕ → Bytes → Bytes
shown len source = if ltb len (length source) then take len source ++ dots else source

-- `out = [string "string"]`
unfoldable pub string_id : ℕ → Bytes → Bytes
string_id room source =
    let len = line_length source in
    let len' = if ltb room len then room else len in
    b'[' ∷ b's' ∷ b't' ∷ b'r' ∷ b'i' ∷ b'n' ∷ b'g' ∷ b' ' ∷ b'"' ∷ shown len' source
    ++ b'"' ∷ b']' ∷ []

-- `luaO_chunkid`; the sizes are those of the literals ` '...' ` and ` [string "..."] `.
unfoldable pub chunkid : ℕ → Bytes → Bytes
chunkid bufflen [] = string_id (shorten bufflen 17) []
chunkid bufflen (c ∷ source) =
    if c == b'='
    then take (bufflen - 1) source
    else if c == b'@'
    then file_id (shorten bufflen 8) source
    else string_id (shorten bufflen 17) (c ∷ source)

length-take_le : (n : ℕ) (s : Bytes) → length (take n s) ≤ n
length-take_le zero s = omega arith
length-take_le (suc n) [] = omega arith
length-take_le (suc n) (c ∷ s) = omega (arith, length-take_le n s)

file_id_fits : (room : ℕ) (s : Bytes) → length (file_id room s) ≤ room + 3
unfolding file_id
file_id_fits room s = elim (Bool-cases (ltb room (length s))) [
  | inl h ↦ rw h (
      omega (arith, length-append dots (drop (length s - room) s), length-drop (length s - room) s))
  | inr h ↦ rw h (ground (arith, h))
]

shown_fits : (len room : ℕ) (s : Bytes) → len ≤ room → length (shown len s) ≤ room + 3
unfolding shown
shown_fits len room s h = elim (Bool-cases (ltb len (length s))) [
  | inl e ↦ rw e (omega (arith, length-append (take len s) dots, length-take_le len s, h))
  | inr e ↦ rw e (ground (arith, e, h))
]

string_id_fits : (room : ℕ) (s : Bytes) → length (string_id room s) ≤ room + 14
unfolding string_id
string_id_fits room s =
    let len = if ltb room (line_length s) then room else line_length s in
    let small : len ≤ room = ground arith in
    omega (arith, length-append (shown len s) (b'"' ∷ b']' ∷ []), shown_fits len room s small)

room_left :
    (bufflen size : ℕ) → size ≤ bufflen → bufflen < 2 ^ 64 → shorten bufflen size + size ≡ bufflen
unfolding shorten
room_left bufflen size h fits = omega (arith, h, fits)

-- What `luaO_chunkid` writes, with the '\0' at its end, fits in a buffer of 17 bytes or more, whatever
-- the source.
pub chunkid_fits :
    (bufflen : ℕ) (source : Bytes)
    → 17 ≤ bufflen
    → bufflen < 2 ^ 64
    → length (chunkid bufflen source) < bufflen
unfolding chunkid
chunkid_fits bufflen [] large small =
    omega (arith, string_id_fits (shorten bufflen 17) [], room_left bufflen 17 large small)
chunkid_fits bufflen (c ∷ s) large small = elim (Bool-cases (c == b'=')) [
  | inl h ↦ rw h (omega (arith, length-take_le (bufflen - 1) s, large))
  | inr h ↦ elim (Bool-cases (c == b'@')) [
    | inl k ↦
        let eight : 8 ≤ bufflen = omega (arith, large) in
        rw (h, k)
          (omega (arith, file_id_fits (shorten bufflen 8) s, room_left bufflen 8 eight small))
    | inr k ↦
        rw (h, k)
          (omega
            (arith, string_id_fits (shorten bufflen 17) (c ∷ s), room_left bufflen 17 large small))
  ]
]
