-- ===== src/Strings/Format.antt =====
-- src/lstrlib.c: the option `%q` of `string.format`.
use lua_reading.Prelude.{ℕ, ◌||◌, [], ◌∷◌, ◌++◌, ◌==◌, if◌then◌else◌}
use lua_reading.Proto.{Bytes}

-- The switch of `addquoted`: what one byte adds to the buffer.
unfoldable pub quoted_byte : ℕ → Bytes
quoted_byte c =
    if c == b'"' || c == b'\\' || c == b'\n'
    then b'\\' ∷ c ∷ []
    else if c == b'\r'
    then b'\\' ∷ b'r' ∷ []
    else if c == 0
    then b'\\' ∷ b'0' ∷ b'0' ∷ b'0' ∷ []
    else c ∷ []

-- The loop of `addquoted`.
unfoldable pub quoted : Bytes → Bytes
quoted [] = []
quoted (c ∷ s) = quoted_byte c ++ quoted s

-- `addquoted`: what it adds to the buffer.
unfoldable pub addquoted : Bytes → Bytes
addquoted s = b'"' ∷ quoted s ++ b'"' ∷ []
