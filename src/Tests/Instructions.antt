-- ===== src/Tests/Instructions.antt =====
-- The instruction fields at concrete words.
use lua_reading.Prelude.{arith}
use lua_reading.Opcodes.{create_abc}
use lua_reading.Opcodes.Fields.{HasFields, create_abc-HasFields}

word-HasFields : HasFields (create_abc 12 3 256 7) 12 3 256 7
word-HasFields =
    create_abc-HasFields 12 3 256 7 (omega arith) (omega arith) (omega arith) (omega arith)
