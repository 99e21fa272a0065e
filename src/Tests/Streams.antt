-- ===== src/Tests/Streams.antt =====
-- The theorems on readers, writers, names and headers at concrete inputs.
use netb.Prelude.{◌≡◌, none, ok, arith, refl}
use netb.Host.{little, half_wire32}
use netb.StreamBuffer.{StreamBuffer, ◌>>=◌}
use netb.StreamBuffer.Valid.{unread}
use netb.StreamReader
use netb.StreamReader.Decodes.{reader}
use netb.StreamWriter
use netb.StreamWriter.{succeeds}
use netb.StreamWriter.Encodes.{writer}
use netb.Roundtrip.{integer32-unsigned32}
use netb.Tests.Fixtures.{unlimited, unlimited-HasRoom}

integer32-unsigned32_example :
    (b' : StreamBuffer) × ((succeeds (StreamWriter.unsigned32 little writer 305419896) >>= λ _.
    StreamReader.integer32 little reader)
        unlimited
      ≡ ok (none, b'))
    × (unread b' ≡ half_wire32 little 305419896)
integer32-unsigned32_example =
    integer32-unsigned32 little 305419896 unlimited (omega arith)
      (unlimited-HasRoom 2 (omega arith)) refl
