-- ===== src/Tests/Buffers.antt =====
-- The theorems on StreamBuffer at concrete buffers.
use netb.Prelude.{◌⊎◌, List, true, ◌≡◌, [], ◌∷◌, none, some, ok, fault, undefined, arith}
use netb.StreamBuffer.{assign, StreamBuffer, write}
use netb.StreamBuffer.Valid.{IsValid, contents, unread}
use netb.StreamBuffer.Copy.{assign_lem}
use netb.StreamBuffer.Write.{write_appends, write_overflow}
use netb.StreamBuffer.Reclaim.{write_reclaims, write_undefined}
use netb.StreamBuffer.Sequential.{
  Command, write_command, read_command, peek_command, update_command, flush_command, accepted,
  given, size, written, expect_all, perform_all,
}
use netb.StreamBuffer.Sequential.Calls.{view}
use netb.StreamBuffer.Sequential.Refines.{perform_all-expect_all}
use netb.StreamBuffer.Sequential.Sound.{IsSound, Completes, Breaks, perform_all_lem}
use netb.Tests.Fixtures.{
  unlimited, partly_read, partly_read-IsValid, partly_read-HasRoom, partly_read-NeedsReclaim,
  mostly_flushed, mostly_flushed-NeedsReclaim,
}

write_appends_example :
    (b' : StreamBuffer) × (write (7 ∷ 8 ∷ []) partly_read ≡ ok (some 5, b'))
    × (contents b' ≡ 2 ∷ 3 ∷ 4 ∷ 5 ∷ 7 ∷ 8 ∷ [])
    × (unread b' ≡ 3 ∷ 4 ∷ 5 ∷ 7 ∷ 8 ∷ [])
    × IsValid b'
write_appends_example = write_appends (7 ∷ 8 ∷ []) partly_read-HasRoom

write_overflow_example : write (1 ∷ 2 ∷ 3 ∷ 4 ∷ 5 ∷ []) partly_read ≡ ok (none, partly_read)
write_overflow_example =
    write_overflow (1 ∷ 2 ∷ 3 ∷ 4 ∷ 5 ∷ []) partly_read-IsValid (omega arith) (omega arith)
      (omega arith)

write_reclaims_example :
    (b' : StreamBuffer) × (write (7 ∷ 8 ∷ 9 ∷ 10 ∷ []) partly_read ≡ ok (some 4, b'))
    × (contents b' ≡ 2 ∷ 3 ∷ 4 ∷ 1 ∷ 7 ∷ 8 ∷ 9 ∷ 10 ∷ [])
    × IsValid b'
write_reclaims_example = write_reclaims (7 ∷ 8 ∷ 9 ∷ 10 ∷ []) partly_read-NeedsReclaim (omega arith)

write_undefined_example : write (7 ∷ 8 ∷ 9 ∷ 10 ∷ []) mostly_flushed ≡ fault undefined
write_undefined_example =
    write_undefined (7 ∷ 8 ∷ 9 ∷ 10 ∷ []) mostly_flushed-NeedsReclaim (omega arith)

-- The assigned contents begin with the flushed byte.
assign_lem_example :
    (b' : StreamBuffer) × (assign unlimited partly_read ≡ ok b')
    × (contents b' ≡ 1 ∷ 2 ∷ 3 ∷ 4 ∷ [])
    × IsValid b'
assign_lem_example = assign_lem partly_read-IsValid unlimited (omega arith) (omega arith)

-- Two bytes are written, four are read of five that are left; looked at; changed; and flushed.
abbrev calls : List Command
calls =
    write_command (7 ∷ 8 ∷ [])
    ∷ read_command 4
    ∷ peek_command 1 2
    ∷ update_command 5 (9 ∷ [])
    ∷ read_command 3
    ∷ flush_command
    ∷ []

perform_all-expect_all_example :
    (b' : StreamBuffer) × (perform_all calls partly_read
      ≡ ok (
        accepted true
            ∷ given (some (3 ∷ 4 ∷ 5 ∷ 7 ∷ []))
            ∷ given (some (3 ∷ 4 ∷ []))
            ∷ accepted true
            ∷ given none
            ∷ size 1
            ∷ [],
        b',
      ))
    × (view b' ≡ record { bytes = 9 ∷ []; position = 0 })
unfolding written expect_all view
perform_all-expect_all_example =
    perform_all-expect_all calls (record { has_room = partly_read-HasRoom; ordered = omega arith })

partly_read-IsSound : IsSound partly_read
partly_read-IsSound = record {
  valid = partly_read-IsValid;
  ordered = omega arith;
  limited = omega arith;
  small = omega arith;
}

perform_all_lem_example : Completes calls partly_read ⊎ Breaks calls partly_read
unfolding written
perform_all_lem_example = perform_all_lem calls partly_read-IsSound (omega arith)
