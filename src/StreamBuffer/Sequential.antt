-- ===== src/StreamBuffer/Sequential.antt =====
-- What a client of `StreamBuffer` relies on: bytes with a reading position in them. Sequences of
-- calls on a buffer, and the same on such bytes.
pub mod Branches
pub mod Calls
pub mod Refines
pub mod Sound
use mathlib.Core.Path.{subst}
use netb.Prelude.{
  ℕ, suc, zero, ◌+◌, ◌-◌, ◌≤◌, ◌<◌, ◌≡◌, ◌==◌, ◌++◌, List, [], ◌∷◌, length, take, drop, slice,
  overwrite, Bool, true, false, Option, none, some, arith, Outcome, ok, ◌▹◌, ltb, if◌then◌else◌,
  refl, sym, ap, ◌∙◌, drop-drop, Bool-cases, lt→ltb, le→ltb,
}
use netb.Memory.{Bytes}
use netb.StreamBuffer.{StreamBuffer, write, read, peek, update, flush, clear, readable, is_empty}
use netb.StreamBuffer.Valid.{
  IsValid, HasRoom, contents, unread, appended, contents-appended, appended-IsValid, advanced,
}

-- The accessible bytes, and how many of them were read.
pub record Sequence : Type 0 where
  pub bytes : Bytes
  pub position : ℕ

abbrev pub rest : Sequence → Bytes
rest q = drop q.position q.bytes

-- The calls of a client, and what they tell it.
pub data Command : Type 0 where
  write_command : Bytes → Command
  read_command : ℕ → Command
  peek_command : ℕ → ℕ → Command
  update_command : ℕ → Bytes → Command
  flush_command clear_command readable_command empty_command : Command

pub data Response : Type 0 where
  accepted : Bool → Response
  given : Option Bytes → Response
  size : ℕ → Response
  cleared : Response

-- What the bytes promise
unfoldable pub expect : Command → Sequence → Response × Sequence
expect (write_command p) q = (accepted true, record q { bytes = q.bytes ++ p })
expect (read_command n) q =
    if ltb (length (rest q)) n
    then (given none, q)
    else (given (some (take n (rest q))), record q { position = q.position + n })
expect (peek_command i n) q =
    if ltb (length q.bytes - i) n then (given none, q) else (given (some (slice q.bytes i n)), q)
expect (update_command i p) q =
    if ltb (length q.bytes - i) (length p)
    then (accepted false, q)
    else (accepted true, record q { bytes = overwrite q.bytes i p })
expect flush_command q = (size (length (rest q)), record { bytes = rest q; position = 0 })
expect clear_command q = (cleared, record { bytes = []; position = 0 })
expect readable_command q = (size (length (rest q)), q)
expect empty_command q = (accepted (length q.bytes == 0), q)

-- The calls themselves; the offset that `Write` returns is left out.
unfoldable pub perform : Command → StreamBuffer → Outcome (Response × StreamBuffer)
perform (write_command p) b =
    write p b ▹ λ (r, b'). ok (accepted (elim r [ none ↦ false | some o ↦ true ]), b')
perform (read_command n) b = read n b ▹ λ (r, b'). ok (given r, b')
perform (peek_command i n) b = peek i n b ▹ λ r. ok (given r, b)
perform (update_command i p) b = update i p b ▹ λ (r, b'). ok (accepted r, b')
perform flush_command b = let (n, b') = flush b in ok (size n, b')
perform clear_command b = ok (cleared, clear b)
perform readable_command b = ok (size (readable b), b)
perform empty_command b = ok (accepted (is_empty b), b)

-- The bytes that a sequence of calls writes.
unfoldable pub written : List Command → ℕ
written [] = 0
written (write_command p ∷ cs) = length p + written cs
written (c ∷ cs) = written cs

unfoldable pub expect_all : List Command → Sequence → List Response × Sequence
unfolding expect
expect_all [] q = ([], q)
expect_all (c ∷ cs) q =
    let (r, q') = expect c q in let (rs, q'') = expect_all cs q' in (r ∷ rs, q'')

unfoldable pub perform_all : List Command → StreamBuffer → Outcome (List Response × StreamBuffer)
unfolding perform
perform_all [] b = ok ([], b)
perform_all (c ∷ cs) b = perform c b ▹ λ (r, b'). perform_all cs b' ▹ λ (rs, b''). ok (r ∷ rs, b'')
