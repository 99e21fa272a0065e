-- ===== src/StreamBuffer/Sequential/Refines.antt =====
-- Sequences of calls on a buffer with room do what the bytes that it holds promise.
use netb.Prelude.{◌≡◌, List, [], ◌∷◌, ok, refl}
use netb.StreamBuffer.{StreamBuffer}
use netb.StreamBuffer.Sequential.{
  Command, write_command, read_command, peek_command, update_command, flush_command, clear_command,
  readable_command, empty_command, written, expect_all, perform_all,
}
use netb.StreamBuffer.Sequential.Calls.{
  view, IsReady, Refines, write-Refines, read-Refines, peek-Refines, update-Refines, flush-Refines,
  clear-Refines, readable-Refines, empty-Refines,
}

-- That the calls answer, and leave the buffer, as the bytes do.
Follows : List Command → StreamBuffer → Type 0
Follows cs b =
    (b' : StreamBuffer) × (perform_all cs b ≡ ok ((expect_all cs (view b)).0, b'))
    × (view b' ≡ (expect_all cs (view b)).1)

chain :
    (c : Command) (cs : List Command) (b : StreamBuffer)
    → Refines c (written cs) b
    → ((b' : StreamBuffer) → IsReady (written cs) b' → Follows cs b')
    → Follows (c ∷ cs) b
unfolding Follows perform_all expect_all
chain c cs b (b', e, v, r, l) go =
    let (b'', e', v') = go b' r in (b'', rw (e, e', v) refl, rw (← v) v')

all_refine : (cs : List Command) (b : StreamBuffer) → IsReady (written cs) b → Follows cs b
unfolding written Follows perform_all expect_all
all_refine [] b h = (b, refl, refl)
all_refine (write_command p ∷ cs) b h =
    chain (write_command p) cs b (write-Refines p h) (all_refine cs)
all_refine (read_command n ∷ cs) b h =
    chain (read_command n) cs b (read-Refines n h) (all_refine cs)
all_refine (peek_command i n ∷ cs) b h =
    chain (peek_command i n) cs b (peek-Refines i n h) (all_refine cs)
all_refine (update_command i p ∷ cs) b h =
    chain (update_command i p) cs b (update-Refines i p h) (all_refine cs)
all_refine (flush_command ∷ cs) b h = chain flush_command cs b (flush-Refines h) (all_refine cs)
all_refine (clear_command ∷ cs) b h = chain clear_command cs b (clear-Refines h) (all_refine cs)
all_refine (readable_command ∷ cs) b h =
    chain readable_command cs b (readable-Refines h) (all_refine cs)
all_refine (empty_command ∷ cs) b h = chain empty_command cs b (empty-Refines h) (all_refine cs)

-- On a valid buffer that has room for all the bytes that a sequence of calls of `Write`, `Read`,
-- `Peek`, `Update`, `Flush`, `Clear`, `Readable` and `Empty` writes, and whose reading position is
-- not before its origin, no call faults, each answers what the accessible bytes with a reading
-- position in them promise (`expect`), and the buffer shows those bytes and that position
-- afterwards. The offset that `Write` gives out is left out, and nothing is reclaimed, as there is
-- room.
pub perform_all-expect_all :
    (cs : List Command) {b : StreamBuffer}
    → IsReady (written cs) b
    → (b' : StreamBuffer) × (perform_all cs b ≡ ok ((expect_all cs (view b)).0, b'))
      × (view b' ≡ (expect_all cs (view b)).1)
unfolding Follows
perform_all-expect_all cs {b} h = all_refine cs b h
