-- ===== src/StreamBuffer/Sequential/Calls.antt =====
-- A call on a buffer with room, read no further back than its origin, does what the bytes that it
-- holds promise.
use netb.Prelude.{
  ℕ, ◌+◌, ◌-◌, ◌≤◌, ◌≡◌, length, take, drop, overwrite, arith, ok, ltb, refl, sym, ap, ◌∙◌, inl,
  inr, drop-drop, Bool-cases, length-overwrite,
}
use netb.Memory.{Bytes}
use netb.StreamBuffer.{StreamBuffer, flush, clear, is_empty}
use netb.StreamBuffer.Valid.{
  HasRoom, contents, unread, appended, contents-appended, appended-IsValid, advanced,
}
use netb.StreamBuffer.Write.{write_fits}
use netb.StreamBuffer.Read.{
  read_fits, read_short, contents-update, length-contents, length-unread, readable-eq,
}
use netb.StreamBuffer.Flush.{flush_lem}
use netb.StreamBuffer.Sequential.Branches.{peek_lem, update_lem, flush-start, flush-limit}
use netb.StreamBuffer.Sequential.{
  Sequence, rest, Command, write_command, read_command, peek_command, update_command, flush_command,
  clear_command, readable_command, empty_command, size, expect, perform,
}

-- The bytes that a buffer shows.
unfoldable pub view : StreamBuffer → Sequence
view b = record { bytes = contents b; position = b.rpos - b.opos }

-- A buffer with room for `n` more bytes, whose reading position is not before the origin.
pub record IsReady (n : ℕ) (b : StreamBuffer) : Type 0 where
  pub has_room : HasRoom n b
  pub ordered : b.opos ≤ b.rpos

-- What a step has to show.
abbrev pub Refines : Command → ℕ → StreamBuffer → Type 0
Refines c n b =
    (b' : StreamBuffer) × (perform c b ≡ ok ((expect c (view b)).0, b'))
    × (view b' ≡ (expect c (view b)).1)
    × IsReady n b'
    × (b'.limit ≡ b.limit)

view-update :
    (b : StreamBuffer) (i : ℕ) (p : Bytes)
    → view (record b { bytes = overwrite b.bytes (b.opos + i) p })
      ≡ record (view b) { bytes = overwrite (contents b) i p }
unfolding view
view-update b i p =
    ap (λ bs. record { bytes = bs; position = b.rpos - b.opos }) (contents-update b i p)

module _ {n : ℕ} {b : StreamBuffer} where
  rest-view : IsReady n b → rest (view b) ≡ unread b
  unfolding view
  rest-view h =
      drop-drop (b.rpos - b.opos) b.opos (take b.wpos b.bytes)
      ∙ ap (λ i. drop i (take b.wpos b.bytes)) (omega (arith, h.ordered))

  view-advanced :
      (k : ℕ)
      → IsReady n b
      → view (advanced k b) ≡ record (view b) { position = (view b).position + k }
  unfolding view
  view-advanced k h =
      ap (λ i. record { bytes = contents b; position = i }) (omega (arith, h.ordered))

  advanced-IsReady : (k : ℕ) → IsReady n b → k ≤ length (unread b) → IsReady n (advanced k b)
  advanced-IsReady k h le = record {
    has_room = record {
      valid = ground (arith, h.has_room.valid, length-unread h.has_room.valid);
      room = h.has_room.room;
      under = h.has_room.under;
    };
    ordered = omega (arith, h.ordered);
  }

  updated-IsReady :
      (i : ℕ) (p : Bytes)
      → IsReady n b
      → IsReady n (record b { bytes = overwrite b.bytes (b.opos + i) p })
  updated-IsReady i p h = record {
    has_room = record {
      valid = ground (arith, h.has_room.valid, length-overwrite b.bytes (b.opos + i) p);
      room = h.has_room.room;
      under = h.has_room.under;
    };
    ordered = h.ordered;
  }

  flush-IsReady : IsReady n b → IsReady n (flush b).1
  unfolding flush
  flush-IsReady h = record {
    has_room = record {
      valid = (flush_lem h.has_room.valid).3;
      room = ground (arith, h.has_room, h.has_room.valid);
      under = ground (arith, h.has_room, h.has_room.valid);
    };
    ordered = ground arith;
  }

  pub clear-Refines : IsReady n b → Refines clear_command n b
  unfolding perform expect view clear
  clear-Refines h = (
    clear b,
    refl,
    refl,
    record { has_room = ground (arith, h.has_room, h.has_room.valid); ordered = omega arith },
    refl,
  )

  pub readable-Refines : IsReady n b → Refines readable_command n b
  unfolding perform expect
  readable-Refines h = (
    b,
    ap (λ k. ok (size k, b))
        (readable-eq h.has_room.valid ∙ ap (λ (t : Bytes). length t) (sym (rest-view h))),
    refl,
    h,
    refl,
  )

  pub empty-Refines : IsReady n b → Refines empty_command n b
  unfolding perform expect is_empty view
  empty-Refines h =
      (b, ground (arith, h.has_room.valid, length-contents h.has_room.valid), refl, h, refl)

  pub read-Refines : (k : ℕ) → IsReady n b → Refines (read_command k) n b
  unfolding perform expect
  read-Refines k h = elim (Bool-cases (ltb (length (rest (view b))) k)) [
    | inl t ↦ (
      b,
      rw
          (
            read_short h.has_room.valid k
                (ground (arith, ap (λ (q : Bytes). length q) (rest-view h))),
            t,
          )
          refl,
      rw t refl,
      h,
      refl,
    )
    | inr t ↦ (
      advanced k b,
      rw
          (
            read_fits h.has_room.valid k
                (ground (arith, ap (λ (q : Bytes). length q) (rest-view h))),
            t,
            rest-view h,
          )
          refl,
      rw t (view-advanced k h),
      advanced-IsReady k h (ground (arith, ap (λ (q : Bytes). length q) (rest-view h))),
      refl,
    )
  ]

  pub peek-Refines : (i k : ℕ) → IsReady n b → Refines (peek_command i k) n b
  unfolding perform expect view
  peek-Refines i k h = (b, ground (arith, peek_lem h.has_room.valid i k), ground arith, h, refl)

  pub update-Refines : (i : ℕ) (p : Bytes) → IsReady n b → Refines (update_command i p) n b
  unfolding perform expect view
  update-Refines i p h = elim (Bool-cases (ltb (length (contents b) - i) (length p))) [
    | inl t ↦ (b, ground (arith, update_lem h.has_room.valid i p), ground arith, h, refl)
    | inr t ↦ (
      record b { bytes = overwrite b.bytes (b.opos + i) p },
      ground (arith, update_lem h.has_room.valid i p),
      ground (arith, view-update b i p),
      updated-IsReady i p h,
      refl,
    )
  ]

  pub flush-Refines : IsReady n b → Refines flush_command n b
  unfolding perform expect view
  flush-Refines h =
      let f = flush_lem h.has_room.valid in
      (
        (flush b).1,
        rw (f.0, rest-view h) refl,
        ground (arith, f, flush-start b, rest-view h),
        flush-IsReady h,
        flush-limit b,
      )

pub write-Refines :
    (p : Bytes) {n : ℕ} {b : StreamBuffer}
    → IsReady (length p + n) b
    → Refines (write_command p) n b
unfolding perform expect view appended
write-Refines p {n} {b} h =
    let r : HasRoom (length p) b = ground (arith, h.has_room, h.has_room.valid) in
    (
      appended p b,
      rw (write_fits p r) refl,
      ground (arith, contents-appended p r),
      record {
        has_room = record {
          valid = appended-IsValid p r;
          room = ground (arith, h.has_room);
          under = ground (arith, h.has_room);
        };
        ordered = ground (arith, h.ordered);
      },
      refl,
    )
