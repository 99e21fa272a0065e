-- ===== src/StreamBuffer/Unflushed.antt =====
-- Writing into a buffer of which nothing was flushed, on every branch.
use mathlib.Core.Path.{subst}
use netb.Prelude.{
  ℕ, ◌+◌, ◌-◌, ◌≤◌, ◌<◌, ◌≡◌, ◌⊎◌, inl, inr, ◌++◌, length, false, Option, none, some, max_size,
  arith, ok, fault, thrown, leb, ◌==◌, add_size, ltb, add_size-eq, sub_size-eq, refl, sym, ap, ◌∙◌,
  ok-injective, fault≢ok, Bool-cases,
}
use netb.Memory.{Bytes, resize}
use netb.StreamBuffer.{StreamBuffer, is_empty, writable, write, advance_read}
use netb.StreamBuffer.Valid.{
  IsValid, HasRoom, contents, unread, appended, appended-IsValid, contents-appended,
  unread-appended,
}
use netb.StreamBuffer.Write.{write_fits, write_overflow}

-- The bytes would pass the largest size of a vector, but no limit.
writable_thrown :
    (n : ℕ) {b : StreamBuffer}
    → IsValid b
    → b.opos ≡ 0
    → n ≤ max_size
    → max_size < b.wpos + n
    → (b.limit ≡ 0) ⊎ (b.wpos + n ≤ b.limit)
    → writable n b ≡ fault thrown
unfolding writable resize
writable_thrown n {b} v o small over under = ground (
  arith,
  v,
  o,
  sub_size-eq (length b.bytes) b.wpos,
  sub_size-eq b.wpos b.opos,
  add_size-eq (b.wpos - b.opos) n,
  add_size-eq b.wpos n,
)

write_thrown :
    (p : Bytes) {b : StreamBuffer}
    → IsValid b
    → b.opos ≡ 0
    → length p ≤ max_size
    → max_size < b.wpos + length p
    → (b.limit ≡ 0) ⊎ (b.wpos + length p ≤ b.limit)
    → write p b ≡ fault thrown
unfolding write
write_thrown p v o small over under = rw (writable_thrown (length p) v o small over under) refl

-- What a write does: it appends the bytes, or it changes nothing.
pub record IsAppended (p : Bytes) (b b' : StreamBuffer) : Type 0 where
  pub contents_eq : contents b' ≡ contents b ++ p
  pub unread_eq : unread b' ≡ unread b ++ p
  pub valid : IsValid b'
  pub opos_eq : b'.opos ≡ b.opos
  pub wpos_eq : b'.wpos ≡ b.wpos + length p
  pub limit_eq : b'.limit ≡ b.limit

appended-IsAppended :
    (p : Bytes) {b : StreamBuffer} → HasRoom (length p) b → IsAppended p b (appended p b)
unfolding appended
appended-IsAppended p h = record {
  contents_eq = contents-appended p h;
  unread_eq = unread-appended p h;
  valid = appended-IsValid p h;
  opos_eq = refl;
  wpos_eq = refl;
  limit_eq = refl;
}

-- There is room, or a vector cannot be that large, or the limit is passed.
room-cases :
    (t l : ℕ)
    → ((t ≤ max_size) × ((l ≡ 0) ⊎ (t ≤ l)))
      ⊎ (((max_size < t) × ((l ≡ 0) ⊎ (t ≤ l))) ⊎ ((0 < l) × (l < t)))
room-cases t l = elim (Bool-cases (leb t max_size)) [
  | inl a ↦ elim (under-cases t l) [ inl u ↦ inl (ground arith, u) | inr o ↦ inr (inr o) ]
  | inr a ↦ elim (under-cases t l) [ inl u ↦ inr (inl (ground arith, u)) | inr o ↦ inr (inr o) ]
]
  where
    under-cases : (t l : ℕ) → ((l ≡ 0) ⊎ (t ≤ l)) ⊎ ((0 < l) × (l < t))
    under-cases t l = elim (Bool-cases (l == 0)) [
      | inl z ↦ inl (inl (ground arith))
      | inr z ↦ elim (Bool-cases (leb t l)) [
        | inl a ↦ inl (inr (ground arith))
        | inr a ↦ inr (ground arith, ground arith)
      ]
    ]

-- A write that returns has appended the bytes, or has left the buffer as it was.
pub write_unflushed :
    (p : Bytes) {b b' : StreamBuffer} (r : Option ℕ)
    → IsValid b
    → b.opos ≡ 0
    → length p ≤ max_size
    → write p b ≡ ok (r, b')
    → ((r ≡ some b.wpos) × IsAppended p b b') ⊎ ((r ≡ none) × (b' ≡ b))
write_unflushed p {b} {b'} r v o small e = elim (room-cases (b.wpos + length p) b.limit) [
  | inl (room, under) ↦
      let h : HasRoom (length p) b = record { valid = v; room = room; under = under } in
      let q = ok-injective (sym (write_fits p h) ∙ e) in
      inl
        (sym (ap (λ t. t.0) q), subst (IsAppended p b) (ap (λ t. t.1) q) (appended-IsAppended p h))
  | inr (inl (over, under)) ↦ absurd (fault≢ok (sym (write_thrown p v o small over under) ∙ e))
  | inr (inr (pos, over)) ↦
      let q = ok-injective (sym (write_overflow p v small pos (omega (arith, o))) ∙ e) in
      inr (sym (ap (λ t. t.0) q), sym (ap (λ t. t.1) q))
]

-- What a read leaves as it is.
pub record IsSameData (b b' : StreamBuffer) : Type 0 where
  pub contents_eq : contents b' ≡ contents b
  pub valid : IsValid b'
  pub opos_eq : b'.opos ≡ b.opos
  pub wpos_eq : b'.wpos ≡ b.wpos
  pub limit_eq : b'.limit ≡ b.limit

pub advance_read-IsSameData :
    (n : ℕ) {b : StreamBuffer} → IsValid b → IsSameData b (advance_read n b).1
unfolding advance_read
advance_read-IsSameData n {b} v = elim (Bool-cases (ltb b.wpos (add_size b.rpos n))) [
  | inl t ↦
      rw (t, advance_read)
        (record { contents_eq = refl; valid = v; opos_eq = refl; wpos_eq = refl; limit_eq = refl })
  | inr t ↦
      rw (t, advance_read)
        (record {
          contents_eq = refl;
          valid = record {
            opos_le = v.opos_le;
            rpos_le = ground arith;
            wpos_le = v.wpos_le;
            fits = v.fits;
            bounded = v.bounded;
          };
          opos_eq = refl;
          wpos_eq = refl;
          limit_eq = refl;
        })
]

pub is_empty-unflushed : (b : StreamBuffer) → b.opos ≡ 0 → 0 < b.wpos → is_empty b ≡ false
unfolding is_empty
is_empty-unflushed b o lt = ground (arith, o)
