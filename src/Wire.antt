-- ===== src/Wire.antt =====
-- Actions on a buffer as encoders and decoders: which bytes an action appends, and which value it
-- takes from the front of the unread bytes. The rules follow the ways in which actions are built.
use mathlib.Core.Path.{subst}
use netb.Prelude.{
  Fault, fault, ℕ, ◌+◌, ◌≤◌, ◌≡◌, refl, sym, ap, ◌∙◌, [], ◌++◌, append_assoc, append-nil, length,
  length-append, take, drop, take-append, drop-append_all, Bool, true, some, ok, arith,
}
use netb.Memory.{Bytes}
use netb.StreamBuffer.{StreamBuffer, M, pure, ◌>>=◌, ◌&&>◌, write, read}
use netb.StreamBuffer.Valid.{
  IsValid, contents, unread, HasRoom, appended, advanced, appended-IsValid, contents-appended,
  unread-appended, unread-advanced,
}
use netb.StreamBuffer.Write.{write_fits}
use netb.StreamBuffer.Read.{length-unread, read_fits}
use netb.StreamWriter.{succeeds}

-- `b'` is `b` with `bs` behind its data.
pub record Appended (bs : Bytes) (b b' : StreamBuffer) : Type 0 where
  pub valid : IsValid b'
  pub limit : b'.limit ≡ b.limit
  pub opos : b'.opos ≡ b.opos
  pub rpos : b'.rpos ≡ b.rpos
  pub wpos : b'.wpos ≡ b.wpos + length bs
  pub contents : contents b' ≡ contents b ++ bs
  pub unread : unread b' ≡ unread b ++ bs

-- Where there is room, `m` returns `v` and appends `bs`.
pub record Writes {A : Type 0} (m : M A) (v : A) (bs : Bytes) : Type 0 where
  pub run :
      (b : StreamBuffer)
      → HasRoom (length bs) b
      → (b' : StreamBuffer) × (m b ≡ ok (v, b')) × Appended bs b b'

-- Where the unread bytes begin with `bs`, `m` consumes these and returns `v`.
pub record Reads {A : Type 0} (m : M A) (v : A) (bs : Bytes) : Type 0 where
  pub run :
      (b : StreamBuffer) (rest : Bytes)
      → IsValid b
      → unread b ≡ bs ++ rest
      → m b ≡ ok (v, advanced (length bs) b)

-- A step whose result is known.
pub bind_ok :
    {A B : Type 0} (m : M A) (f : A → M B) {a : A} {b b' : StreamBuffer}
    → m b ≡ ok (a, b')
    → (m >>= f) b ≡ f a b'
bind_ok m f e = rw (e, ◌>>=◌)

pub bind_fault :
    {A B : Type 0} (m : M A) (f : A → M B) {why : Fault} {b : StreamBuffer}
    → m b ≡ fault why
    → (m >>= f) b ≡ fault why
bind_fault m f e = rw (e, ◌>>=◌)

appended-Appended :
    (bs : Bytes) {b : StreamBuffer} → HasRoom (length bs) b → Appended bs b (appended bs b)
unfolding appended
appended-Appended bs h = record {
  valid = appended-IsValid bs h;
  limit = refl;
  opos = refl;
  rpos = refl;
  wpos = refl;
  contents = contents-appended bs h;
  unread = unread-appended bs h;
}

-- `Write(p, n)` as a bool.
pub write-Writes : (bs : Bytes) → Writes (succeeds (write bs)) true bs
write-Writes bs = record {
  run = λ b h. (appended bs b, bind_ok (write bs) _ (write_fits bs h), appended-Appended bs h);
}

pub Appended-trans :
    (xs ys : Bytes) {a b c : StreamBuffer}
    → Appended xs a b
    → Appended ys b c
    → Appended (xs ++ ys) a c
Appended-trans xs ys p q = record {
  valid = q.valid;
  limit = q.limit ∙ p.limit;
  opos = q.opos ∙ p.opos;
  rpos = q.rpos ∙ p.rpos;
  wpos = omega (arith, p.wpos, q.wpos, length-append xs ys);
  contents = q.contents ∙ ap (λ t. t ++ ys) p.contents ∙ append_assoc _ xs ys;
  unread = q.unread ∙ ap (λ t. t ++ ys) p.unread ∙ append_assoc _ xs ys;
}

pub HasRoom-le : {m : ℕ} (n : ℕ) {b : StreamBuffer} → HasRoom m b → n ≤ m → HasRoom n b
HasRoom-le n h le = ground (arith, h.valid, h.room, h.under)

pub HasRoom-Appended :
    (xs : Bytes) (n : ℕ) {b b' : StreamBuffer}
    → HasRoom (length xs + n) b
    → Appended xs b b'
    → HasRoom n b'
HasRoom-Appended xs n h p = ground (arith, h.valid, h.room, h.under, p)

-- A sequence.
pub Writes-bind :
    {A B : Type 0} {m : M A} (f : A → M B) (v : A) {w : B} (xs ys : Bytes)
    → Writes m v xs
    → Writes (f v) w ys
    → Writes (m >>= f) w (xs ++ ys)
Writes-bind {m} f v xs ys wm wf = record {
  run = λ b h.
      let h' = HasRoom-le (length xs + length ys) h (omega (arith, length-append xs ys)) in
      let (b₁, e₁, p₁) = wm.run b (HasRoom-le (length xs) h' (omega arith)) in
      let (b₂, e₂, p₂) = wf.run b₁ (HasRoom-Appended xs (length ys) h' p₁) in
      (b₂, bind_ok m f e₁ ∙ e₂, Appended-trans xs ys p₁ p₂);
}

-- `a && b`
pub Writes-and :
    {m k : M Bool} (xs ys : Bytes)
    → Writes m true xs
    → Writes k true ys
    → Writes (m &&> k) true (xs ++ ys)
Writes-and xs ys wm wk = Writes-bind _ true xs ys wm wk

-- A result that is used at once.
pub Writes-map :
    {A B : Type 0} {m : M A} {v : A} {bs : Bytes} (f : A → B)
    → Writes m v bs
    → Writes (m >>= (λ a. pure (f a))) (f v) bs
Writes-map {m} f w = record { run = λ b h. let (b', e, p) = w.run b h in (b', bind_ok m _ e, p) }

pub Writes-pure : {A : Type 0} (v : A) → Writes (pure v) v []
Writes-pure v = record {
  run = λ b h. (
    b,
    refl,
    record {
      valid = h.valid;
      limit = refl;
      opos = refl;
      rpos = refl;
      wpos = omega arith;
      contents = sym (append-nil _);
      unread = sym (append-nil _);
    },
  );
}

pub advanced-IsValid :
    (xs rest : Bytes) {b : StreamBuffer}
    → IsValid b
    → unread b ≡ xs ++ rest
    → IsValid (advanced (length xs) b)
advanced-IsValid xs rest {b} v e =
    let len = ap (λ (t : Bytes). length t) e in
    ground (arith, v, length-unread v, len, length-append xs rest)

pub unread-advanced_append :
    (xs rest : Bytes) (b : StreamBuffer)
    → unread b ≡ xs ++ rest
    → unread (advanced (length xs) b) ≡ rest
unread-advanced_append xs rest b e =
    unread-advanced (length xs) b
    ∙ ap (λ t. drop (length xs) t) e
    ∙ drop-append_all (length xs) xs rest refl

-- A sequence.
pub Reads-bind :
    {A B : Type 0} {m : M A} (f : A → M B) (v : A) {w : B} (xs ys : Bytes)
    → Reads m v xs
    → Reads (f v) w ys
    → Reads (m >>= f) w (xs ++ ys)
Reads-bind {m} f v {w} xs ys rm rf = record {
  run = λ b rest ok' e.
      let e' = e ∙ append_assoc xs ys rest in
      bind_ok m f (rm.run b (ys ++ rest) ok' e')
      ∙ rf.run (advanced (length xs) b) rest (advanced-IsValid xs (ys ++ rest) ok' e')
          (unread-advanced_append xs (ys ++ rest) b e')
      ∙ ap (λ n. ok (w, record b { rpos = n })) (positions b);
}
  where
    positions : (b : StreamBuffer) → b.rpos + length xs + length ys ≡ b.rpos + length (xs ++ ys)
    positions b = omega (arith, length-append xs ys)

-- A result that is used at once.
pub Reads-pure :
    {A B : Type 0} {m : M A} {v : A} {bs : Bytes} (f : A → B)
    → Reads m v bs
    → Reads (m >>= (λ a. pure (f a))) (f v) bs
Reads-pure {m} f r = record { run = λ b rest ok' e. bind_ok m _ (r.run b rest ok' e) }

pub Reads-value :
    {A : Type 0} {m : M A} {v w : A} {bs : Bytes} → v ≡ w → Reads m v bs → Reads m w bs
Reads-value {m} {bs} e r = subst (λ t. Reads m t bs) e r

pub Writes-value :
    {A : Type 0} {m : M A} {v w : A} {bs : Bytes} → v ≡ w → Writes m v bs → Writes m w bs
Writes-value {m} {bs} e r = subst (λ t. Writes m t bs) e r

pub Reads-bytes :
    {A : Type 0} {m : M A} {v : A} {xs ys : Bytes} → xs ≡ ys → Reads m v xs → Reads m v ys
Reads-bytes {m} {v} e r = subst (λ t. Reads m v t) e r

pub Writes-bytes :
    {A : Type 0} {m : M A} {v : A} {xs ys : Bytes} → xs ≡ ys → Writes m v xs → Writes m v ys
Writes-bytes {m} {v} e r = subst (λ t. Writes m v t) e r

pub Reads-done : {A : Type 0} (v : A) → Reads (pure v) v []
Reads-done v = record { run = λ b rest ok' e. ap (λ n. ok (v, record b { rpos = n })) (still b) }
  where
    still : (b : StreamBuffer) → b.rpos ≡ b.rpos + 0
    still b = omega arith

-- `Read(p, n)` of as many bytes as are at the front.
pub read-Reads : (bs : Bytes) → Reads (read (length bs)) (some bs) bs
read-Reads bs = record {
  run = λ b rest v e.
      read_fits v (length bs) (fits b rest e)
      ∙ ap (λ t. ok (some t, advanced (length bs) b))
          (ap (λ t. take (length bs) t) e ∙ take-append (length bs) bs rest refl);
}
  where
    fits : (b : StreamBuffer) (rest : Bytes) → unread b ≡ bs ++ rest → length bs ≤ length (unread b)
    fits b rest e = omega (arith, ap (λ (t : Bytes). length t) e, length-append bs rest)

-- What one action writes into a buffer with nothing unread, another reads back.
pub Reads-Writes :
    {A B : Type 0} {m : M A} {k : M B} {v : A} {w : B} {bs : Bytes} {b : StreamBuffer}
    → Writes m v bs
    → Reads k w bs
    → HasRoom (length bs) b
    → unread b ≡ []
    → (b' : StreamBuffer) × ((m >>= λ _. k) b ≡ ok (w, b')) × (unread b' ≡ []) × IsValid b'
Reads-Writes {m} {k} {bs} {b} wm rk room none' =
    let (b₁, e₁, p) = wm.run b room in
    let u = p.unread ∙ ap (λ t. t ++ bs) none' ∙ sym (append-nil bs) in
    (
      advanced (length bs) b₁,
      bind_ok m _ e₁ ∙ rk.run b₁ [] p.valid u,
      unread-advanced_append bs [] b₁ u,
      advanced-IsValid bs [] p.valid u,
    )

-- A write whose result is not looked at.
pub Writes-after_write :
    {A : Type 0} {k : M A} {w : A} (xs ys : Bytes)
    → Writes k w ys
    → Writes (write xs >>= λ _. k) w (xs ++ ys)
Writes-after_write xs ys wk = record {
  run = λ b h.
      let h' = HasRoom-le (length xs + length ys) h (omega (arith, length-append xs ys)) in
      let p₁ = appended-Appended xs (HasRoom-le (length xs) h' (omega arith)) in
      let (b₂, e₂, p₂) = wk.run (appended xs b) (HasRoom-Appended xs (length ys) h' p₁) in
      (
        b₂,
        bind_ok (write xs) _ (write_fits xs (HasRoom-le (length xs) h' (omega arith))) ∙ e₂,
        Appended-trans xs ys p₁ p₂,
      );
}
