-- ===== src/Tests/Fixtures.antt =====
-- Concrete buffers, names, headers and questions.
use netb.Dns.Flags.{Flags}
use netb.Dns.Flags.Laws.{IsInRange}
use netb.Dns.Header.{Header}
use netb.Dns.Header.Encoding.{HeaderInRange}
use netb.Dns.Name.{is_label}
use netb.Dns.Name.Encoding.{AllLabels}
use netb.Dns.Question.{Question}
use netb.Dns.Message.Encoding.{IsQuery}
use netb.Prelude.{ℕ, ◌≤◌, List, [], ◌∷◌, length, arith, inl, inr, refl}
use netb.Memory.{Bytes}
use netb.StreamBuffer.{StreamBuffer}
use netb.StreamBuffer.Valid.{IsValid, HasRoom}
use netb.StreamBuffer.Reclaim.{NeedsReclaim}

-- One flushed byte, one read byte, three unread bytes, one free byte.
abbrev pub partly_read : StreamBuffer
partly_read = record { bytes = 1 ∷ 2 ∷ 3 ∷ 4 ∷ 5 ∷ 6 ∷ []; limit = 8; opos = 1; rpos = 2; wpos = 5 }

pub partly_read-IsValid : IsValid partly_read
partly_read-IsValid = record {
  opos_le = omega arith;
  rpos_le = omega arith;
  wpos_le = omega arith;
  fits = omega arith;
  bounded = inr (omega arith);
}

pub partly_read-HasRoom : HasRoom 2 partly_read
partly_read-HasRoom = record {
  valid = partly_read-IsValid;
  room = omega arith;
  under = inr (omega arith);
}

pub partly_read-NeedsReclaim : NeedsReclaim 4 partly_read
partly_read-NeedsReclaim = record {
  valid = partly_read-IsValid;
  ordered = omega arith;
  small = omega arith;
  limit_fits = omega arith;
  behind = omega arith;
  front = omega arith;
  limited = omega arith;
}

-- The same with four flushed bytes.
abbrev pub mostly_flushed : StreamBuffer
mostly_flushed = record {
  bytes = 1 ∷ 2 ∷ 3 ∷ 4 ∷ 5 ∷ 6 ∷ [];
  limit = 8;
  opos = 4;
  rpos = 4;
  wpos = 5;
}

pub mostly_flushed-IsValid : IsValid mostly_flushed
mostly_flushed-IsValid = record {
  opos_le = omega arith;
  rpos_le = omega arith;
  wpos_le = omega arith;
  fits = omega arith;
  bounded = inr (omega arith);
}

pub mostly_flushed-NeedsReclaim : NeedsReclaim 4 mostly_flushed
mostly_flushed-NeedsReclaim = record {
  valid = mostly_flushed-IsValid;
  ordered = omega arith;
  small = omega arith;
  limit_fits = omega arith;
  behind = omega arith;
  front = omega arith;
  limited = omega arith;
}

-- A buffer without a limit, with nothing in it.
abbrev pub unlimited : StreamBuffer
unlimited = record { bytes = []; limit = 0; opos = 0; rpos = 0; wpos = 0 }

pub unlimited-HasRoom : (n : ℕ) → n ≤ 1000 → HasRoom n unlimited
unlimited-HasRoom n h = record {
  valid = record {
    opos_le = omega arith;
    rpos_le = omega arith;
    wpos_le = omega arith;
    fits = omega arith;
    bounded = inl refl;
  };
  room = omega arith;
  under = inl refl;
}

-- A buffer that holds these bytes, all of them unread.
abbrev pub holding : Bytes → StreamBuffer
holding bs = record { bytes = bs; limit = 0; opos = 0; rpos = 0; wpos = length bs }

pub holding-IsValid : (bs : Bytes) → length bs ≤ 1000 → IsValid (holding bs)
holding-IsValid bs h = record {
  opos_le = omega arith;
  rpos_le = omega arith;
  wpos_le = omega arith;
  fits = omega arith;
  bounded = inl refl;
}

-- A standard query that asks for recursion.
abbrev pub standard_query : Flags
standard_query = record { qr = 0; opcode = 0; aa = 0; tc = 0; rd = 1; ra = 0; z = 0; rcode = 0 }

pub standard_query-IsInRange : IsInRange standard_query
standard_query-IsInRange = record {
  qr = omega arith;
  opcode = omega arith;
  aa = omega arith;
  tc = omega arith;
  rd = omega arith;
  ra = omega arith;
  z = omega arith;
  rcode = omega arith;
}

-- The header of a query with one question.
abbrev pub asked : Header
asked = record {
  id = 4660;
  flags = standard_query;
  qdcount = 1;
  ancount = 0;
  nscount = 0;
  arcount = 0;
}

pub asked-HeaderInRange : HeaderInRange asked
asked-HeaderInRange = record {
  id = omega arith;
  flags = standard_query-IsInRange;
  qdcount = omega arith;
  ancount = omega arith;
  nscount = omega arith;
  arcount = omega arith;
}

-- ww.cd.
abbrev pub www : List Bytes
www = (b'w' ∷ b'w' ∷ []) ∷ (b'c' ∷ b'd' ∷ []) ∷ []

pub www-AllLabels : AllLabels www
unfolding is_label
www-AllLabels = ((refl, omega arith, omega arith), ((refl, omega arith, omega arith), tt))

-- The question for an A record of that name.
abbrev pub for_www : List Question
for_www = record { name = record { parts = www }; qtype = 1; qclass = 1 } ∷ []

pub asked-IsQuery : IsQuery asked for_www
asked-IsQuery = record {
  header = asked-HeaderInRange;
  questions = (record { name = www-AllLabels; qtype = omega arith; qclass = omega arith }, tt);
  qdcount = refl;
  ancount = refl;
  nscount = refl;
  arcount = refl;
}
