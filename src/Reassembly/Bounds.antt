-- ===== src/Reassembly/Bounds.antt =====
-- What a reassembler can give back: the errors leave it as it was, and 64-byte reports make no
-- message that is longer than the framing can carry.
use fido.Base.{ℕ, ◌+◌, ◌*◌, ◌≤◌, ◌<◌, ◌≡◌, ◌≢◌, ◌⊎◌, refl, arith}
use fido.Base.{true, false, List, [], ◌∷◌, ◌++◌, length, get_or, All}
use fido.Base.{length-append, length-take}
use fido.Base.Bits.{Bytes, u32, high_bit, clear_high}
use fido.Errors.{Error, short_packet, wrong_channel, out_of_order}
use fido.Framing.Shape.{IsReport}
use fido.Reassembly.{
  Reassembler, Fed, pending, done, failed, finish, feed_init, feed_next, feed, new_reassembler,
}
use fido.Reassembly.RoundTrip.{deliver}

-- The channel that a report names.
abbrev pub channel_of : Bytes → ℕ
channel_of p = u32 (get_or p 0 0) (get_or p 1 0) (get_or p 2 0) (get_or p 3 0)

-- Why a report is refused.
abbrev pub Refused : Reassembler → Bytes → Error → Type 0
Refused r p e =
    ((e ≡ short_packet) × (length p < 7))
    ⊎ ((e ≡ wrong_channel) × (channel_of p ≢ r.channel))
    ⊎ ((e ≡ out_of_order) × (channel_of p ≡ r.channel) × (r.started ≡ false))
    ⊎ ((e ≡ out_of_order) × (channel_of p ≡ r.channel) × (get_or p 4 0 ≢ r.seq))

feed_init-failed :
    (r : Reassembler) (ch b : ℕ) (body : Bytes) (e : Error)
    → (feed_init r ch b body).0 ≡ failed e
    → ((feed_init r ch b body).1 ≡ r) × (e ≡ short_packet) × (length body < 2)
unfolding feed_init finish
feed_init-failed r ch b [] e h = ground arith
feed_init-failed r ch b (hi ∷ []) e h = ground arith
feed_init-failed r ch b (hi ∷ lo ∷ body) e h = ground arith

feed_next-failed :
    (r : Reassembler) (b : ℕ) (body : Bytes) (e : Error)
    → (feed_next r b body).0 ≡ failed e
    → ((feed_next r b body).1 ≡ r) × (e ≡ out_of_order) × ((r.started ≡ false) ⊎ (b ≢ r.seq))
unfolding feed_next finish
feed_next-failed r b body e h = ground arith

-- A report that is refused leaves the reassembler as it was, so that a message in the middle of its
-- reports can still be finished. The error says which of the checks failed.
pub feed-failed :
    (r : Reassembler) (p : Bytes) (e : Error)
    → (feed r p).0 ≡ failed e
    → ((feed r p).1 ≡ r) × Refused r p e
unfolding feed
feed-failed r [] e h = ground arith
feed-failed r (_ ∷ []) e h = ground arith
feed-failed r (_ ∷ _ ∷ []) e h = ground arith
feed-failed r (_ ∷ _ ∷ _ ∷ []) e h = ground arith
feed-failed r (_ ∷ _ ∷ _ ∷ _ ∷ []) e h = ground arith
feed-failed r (a ∷ b ∷ c ∷ d ∷ x ∷ body) e h =
    ground (arith, feed_init-failed r (u32 a b c d) x body e, feed_next-failed r x body e)

-- A reassembler that has had nothing but 64-byte reports: while it waits for more it holds 57 bytes
-- and 59 for each number that it has seen, and those stay below 128.
pub record IsValid (r : Reassembler) : Type 0 where
  pub held : r.started ≡ true → length r.msg.content ≡ 57 + 59 * r.seq
  pub bound : r.started ≡ true → r.seq ≤ 128
  pub own : r.started ≡ true → r.msg.channel ≡ r.channel
  pub command : r.started ≡ true → r.msg.cmd < 128

-- What a step may answer.
abbrev pub Fits : Reassembler → Fed → Type 0
Fits r pending = Unit
Fits r (failed e) = Unit
Fits r (done m) = (length m.content ≤ 7609) × (m.channel ≡ r.channel) × (m.cmd < 128)

finish-IsValid :
    (r : Reassembler)
    → r.started ≡ true
    → IsValid r
    → IsValid (finish r).1 × Fits r (finish r).0 × ((finish r).1.channel ≡ r.channel)
unfolding finish
finish-IsValid r s v =
    ground (arith, length-take r.want r.msg.content, v.held s, v.bound s, v.own s, v.command s)

feed_init-IsValid :
    (r : Reassembler) (b : ℕ) (body : Bytes)
    → b < 256
    → length body ≡ 59
    → IsValid r
    → IsValid (feed_init r r.channel b body).1
      × Fits r (feed_init r r.channel b body).0
      × ((feed_init r r.channel b body).1.channel ≡ r.channel)
unfolding feed_init
feed_init-IsValid r b [] hb h v = absurd (omega arith)
feed_init-IsValid r b (hi ∷ []) hb h v = absurd (omega arith)
feed_init-IsValid r b (hi ∷ lo ∷ body) hb h v = finish-IsValid _ refl (record {
  held = λ _. omega arith;
  bound = λ _. omega arith;
  own = λ _. refl;
  command = λ _. omega (arith, clear_high b hb);
})

-- The reassembler after the next packet, before `finish`.
abbrev extended : Reassembler → Bytes → Reassembler
extended r body = record r {
  seq = r.seq + 1;
  msg = record { channel = r.msg.channel; cmd = r.msg.cmd; content = r.msg.content ++ body };
}

extended-IsValid :
    (r : Reassembler) (body : Bytes)
    → r.seq < 128
    → length body ≡ 59
    → IsValid r
    → IsValid (extended r body)
extended-IsValid r body hs h v = record {
  held = λ s. omega (arith, length-append r.msg.content body, v.held s);
  bound = λ s. omega arith;
  own = v.own;
  command = v.command;
}

feed_next-IsValid :
    (r : Reassembler) (b : ℕ) (body : Bytes)
    → b < 128
    → length body ≡ 59
    → IsValid r
    → IsValid (feed_next r b body).1
      × Fits r (feed_next r b body).0
      × ((feed_next r b body).1.channel ≡ r.channel)
unfolding feed_next
feed_next-IsValid r b body hb h v =
    ground (arith, finish-IsValid (extended r body), extended-IsValid r body)

feed-IsValid :
    (r : Reassembler) (p : Bytes)
    → IsReport p
    → IsValid r
    → IsValid (feed r p).1 × Fits r (feed r p).0 × ((feed r p).1.channel ≡ r.channel)
unfolding feed
feed-IsValid r [] h v = absurd (omega arith)
feed-IsValid r (_ ∷ []) h v = absurd (omega arith)
feed-IsValid r (_ ∷ _ ∷ []) h v = absurd (omega arith)
feed-IsValid r (_ ∷ _ ∷ _ ∷ []) h v = absurd (omega arith)
feed-IsValid r (_ ∷ _ ∷ _ ∷ _ ∷ []) h v = absurd (omega arith)
feed-IsValid r (a ∷ b ∷ c ∷ d ∷ x ∷ body) h v =
    ground (arith, high_bit x, feed_init-IsValid r x body, feed_next-IsValid r x body)

pub new_reassembler-IsValid : (channel : ℕ) → IsValid (new_reassembler channel)
unfolding new_reassembler
new_reassembler-IsValid channel = record {
  held = λ s. cc;
  bound = λ s. cc;
  own = λ s. cc;
  command = λ s. cc;
}

-- Whatever 64-byte reports arrive, a message that comes out of them has at most 7609 bytes, the
-- reassembler's channel and a command below 0x80, whatever length its first report promised; and
-- the reassembler stays valid.
pub deliver-Fits :
    (ps : List Bytes) (r : Reassembler)
    → All IsReport ps
    → IsValid r
    → IsValid (deliver r ps).1 × Fits r (deliver r ps).0
unfolding deliver
deliver-Fits [] r h v = (v, tt)
deliver-Fits (p ∷ ps) r h v = ground (arith, feed-IsValid r p h.0 v, deliver-Fits ps (feed r p).1)
