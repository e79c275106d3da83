-- ===== src/Reassembly.antt =====
-- fido.go: `Reassembler`, `NewReassembler`, `Feed` and `finish`.
pub mod Packets
pub mod RoundTrip
pub mod Bounds
pub mod Spec
pub mod Refinement
use fido.Base.{ℕ, ◌+◌, ltb, ◌==◌, if◌then◌else◌, Bool, true, false, bit_and}
use fido.Base.{[], ◌∷◌, ◌++◌, length, take}
use fido.Base.Bits.{Bytes, u16, u32, and_not}
use fido.Errors.{Error, short_packet, wrong_channel, out_of_order}
use fido.Framing.{Message}

pub record Reassembler : Type 0 where
  pub channel : ℕ
  pub msg : Message
  pub want : ℕ
  pub seq : ℕ
  pub started : Bool

-- The three kinds of answer that `(msg, done, err)` takes.
pub data Fed : Type 0 where
  pending : Fed
  done : Message → Fed
  failed : Error → Fed

abbrev pub no_message : Message
no_message = record { channel = 0; cmd = 0; content = [] }

unfoldable pub new_reassembler : ℕ → Reassembler
new_reassembler channel = record {
  channel = channel;
  msg = no_message;
  want = 0;
  seq = 0;
  started = false;
}

unfoldable pub finish : Reassembler → Fed × Reassembler
finish r = if ltb (length r.msg.content) r.want then (pending, r) else (
  done (record { channel = r.msg.channel; cmd = r.msg.cmd; content = take r.want r.msg.content }),
  record r { started = false },
)

-- An initialisation packet: `body` is `report[5:]`.
unfoldable pub feed_init : Reassembler → ℕ → ℕ → Bytes → Fed × Reassembler
feed_init r ch b (hi ∷ lo ∷ body) = finish (record {
  channel = r.channel;
  msg = record { channel = ch; cmd = and_not b 0x80; content = body };
  want = u16 hi lo;
  seq = 0;
  started = true;
})
feed_init r ch b body = (failed short_packet, r)

unfoldable pub feed_next : Reassembler → ℕ → Bytes → Fed × Reassembler
feed_next r b body =
    if r.started
    then if b == r.seq
      then finish (record r {
        seq = r.seq + 1;
        msg = record { channel = r.msg.channel; cmd = r.msg.cmd; content = r.msg.content ++ body };
      })
      else (failed out_of_order, r)
    else (failed out_of_order, r)

unfoldable pub feed : Reassembler → Bytes → Fed × Reassembler
unfolding feed_init feed_next
feed r (c3 ∷ c2 ∷ c1 ∷ c0 ∷ b ∷ body) =
    let ch = u32 c3 c2 c1 c0 in
    if ch == r.channel
    then if bit_and b 0x80 == 0 then feed_next r b body else feed_init r ch b body
    else (failed wrong_channel, r)
feed r report = (failed short_packet, r)
