-- ===== src/Reassembly/Packets.antt =====
-- fido.go: what single packets of a message do to a reassembler.
use fido.Base.{ℕ, ◌+◌, ◌-◌, ◌%◌, ◌^◌, ◌≤◌, ◌<◌, ◌≡◌}
use fido.Base.{Bool, true, false, bit_or, arith}
use fido.Base.{◌++◌, length, take, drop, replicate, append_assoc}
use fido.Base.{length-append, length-take, length-drop, take-append}
use fido.Base.Bits.{Bytes, set_high, high_bit, clear_high, u16-put_u16, u32-put_u32}
use fido.Framing.{init_payload, cont_payload, copy_into, Message}
use fido.Framing.{first_packet, next_packet}
use fido.Framing.Shape.{length-copy_into, copy_into_short, copy_into_long}
use fido.Reassembly.{Reassembler, pending, done, finish, feed}

abbrev pub message : ℕ → ℕ → Bytes → Message
message channel cmd content = record { channel = channel; cmd = cmd; content = content }

-- A reassembler in the middle of a message.
abbrev pub midway : ℕ → ℕ → Bytes → ℕ → ℕ → Bool → Reassembler
midway channel cmd acc want seq started = record {
  channel = channel;
  msg = message channel cmd acc;
  want = want;
  seq = seq;
  started = started;
}

pub feed-next_packet :
    (channel cmd want seq : ℕ) (acc rest : Bytes)
    → channel < 2 ^ 32
    → seq < 128
    → feed (midway channel cmd acc want seq true) (next_packet channel seq rest)
      ≡ finish (midway channel cmd (acc ++ copy_into cont_payload rest) want (seq + 1) true)
unfolding feed next_packet
feed-next_packet channel cmd want seq acc rest hc hs =
    ground (arith, u32-put_u32 channel hc, high_bit (seq % 256) (omega arith))

pub feed-first_packet :
    (r : Reassembler) (cmd : ℕ) (content : Bytes)
    → r.channel < 2 ^ 32
    → cmd < 128
    → length content < 2 ^ 16
    → feed r (first_packet r.channel cmd content)
      ≡ finish (midway r.channel cmd (copy_into init_payload content) (length content) 0 true)
unfolding feed first_packet
feed-first_packet r cmd content hc hm hl =
    let mark : bit_or 0x80 cmd ≡ cmd + 128 = set_high cmd hm in
    rw (u32-put_u32 r.channel hc, mark)
      (ground (
        arith,
        high_bit (cmd + 128) (omega arith),
        clear_high (cmd + 128) (omega arith),
        u16-put_u16 (length content % 2 ^ 16) (omega arith),
      ))

-- The bytes of the message are `acc`, already here, and `rest`, still to come.
pub finish_last :
    (channel cmd seq n : ℕ) (acc rest : Bytes)
    → length rest ≤ n
    → finish (midway channel cmd (acc ++ copy_into n rest) (length acc + length rest) seq true) ≡ (
      done (message channel cmd (acc ++ rest)),
      midway channel cmd (acc ++ copy_into n rest) (length acc + length rest) seq false,
    )
unfolding finish
finish_last channel cmd seq n acc rest h =
    let zeros : Bytes = replicate (n - length rest) 0 in
    let whole : take (length acc + length rest) (acc ++ copy_into n rest) ≡ acc ++ rest =
      rw (copy_into_short n rest h, ← append_assoc acc rest zeros)
        (take-append _ (acc ++ rest) zeros (length-append acc rest)) in
    ground (arith, whole, length-append acc (copy_into n rest), length-copy_into n rest)

pub finish_more :
    (channel cmd seq n : ℕ) (acc rest : Bytes)
    → n < length rest
    → finish (midway channel cmd (acc ++ copy_into n rest) (length acc + length rest) seq true) ≡ (
      pending,
      midway channel cmd
          (acc ++ take n rest)
          (length (acc ++ take n rest) + length (drop n rest))
          seq
          true,
    )
unfolding finish
finish_more channel cmd seq n acc rest h =
    rw (copy_into_long n rest (omega arith))
      (ground (arith, length-append acc (take n rest), length-take n rest, length-drop n rest))
