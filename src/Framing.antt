-- ===== src/Framing.antt =====
-- fido.go: the constants of CTAPHID, `Split` and `Message`.
pub mod Shape
use fido.Base.{ℕ, zero, suc, ◌+◌, ◌-◌, ◌*◌, ◌%◌, ◌^◌, ltb, ◌==◌, if◌then◌else◌, Bool}
use fido.Base.{List, [], ◌∷◌, ◌++◌, length, take, drop, replicate, bit_or}
use fido.Base.Bits.{Bytes, put_u16, put_u32}
use fido.Errors.{Result, ok, err, too_long}

abbrev pub report_size : ℕ
report_size = 64

abbrev pub broadcast_channel : ℕ
broadcast_channel = 0xFFFFFFFF

abbrev pub cmd_ping : ℕ
cmd_ping = 0x01

abbrev pub cmd_init : ℕ
cmd_init = 0x06

abbrev pub cmd_wink : ℕ
cmd_wink = 0x08

abbrev pub cmd_cbor : ℕ
cmd_cbor = 0x10

-- An older message, the lock and the abandoning of a request: named in the source, and not sent.
abbrev pub cmd_msg : ℕ
cmd_msg = 0x03

abbrev pub cmd_lock : ℕ
cmd_lock = 0x04

abbrev pub cmd_cancel : ℕ
cmd_cancel = 0x11

abbrev pub cmd_keepalive : ℕ
cmd_keepalive = 0x3B

abbrev pub cmd_error : ℕ
cmd_error = 0x3F

abbrev pub init_payload : ℕ
init_payload = report_size - 7

abbrev pub cont_payload : ℕ
cont_payload = report_size - 5

abbrev pub max_continuations : ℕ
max_continuations = 128

abbrev pub max_message : ℕ
max_message = init_payload + max_continuations * cont_payload

-- `copy` into `n` zero bytes: what does not fit is left out, and what is not reached stays zero.
unfoldable pub copy_into : ℕ → Bytes → Bytes
copy_into n src = take n src ++ replicate (n - length src) 0

-- The initialisation packet.
unfoldable pub first_packet : ℕ → ℕ → Bytes → Bytes
first_packet channel cmd content =
    put_u32 channel
      (bit_or 0x80 cmd ∷ put_u16 (length content % 2 ^ 16) (copy_into init_payload content))

-- One continuation packet. `byte(seq)` keeps the low eight bits.
unfoldable pub next_packet : ℕ → ℕ → Bytes → Bytes
next_packet channel seq rest = put_u32 channel ((seq % 256) ∷ copy_into cont_payload rest)

-- The loop of `Split`: `rest` is `data[n:]`, and the loop ends when it is empty. Each round takes a
-- byte at least, so the length of `rest` is fuel enough.
unfoldable pub continuations : ℕ → ℕ → ℕ → Bytes → List Bytes
continuations zero channel seq rest = []
continuations (suc fuel) channel seq [] = []
continuations (suc fuel) channel seq (b ∷ rest) =
    next_packet channel seq (b ∷ rest)
    ∷ continuations fuel channel (seq + 1) (drop cont_payload (b ∷ rest))

unfoldable pub packets : ℕ → ℕ → Bytes → List Bytes
packets channel cmd content =
    first_packet channel cmd content
    ∷ continuations (length content) channel 0 (drop init_payload content)

unfoldable pub split : ℕ → ℕ → Bytes → Result (List Bytes)
split channel cmd content =
    if ltb max_message (length content) then err too_long else ok (packets channel cmd content)

pub record Message : Type 0 where
  pub channel : ℕ
  pub cmd : ℕ
  pub content : Bytes

unfoldable pub is_error : Message → Bool
is_error m = m.cmd == cmd_error
