-- ===== src/Examples/Session.antt =====
-- Exchanges with a scripted authenticator.
use fido.Base.{◌≤◌, ◌≡◌, ◌≢◌, refl, true, false, arith}
use fido.Base.{List, [], ◌∷◌, ◌++◌, length, All, take, replicate, drop, bytes_eq}
use fido.Base.Bits.{Bytes}
use fido.Errors.{ok, foreign_init}
use fido.Framing.{packets, split, cmd_init, first_packet, continuations, copy_into}
use fido.Reassembly.{new_reassembler, feed, feed_init, feed_next, finish}
use fido.Init.{InitReply, parse_init}
use fido.Transport.{value, error, panic, waiting}
use fido.Format.{text}
use fido.Session.{Key, send_all, await, round_trip, close, unopened, make_nonce, open_key}
use fido.Session.{handshake, accept_init, closing, after_report, after_fed, after_message}
use fido.Session.Stream.{messages, Answered}
use fido.Session.Reply.{own, keepalives}
use fido.Session.Await.{Delivers, await_total}
use fido.Session.Exchange.{round_trip-verdict, round_trip-Answered}
use fido.Session.Panic.{round_trip-panic}
use fido.Base.{◌↔◌, Bool, ℕ}
use fido.Session.Opening.{open_key-error, open_key-value}
use fido.Examples.Script.{Script, device, fixed, fixed_nonce, script}
use fido.Examples.Framing.{init_reply, foreign}

abbrev pub key : Key
key = record {
  attached = true;
  channel = 5;
  version = record { ctaphid = 2; major = 5; minor = 7; build = 4 };
  caps = 5;
}

-- A report of another channel, a keepalive, and the echo of a ping.
abbrev pub busy_script : List Bytes
busy_script = foreign ∷ (packets 5 0x3B (2 ∷ []) ++ (packets 5 1 (3 ∷ 4 ∷ []) ++ []))

abbrev after_send : Script
after_send = record { incoming = busy_script; sent = packets 5 1 (3 ∷ 4 ∷ []); closed = 0 }

abbrev after_reply : Script
after_reply = record { incoming = []; sent = packets 5 1 (3 ∷ 4 ∷ []); closed = 0 }

ping_sent :
    send_all device key (packets 5 1 (3 ∷ 4 ∷ [])) (script busy_script) ≡ (value tt, after_send)
unfolding send_all packets continuations drop
ping_sent = refl

busy_delivered : Delivers device after_send busy_script after_reply
unfolding packets first_packet continuations copy_into take replicate drop
busy_delivered = (_, refl, (_, refl, (_, refl, refl)))

busy_own : own 5 busy_script ≡ keepalives 5 ((2 ∷ []) ∷ []) ++ (packets 5 1 (3 ∷ 4 ∷ []) ++ [])
unfolding packets first_packet continuations copy_into take replicate drop
busy_own = refl

busy_whole : All (λ p. 5 ≤ length p) busy_script × (length busy_script ≤ 3)
unfolding packets first_packet continuations copy_into take replicate drop
busy_whole = omega arith

round_trip-verdict_example :
    (round_trip device 3 key 1 (3 ∷ 4 ∷ []) (script busy_script)).0 ≡ value (3 ∷ 4 ∷ [])
round_trip-verdict_example =
    round_trip-verdict device 3 1 1 key (3 ∷ 4 ∷ []) (3 ∷ 4 ∷ []) ((2 ∷ []) ∷ []) busy_script []
      (script busy_script) after_send after_reply refl (omega arith) (omega arith) ping_sent
      busy_delivered busy_whole.1 busy_whole.0 busy_own (omega arith) (omega arith) (omega arith)
      (omega arith)

ping_runs :
    round_trip device 3 key 1 (3 ∷ 4 ∷ []) (script busy_script) ≡ (value (3 ∷ 4 ∷ []), after_reply)
unfolding round_trip split send_all await packets first_packet continuations copy_into take
    replicate drop new_reassembler feed feed_init feed_next finish after_report after_fed
    after_message
ping_runs = refl

round_trip-Answered_example :
    (u : Script) × (ps : List Bytes) × (send_all device key
        (packets 5 1 (3 ∷ 4 ∷ []))
        (script busy_script)
      ≡ (value tt, u))
    × Delivers device u ps after_reply
    × Answered 1 (3 ∷ 4 ∷ []) (messages (new_reassembler 5) ps)
round_trip-Answered_example =
    round_trip-Answered device 3 1 key (3 ∷ 4 ∷ []) (3 ∷ 4 ∷ []) (script busy_script) after_reply
      refl ping_runs

await_total_example :
    ((await device 9 key 1 (new_reassembler 5) (script (foreign ∷ []))).0 ≢ waiting)
    × (await device 9 key 1 (new_reassembler 5) (script (foreign ∷ []))
        ≡ await device 2 key 1 (new_reassembler 5) (script (foreign ∷ [])))
await_total_example =
    await_total device (foreign ∷ []) 9 1 key (new_reassembler 5) (text "gone")
      (script (foreign ∷ [])) (script []) (script []) refl (_, refl, refl) refl (omega arith)

abbrev too_much : Bytes
unfolding replicate
too_much = replicate 7610 0

round_trip-panic_example :
    (((round_trip device 9 (record key { attached = false }) 1 (3 ∷ []) (script [])).0 ≡ panic)
      ↔ (◌≡◌ {A = Bool} false false) × (length {A = ℕ} (3 ∷ []) ≤ 7609))
    × ((round_trip device 9 (record key { attached = false }) 1 (3 ∷ []) (script [])).0 ≡ panic
        → (round_trip device 9 (record key { attached = false }) 1 (3 ∷ []) (script [])).1
          ≡ script [])
round_trip-panic_example =
    round_trip-panic device 9 1 (record key { attached = false }) (3 ∷ []) (script [])

-- The INIT reply to the fixed nonce, and one to another nonce.
abbrev pub handshake_script : List Bytes
handshake_script = packets 0xFFFFFFFF 6 init_reply ++ []

abbrev other_script : List Bytes
other_script = packets 0xFFFFFFFF 6 (0 ∷ init_reply) ++ []

abbrev opened_key : Key
opened_key = record {
  attached = true;
  channel = 265;
  version = record { ctaphid = 2; major = 5; minor = 7; build = 4 };
  caps = 5;
}

abbrev pub played : Script
played = record { incoming = []; sent = packets 0xFFFFFFFF 6 fixed_nonce; closed = 0 }

open_runs : open_key device fixed 2 (script handshake_script) ≡ (value opened_key, played)
unfolding open_key handshake make_nonce accept_init closing parse_init bytes_eq round_trip split
    send_all await packets first_packet continuations copy_into take replicate drop new_reassembler
    feed feed_init feed_next finish after_report after_fed after_message
open_runs = refl

-- The nonce is not the one that was sent: the transport is closed.
open_refuses : open_key device fixed 2 (script other_script) ≡ (
  error (foreign_init (0 ∷ 1 ∷ 2 ∷ 3 ∷ 4 ∷ 5 ∷ 6 ∷ 7 ∷ []) fixed_nonce),
  record played { closed = 1 },
)
unfolding open_key handshake make_nonce accept_init closing close parse_init bytes_eq round_trip
    split send_all await packets first_packet continuations copy_into take replicate drop
    new_reassembler feed feed_init feed_next finish after_report after_fed after_message
open_refuses = refl

open_key-value_example :
    (nonce reply : Bytes) × (u : Script) × (init : InitReply) × (make_nonce device fixed
        (script handshake_script)
      ≡ (value nonce, u))
    × (round_trip device 2 unopened cmd_init nonce u ≡ (value reply, played))
    × (parse_init reply ≡ ok init)
    × (init.nonce ≡ nonce)
    × (opened_key ≡ record {
      attached = true;
      channel = init.channel;
      version = init.version;
      caps = init.caps;
    })
open_key-value_example =
    open_key-value device fixed 2 (script handshake_script) played opened_key open_runs

open_key-error_example : (u : Script) × (record played { closed = 1 } ≡ (device.close u).1)
open_key-error_example =
    open_key-error device fixed 2 (script other_script) (record played { closed = 1 })
      (foreign_init (0 ∷ 1 ∷ 2 ∷ 3 ∷ 4 ∷ 5 ∷ 6 ∷ 7 ∷ []) fixed_nonce) open_refuses
