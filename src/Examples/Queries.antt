-- ===== src/Examples/Queries.antt =====
-- The commands that ask once, at concrete input.
use fido.Base.{ℕ, ◌≡◌, ◌≢◌, refl, true, false, List, [], ◌∷◌}
use fido.Base.Bits.{Bytes}
use fido.Base.Int.{pos}
use fido.Init.{has, cap_cbor}
use fido.Framing.{packets, cmd_cbor}
use fido.Transport.{value}
use fido.Cbor.{end}
use fido.Ctap2.{cbor, cbor_call, cmd_get_info}
use fido.PinProtocol.{pin_protocol_one, pin_protocol_two}
use fido.ClientPin.{Retries, pin_retries, key_agreement, request, cmd_client_pin}
use fido.ClientPin.{sub_get_pin_retries, sub_get_key_agreement}
use fido.ClientPin.Queries.{HoldsRetries, HoldsOffer, pin_retries-HoldsRetries}
use fido.ClientPin.Queries.{key_agreement-HoldsOffer}
use fido.Info.{get_info}
use fido.Info.Fields.{Described}
use fido.Info.Query.{get_info-Described}
use fido.Examples.Script.{device, script}
use fido.Examples.Sample.{sample}
use fido.Examples.Session.{key}
use fido.Examples.Commands.{reply, asked, ended}
use fido.Examples.Info.{described}
use fido.Examples.Replies.{base, agreed}

abbrev nine_left : Retries
nine_left = record { pin = pos 9; power_cycle = false }

retries_read :
    pin_retries sample device 9 key (script (reply 2)) ≡ (value nine_left, ended (asked 6))
unfolding pin_retries fido.Ctap2.ctap2_ready cbor_call fido.Session.round_trip fido.Framing.split
    fido.Session.send_all packets fido.Framing.continuations fido.Base.drop fido.Session.await
    fido.Session.after_report fido.Session.after_fed fido.Reassembly.feed fido.Framing.first_packet
    fido.Reassembly.new_reassembler fido.Reassembly.finish fido.Base.replicate fido.Base.take
    fido.Cbor.find fido.Ctap2.take_status fido.Framing.copy_into fido.Framing.is_error
    fido.Framing.next_packet fido.Reassembly.feed_init fido.Reassembly.feed_next
    fido.Session.after_message fido.Session.name fido.Status.is_refusal has cbor
    fido.ClientPin.parse_retries fido.ClientPin.read_power_cycle fido.Ctap2.member_field
retries_read = refl

pin_retries-HoldsRetries_example :
    (has key.caps cap_cbor ≡ true)
    × ((body : Bytes) × (cbor_call device sample 9 key cmd_client_pin
            (request pin_protocol_one sub_get_pin_retries end)
            (script (reply 2))
          ≡ (value body, ended (asked 6)))
        × HoldsRetries sample body nine_left)
pin_retries-HoldsRetries_example =
    (pin_retries-HoldsRetries sample device 9 key (script (reply 2)) (ended (asked 6)) nine_left).0
      retries_read

key_agreement-HoldsOffer_example :
    (has key.caps cap_cbor ≡ true)
    × ((body : Bytes) × (cbor_call device sample 9 key cmd_client_pin
            (request pin_protocol_two sub_get_key_agreement end)
            (script (reply 3))
          ≡ (value body, ended (asked 6)))
        × HoldsOffer sample body base)
key_agreement-HoldsOffer_example =
    (key_agreement-HoldsOffer sample device 9 key pin_protocol_two (script (reply 3))
        (ended (asked 6)) base).0
      agreed

abbrev info_asked : List Bytes
info_asked = packets 5 cmd_cbor (4 ∷ [])

info_got : get_info sample device 9 key (script (reply 5)) ≡ (value described, ended info_asked)
unfolding get_info fido.Info.parse_info fido.Info.read_fields fido.Info.optional
    fido.Info.checked_info fido.Session.round_trip fido.Framing.split fido.Session.send_all packets
    fido.Framing.continuations fido.Base.drop fido.Session.await fido.Session.after_report
    fido.Session.after_fed fido.Reassembly.feed fido.Framing.first_packet
    fido.Reassembly.new_reassembler fido.Reassembly.finish fido.Base.replicate fido.Base.take
    fido.Cbor.find fido.Ctap2.take_status fido.Framing.copy_into fido.Framing.is_error
    fido.Framing.next_packet fido.Reassembly.feed_init fido.Reassembly.feed_next
    fido.Session.after_message fido.Session.name fido.Status.is_refusal has cbor
info_got = refl

get_info-Described_example :
    (has key.caps cap_cbor ≡ true)
    × ((body : Bytes) × (cbor device 9 key cmd_get_info [] (script (reply 5))
          ≡ (value body, ended info_asked))
        × (body ≢ [])
        × Described sample body described)
get_info-Described_example =
    (get_info-Described sample device 9 key (script (reply 5)) (ended info_asked) described).0
      info_got
