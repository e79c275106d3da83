-- ===== src/Examples/Replies.antt =====
-- What is read from replies, and what is asked for, at concrete input.
use fido.Base.{◌≤◌, ◌≡◌, refl, true, arith, List, [], ◌∷◌, ◌++◌, length, All, replicate, take, drop}
use fido.Base.Bits.{Bytes, IsByte}
use fido.Errors.{ok}
use fido.Format.{text}
use fido.Framing.{packets, first_packet, continuations, copy_into, cmd_cbor}
use fido.Init.{has}
use fido.Reassembly.{new_reassembler}
use fido.Transport.{value}
use fido.Cbor.{Cbor, Coded, got, bad, Value}
use fido.Session.{send_all}
use fido.Session.Reply.{own}
use fido.Session.Await.{Delivers}
use fido.Ctap2.{cbor}
use fido.Ctap2.Exchange.{meaning, cbor-meaning}
use fido.AuthData.{parse_auth_data}
use fido.AuthData.Layout.{auth_bytes}
use fido.AuthData.Types.{IsWellFormed, parse_auth_data-IsWellFormed}
use fido.AuthData.Complete.{StopsAfterItems, HoldsItems, parse_auth_data-auth_bytes}
use fido.PinProtocol.{pin_protocol_two}
use fido.Agreement.{ecdh_to_cose, cose_to_ecdh, cose_labels}
use fido.Agreement.Points.{Encodes, cose_to_ecdh-ecdh_to_cose}
use fido.ClientPin.{key_agreement}
use fido.Requests.{make_request, get_request}
use fido.Requests.Entries.{MakeEntries, GetEntries, requests_entries}
use fido.Examples.Script.{Script, device, script}
use fido.Examples.Sample.{sample, toy, attested_data, base_x, base_y, base_key}
use fido.Examples.Session.{key}
use fido.Examples.Credentials.{attested, attested_parsed, attested_data-IsByte}
use fido.Examples.Commands.{reply, asked, ended, registration, challenge}

-- A reply whose status is a refusal.
abbrev refusal : List Bytes
refusal = packets 5 0x10 (0x36 ∷ []) ++ []

abbrev command_sent : Script
command_sent = record (ended (asked 4)) { incoming = refusal }

refusal_sent : send_all device key (asked 4) (script refusal) ≡ (value tt, command_sent)
unfolding send_all packets continuations drop
refusal_sent = refl

refusal_delivered : Delivers device command_sent refusal (ended (asked 4))
unfolding packets first_packet continuations copy_into take replicate drop
refusal_delivered = (_, refl, refl)

refusal_whole : All (λ p. 5 ≤ length p) refusal × (length refusal ≤ 9)
unfolding packets first_packet continuations copy_into take replicate drop
refusal_whole = omega arith

refusal_own : own 5 refusal ≡ packets 5 cmd_cbor (0x36 ∷ []) ++ []
unfolding packets first_packet continuations copy_into take replicate drop
refusal_own = refl

cbor-meaning_example :
    (cbor device 9 key 4 (0xA0 ∷ []) (script refusal)).0 ≡ meaning device key refl (0x36 ∷ [])
cbor-meaning_example =
    cbor-meaning device key refl 9 4 (0xA0 ∷ []) (0x36 ∷ []) [] refusal [] (script refusal)
      command_sent (ended (asked 4)) (omega arith) (omega arith) refusal_sent refusal_delivered
      refusal_whole.1 refusal_whole.0 refusal_own (omega arith) (omega arith)

parse_auth_data-IsWellFormed_example : IsWellFormed attested
parse_auth_data-IsWellFormed_example =
    parse_auth_data-IsWellFormed sample attested_data attested attested_data-IsByte attested_parsed

attested-IsWellFormed : IsWellFormed attested
attested-IsWellFormed =
    parse_auth_data-IsWellFormed sample attested_data attested attested_data-IsByte attested_parsed

-- A coding whose items are the single bytes.
abbrev single : Bytes → Coded Bytes
single (b ∷ []) = got (b ∷ [])
single _ = bad (text "not an item")

abbrev bytewise : Cbor
bytewise = record sample { to_raw = single }

bytewise-StopsAfterItems : StopsAfterItems bytewise
bytewise-StopsAfterItems [] rest h = absurd (ground arith)
bytewise-StopsAfterItems (b ∷ []) rest h = refl
bytewise-StopsAfterItems (b ∷ b' ∷ more) rest h = absurd (ground arith)

attested-HoldsItems : HoldsItems bytewise attested
unfolding has
attested-HoldsItems = record { key = λ on. refl; extra = λ on. absurd (ground arith) }

parse_auth_data-auth_bytes_example : parse_auth_data bytewise (auth_bytes attested) ≡ ok attested
parse_auth_data-auth_bytes_example =
    parse_auth_data-auth_bytes bytewise bytewise-StopsAfterItems attested attested-IsWellFormed
      attested-HoldsItems

abbrev pub base : Bytes
base = 4 ∷ (base_x ++ base_y)

base-IsByte : All IsByte base
unfolding fido.Agreement.fill_bytes
base-IsByte = omega arith

base_good : fido.Agreement.is_point base ≡ true
unfolding fido.Agreement.is_point fido.Agreement.fill_bytes fido.Cose.is_on_curve fido.Cose.number
    take drop
base_good = refl

base_sent : ecdh_to_cose base ≡ ok (cose_labels base_x base_y)
unfolding ecdh_to_cose fido.Agreement.fill_bytes fido.Cose.number take drop
base_sent = refl

base-Encodes : Encodes sample (0xA5 ∷ []) (cose_labels base_x base_y)
unfolding cose_labels fido.Cbor.find_label
base-Encodes = (base_key, refl, ((base_x, refl, refl), ((base_y, refl, refl), tt)))

cose_to_ecdh-ecdh_to_cose_example : cose_to_ecdh sample (0xA5 ∷ []) ≡ ok base
cose_to_ecdh-ecdh_to_cose_example =
    cose_to_ecdh-ecdh_to_cose sample base (0xA5 ∷ []) (cose_labels base_x base_y) base-IsByte
      base_good base_sent base-Encodes

pub agreed :
    key_agreement sample device 9 key pin_protocol_two (script (reply 3))
    ≡ (value base, ended (asked 6))
unfolding key_agreement fido.Ctap2.ctap2_ready has fido.Ctap2.cbor_call cbor fido.Session.round_trip
    fido.Framing.split send_all packets continuations drop fido.Session.await
    fido.Session.after_report fido.Session.after_fed fido.Reassembly.feed first_packet
    new_reassembler fido.Reassembly.finish copy_into take replicate fido.Ctap2.take_status
    fido.Framing.is_error fido.Framing.next_packet fido.Reassembly.feed_init
    fido.Reassembly.feed_next fido.Session.after_message fido.Session.name fido.Status.is_refusal
    cose_to_ecdh fido.Agreement.is_point fido.Agreement.point_of fido.Agreement.fill_bytes
    fido.Agreement.read_agreement_key fido.Cbor.find fido.Cbor.find_label
    fido.ClientPin.parse_agreement fido.Cose.is_on_curve fido.Cose.number fido.Cose.read_coordinate
agreed = refl

requests_entries_example :
    MakeEntries toy registration (make_request toy registration)
    × GetEntries toy challenge (get_request toy challenge)
requests_entries_example = requests_entries toy registration challenge
