-- ===== src/Examples/Commands.antt =====
-- Whole commands against a scripted authenticator.
use fido.Base.{ℕ, ◌≡◌, ◌≢◌, refl, true, arith, List, [], ◌∷◌, ◌++◌, length, replicate}
use fido.Base.Bits.{Bytes}
use fido.Base.Int.{pos}
use fido.Format.{text}
use fido.Framing.{packets}
use fido.Init.{has, cap_cbor}
use fido.Transport.{value}
use fido.Ctap2.{cbor_call}
use fido.PinProtocol.{PinKeys, pin_protocol_one}
use fido.ClientPin.{Token, pin_token}
use fido.ClientPin.Tokens.{TokenSize, pin_token-TokenSize}
use fido.Requests.{MakeCredentialRequest, GetAssertionRequest, make_request, get_request}
use fido.Requests.{cmd_make_credential, cmd_get_assertion}
use fido.Credentials.{Attestation, Assertion, make_credential, get_assertion}
use fido.Credentials.Registrations.{HoldsAttestation, make_credential-HoldsAttestation}
use fido.Credentials.Assertions.{HoldsAssertion, get_assertion-HoldsAssertion}
use fido.ClientPin.Asked.{Asked}
use fido.ClientPin.{pin_retries, key_agreement}
use fido.Session.{Key}
use fido.Examples.Script.{Script, device, fixed, script}
use fido.Examples.Sample.{sample, toy, attested_data}
use fido.Examples.Session.{key}
use fido.Examples.Credentials.{attested, shared_keys}

-- The reply to a CTAP2 command: a status of zero and a body of one byte.
abbrev pub reply : ℕ → List Bytes
reply body = packets 5 0x10 (0 ∷ body ∷ [])

abbrev pub asked : ℕ → List Bytes
asked cmd = packets 5 0x10 (cmd ∷ 0xA0 ∷ [])

abbrev pub ended : List Bytes → Script
ended sent = record { incoming = []; sent = sent; closed = 0 }

-- No token.
abbrev no_token : Token
no_token = record { keys = record { proto = pos 0; aes = []; hmac = [] }; raw = [] }

abbrev pub registration : MakeCredentialRequest
registration = record {
  client_data_hash = replicate 32 5;
  rp = record { id = text "a.b"; name = text "A" };
  user = record { id = 1 ∷ []; name = text "u"; display_name = [] };
  algorithms = [];
  exclude = [];
  options = (text "rk", true) ∷ [];
  token = no_token;
}

abbrev pub attestation : Attestation
attestation = record {
  format = 65 ∷ [];
  auth_data = attested_data;
  parsed = attested;
  statement = [];
}

registered :
    make_credential sample device toy 9 key registration (script (reply 1))
    ≡ (value attestation, ended (asked 1))
unfolding make_credential fido.Ctap2.ctap2_ready has fido.Requests.check_make replicate cbor_call
    fido.Ctap2.cbor fido.Session.round_trip fido.Framing.split fido.Session.send_all packets
    fido.Framing.continuations fido.Base.drop fido.Session.await fido.Session.after_report
    fido.Session.after_fed fido.Reassembly.feed fido.Framing.first_packet
    fido.AuthData.parse_auth_data fido.AuthData.read_attested fido.AuthData.read_credential
    fido.AuthData.read_extensions fido.AuthData.read_key fido.AuthData.read_rest fido.Base.take
    fido.Cbor.find fido.ClientPin.auth_param fido.ClientPin.is_valid
    fido.Credentials.parse_attestation fido.Credentials.raw_or_nil fido.Credentials.read_attestation
    fido.Credentials.read_auth_data fido.Ctap2.member_field fido.Ctap2.take_status
    fido.Framing.copy_into fido.Framing.is_error fido.Framing.next_packet
    fido.PinProtocol.authenticate fido.Reassembly.feed_init fido.Reassembly.feed_next
    fido.Reassembly.finish fido.Reassembly.new_reassembler fido.Requests.algorithm_items
    fido.Requests.descriptor fido.Requests.descriptors make_request fido.Requests.option_names
    fido.Requests.text_items fido.Requests.token_entries fido.Requests.user_map
    fido.Session.after_message fido.Session.name fido.Status.is_refusal
registered = refl

make_credential-HoldsAttestation_example :
    (has key.caps cap_cbor ≡ true)
    × (registration.client_data_hash ≢ [])
    × (registration.rp.id ≢ [])
    × (registration.user.id ≢ [])
    × ((body : Bytes) × (cbor_call device sample 9 key cmd_make_credential
            (make_request toy registration)
            (script (reply 1))
          ≡ (value body, ended (asked 1)))
        × HoldsAttestation sample body attestation)
make_credential-HoldsAttestation_example =
    (make_credential-HoldsAttestation sample device toy 9 key registration (script (reply 1))
        (ended (asked 1)) attestation).0
      registered

abbrev pub challenge : GetAssertionRequest
challenge = record {
  rp_id = text "a.b";
  client_data_hash = replicate 32 5;
  allow = record { kind = []; id = 7 ∷ 7 ∷ []; transports = [] } ∷ [];
  options = [];
  token = record { keys = shared_keys; raw = replicate 32 6 };
}

abbrev pub assertion : Assertion
assertion = record {
  credential = record { kind = []; id = []; transports = [] };
  auth_data = attested_data;
  parsed = attested;
  signature = 9 ∷ [];
  user_id = [];
  available = 0;
}

asserted :
    get_assertion sample device toy 9 key challenge (script (reply 2))
    ≡ (value assertion, ended (asked 2))
unfolding get_assertion fido.Ctap2.ctap2_ready has fido.Requests.check_get replicate cbor_call
    fido.Ctap2.cbor fido.Session.round_trip fido.Framing.split fido.Session.send_all packets
    fido.Framing.continuations fido.Base.drop fido.Session.await fido.Session.after_report
    fido.Session.after_fed fido.Reassembly.feed fido.Framing.first_packet
    fido.AuthData.parse_auth_data fido.AuthData.read_attested fido.AuthData.read_credential
    fido.AuthData.read_extensions fido.AuthData.read_key fido.AuthData.read_rest fido.Base.take
    fido.Cbor.find fido.ClientPin.auth_param fido.ClientPin.is_valid fido.Credentials.decoded_or
    fido.Credentials.parse_assertion fido.Credentials.read_assertion fido.Credentials.read_auth_data
    fido.Ctap2.member_field fido.Ctap2.take_status fido.Framing.copy_into fido.Framing.is_error
    fido.Framing.next_packet fido.PinProtocol.authenticate fido.Reassembly.feed_init
    fido.Reassembly.feed_next fido.Reassembly.finish fido.Reassembly.new_reassembler
    fido.Requests.descriptor fido.Requests.descriptors get_request fido.Requests.option_names
    fido.Requests.text_items fido.Requests.token_entries fido.Session.after_message
    fido.Session.name fido.Status.is_refusal
asserted = refl

get_assertion-HoldsAssertion_example :
    (has key.caps cap_cbor ≡ true)
    × (challenge.rp_id ≢ [])
    × (challenge.client_data_hash ≢ [])
    × ((body : Bytes) × (cbor_call device sample 9 key cmd_get_assertion
            (get_request toy challenge)
            (script (reply 2))
          ≡ (value body, ended (asked 2)))
        × HoldsAssertion sample body assertion)
get_assertion-HoldsAssertion_example =
    (get_assertion-HoldsAssertion sample device toy 9 key challenge (script (reply 2))
        (ended (asked 2)) assertion).0
      asserted

abbrev pub token_made : Token
token_made = record { keys = shared_keys; raw = replicate 16 6 ++ replicate 16 0 }

abbrev pub pin_script : Script
pin_script = script (reply 3 ++ reply 4)

token_given :
    pin_token sample device toy fixed 9 key (text "1234") pin_protocol_one 0 [] pin_script
    ≡ (value token_made, ended (asked 6 ++ asked 6))
unfolding pin_token fido.Ctap2.ctap2_ready has fido.ClientPin.exchange_pin
    fido.ClientPin.key_agreement cbor_call fido.Ctap2.cbor fido.Session.round_trip
    fido.Framing.split fido.Session.send_all packets fido.Framing.continuations fido.Base.drop
    fido.Session.await fido.Session.after_report fido.Session.after_fed fido.Reassembly.feed
    fido.Framing.first_packet fido.Agreement.agree fido.Agreement.cose_labels
    fido.Agreement.cose_to_ecdh fido.Agreement.ecdh_to_cose fido.Agreement.exchange
    fido.Agreement.fill_bytes fido.Agreement.is_point fido.Agreement.point_of
    fido.Agreement.read_agreement_key replicate fido.Base.take fido.Cbor.find fido.Cbor.find_label
    fido.ClientPin.checked_token fido.ClientPin.decrypt_token fido.ClientPin.parse_agreement
    fido.ClientPin.parse_token fido.ClientPin.token_request fido.Cose.is_on_curve fido.Cose.number
    fido.Cose.read_coordinate fido.Ctap2.member_field fido.Ctap2.take_status fido.Framing.copy_into
    fido.Framing.is_error fido.Framing.next_packet fido.PinProtocol.cbc_decrypt
    fido.PinProtocol.cbc_encrypt fido.PinProtocol.decrypt fido.PinProtocol.decrypt_with
    fido.PinProtocol.derive_keys fido.PinProtocol.derive_two fido.PinProtocol.encrypt
    fido.PinProtocol.encrypt_with fido.PinProtocol.is_aes_key fido.PinProtocol.is_whole
    fido.PinProtocol.make_iv fido.PinProtocol.pin_hash fido.PinProtocol.xor_bytes
    fido.Reassembly.feed_init fido.Reassembly.feed_next fido.Reassembly.finish
    fido.Reassembly.new_reassembler fido.Session.after_message fido.Session.name
    fido.Status.is_refusal
token_given = refl

pin_token-TokenSize_example :
    (text "1234" ≢ []) × TokenSize pin_protocol_one (length token_made.raw)
pin_token-TokenSize_example =
    pin_token-TokenSize sample device toy fixed 9 0 key (text "1234") [] pin_protocol_one pin_script
      (ended (asked 6 ++ asked 6)) token_made token_given
