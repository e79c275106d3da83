-- ===== src/Examples/Tokens.antt =====
-- `PINToken` with an authenticator that keeps to the protocol, at concrete input.
use fido.Base.{
  ℕ, true, ◌≡◌, ◌≢◌, ◌⊎◌, inl, inr, refl, sym, ap, ◌∙◌, subst, arith, List, [], ◌∷◌, ◌++◌, length,
  All, replicate, take,
}
use fido.Base.Bits.{Bytes, IsByte}
use fido.Errors.{ok, token}
use fido.Format.{text}
use fido.Init.{has, cap_cbor}
use fido.ClientPin.Tokens.{TokenSize}
use fido.Cbor.{Cbor, got, Value}
use fido.Ctap2.{member_field, cbor_call}
use fido.Transport.{value}
use fido.PinProtocol.{Crypto, PinKeys, pin_protocol_one, encrypt, derive_keys, decrypt}
use fido.PinProtocol.Chaining.{IsCipher}
use fido.Agreement.{exchange, cose_labels, ecdh_to_cose}
use fido.Agreement.Keys.{Agrees}
use fido.ClientPin.{
  Token, parse_agreement, key_agreement, pin_token, token_request, cmd_client_pin, cp_resp_token,
}
use fido.ClientPin.Offer.{key_agreement-value}
use fido.ClientPin.Agreed.{Honest, Shared, pin_token-Shared}
use fido.ClientPin.Issued.{pin_token_issued}
use fido.Examples.Script.{Script, device, fixed, script}
use fido.Examples.Sample.{sample, toy, toy-IsCipher, base_x, base_y}
use fido.Examples.Session.{key}
use fido.Examples.Credentials.{shared_keys, fixed-FillsIv}
use fido.Examples.Commands.{reply, asked, ended, token_made, pin_script}
use fido.Examples.Replies.{base}

-- A cryptography in which every private key has the base point, and a coding whose only map holds an
-- agreement key and an encrypted token.
abbrev pub based : Crypto
based = record toy { public_point = λ private. base }

abbrev pub enc_token : Bytes
enc_token = replicate 32 6

abbrev offering : Cbor
offering = record sample { to_map = λ b. got ((1, 0xA5 ∷ []) ∷ (2, enc_token) ∷ []) }

based-Agrees : Agrees based
based-Agrees a b secret h = h

pub based-IsCipher : IsCipher based
based-IsCipher = record {
  size = toy-IsCipher.size;
  byte = toy-IsCipher.byte;
  reverse = toy-IsCipher.reverse;
}

offered_base : (body : Bytes) → parse_agreement offering body ≡ ok base
unfolding parse_agreement fido.Cbor.find fido.Agreement.cose_to_ecdh
    fido.Agreement.read_agreement_key fido.Cose.read_coordinate fido.Cbor.find_label
    fido.Agreement.point_of fido.Agreement.fill_bytes fido.Agreement.is_point fido.Cose.is_on_curve
    fido.Cose.number take fido.Base.drop
offered_base body = refl

pub sealed_token :
    encrypt based fixed shared_keys token_made.raw (script []) ≡ (value enc_token, script [])
unfolding encrypt fido.PinProtocol.is_whole replicate fido.PinProtocol.is_aes_key
    fido.PinProtocol.make_iv fido.PinProtocol.encrypt_with fido.PinProtocol.cbc_encrypt
    fido.PinProtocol.xor_bytes take fido.Base.drop
sealed_token = refl

derived_keys :
    (secret : Bytes) (keys : PinKeys)
    → derive_keys based pin_protocol_one secret ≡ ok keys
    → replicate 32 5 ≡ secret
    → shared_keys ≡ keys
unfolding derive_keys replicate
derived_keys secret keys h e =
    let same : ok shared_keys ≡ ok keys =
      subst (λ z. derive_keys based pin_protocol_one z ≡ ok keys) (sym e) h in
    cc

-- The members of the only map.
abbrev members : List (ℕ × Bytes)
members = (1, 0xA5 ∷ []) ∷ (2, enc_token) ∷ []

token_member : member_field offering.to_bytes members cp_resp_token token ≡ ok enc_token
unfolding member_field fido.Cbor.find
token_member = refl

honest :
    Honest offering device based fixed fixed 9 0 key [] pin_protocol_one (5 ∷ []) token_made.raw
honest = record {
  offers = λ s s' point h.
      let (_, (body, read)) =
        key_agreement-value offering device 9 key pin_protocol_one s s' point h in
      let same = offered_base body in ground arith;
  issues = λ a secret enc body reply own keys raw s s' sent theirs derived answered decoded found.
      let made : shared_keys ≡ keys = derived_keys secret keys derived (ground arith) in
      let whole : members ≡ raw = cc in
      let same : ok enc_token ≡ ok reply =
        sym token_member
        ∙ ap (λ m. member_field offering.to_bytes m cp_resp_token token) whole
        ∙ found in
      let read : enc_token ≡ reply = cc in
      (
        script [],
        script [],
        subst (λ ks. encrypt based fixed ks token_made.raw (script []) ≡ (value reply, script []))
            made (sealed_token ∙ ap (λ b. (value b, script [])) read),
      );
}

token_run :
    pin_token offering device based fixed 9 key (text "1234") pin_protocol_one 0 [] pin_script
    ≡ (value token_made, ended (asked 6 ++ asked 6))
unfolding pin_token fido.Ctap2.ctap2_ready has fido.ClientPin.exchange_pin
    fido.ClientPin.key_agreement cbor_call fido.Ctap2.cbor fido.Session.round_trip
    fido.Framing.split fido.Session.send_all fido.Framing.packets fido.Framing.continuations
    fido.Base.drop fido.Session.await fido.Session.after_report fido.Session.after_fed
    fido.Reassembly.feed fido.Framing.first_packet fido.Agreement.agree fido.Agreement.cose_labels
    fido.Agreement.cose_to_ecdh fido.Agreement.ecdh_to_cose fido.Agreement.exchange
    fido.Agreement.fill_bytes fido.Agreement.is_point fido.Agreement.point_of
    fido.Agreement.read_agreement_key replicate fido.Base.take fido.Cbor.find fido.Cbor.find_label
    fido.ClientPin.checked_token fido.ClientPin.decrypt_token fido.ClientPin.parse_agreement
    fido.ClientPin.parse_token fido.ClientPin.token_request fido.Cose.is_on_curve fido.Cose.number
    fido.Cose.read_coordinate fido.Ctap2.member_field fido.Ctap2.take_status fido.Framing.copy_into
    fido.Framing.is_error fido.Framing.next_packet fido.PinProtocol.cbc_decrypt
    fido.PinProtocol.cbc_encrypt fido.PinProtocol.decrypt fido.PinProtocol.decrypt_with
    fido.PinProtocol.derive_keys fido.PinProtocol.derive_two fido.PinProtocol.encrypt
    fido.PinProtocol.encrypt_with fido.PinProtocol.is_aes_key fido.PinProtocol.is_whole
    fido.PinProtocol.make_iv fido.PinProtocol.pin_hash fido.PinProtocol.xor_bytes
    fido.Reassembly.feed_init fido.Reassembly.feed_next fido.Reassembly.finish
    fido.Reassembly.new_reassembler fido.Session.after_message fido.Session.name
    fido.Status.is_refusal
token_run = refl

pub token_made-IsByte : All IsByte token_made.raw
unfolding replicate
token_made-IsByte = omega arith

digest-IsByte : All IsByte (based.sha256 (text "1234"))
unfolding replicate
digest-IsByte = omega arith

pin_token-Shared_example :
    (token_made.raw ≡ token_made.raw)
    × Shared offering device based fixed fixed 9 0 key [] pin_protocol_one
        (5 ∷ [])
        (text "1234")
        (ended (asked 6 ++ asked 6))
        shared_keys
pin_token-Shared_example =
    pin_token-Shared offering device based fixed fixed 9 0 key [] pin_protocol_one (5 ∷ [])
      token_made.raw (text "1234") pin_script (ended (asked 6 ++ asked 6)) token_made based-Agrees
      based-IsCipher fixed-FillsIv fixed-FillsIv token_made-IsByte digest-IsByte honest token_run

abbrev after_offer : Script
after_offer = record { incoming = reply 4; sent = asked 6; closed = 0 }

abbrev pub own_key : Value
own_key = cose_labels base_x base_y

offer_run :
    key_agreement offering device 9 key pin_protocol_one pin_script ≡ (value base, after_offer)
unfolding key_agreement fido.Ctap2.ctap2_ready has fido.Ctap2.cbor_call fido.Ctap2.cbor
    fido.Session.round_trip fido.Framing.split fido.Session.send_all fido.Framing.packets
    fido.Framing.continuations fido.Base.drop fido.Session.await fido.Session.after_report
    fido.Session.after_fed fido.Reassembly.feed fido.Framing.first_packet
    fido.Reassembly.new_reassembler fido.Reassembly.finish fido.Framing.copy_into take replicate
    fido.Ctap2.take_status fido.Framing.is_error fido.Framing.next_packet fido.Reassembly.feed_init
    fido.Reassembly.feed_next fido.Session.after_message fido.Session.name fido.Status.is_refusal
    fido.Agreement.cose_to_ecdh fido.Agreement.is_point fido.Agreement.point_of
    fido.Agreement.fill_bytes fido.Agreement.read_agreement_key fido.Cbor.find fido.Cbor.find_label
    fido.ClientPin.parse_agreement fido.Cose.is_on_curve fido.Cose.number fido.Cose.read_coordinate
offer_run = refl

pub exchange_run : exchange based pin_protocol_one base (7 ∷ []) ≡ ok (own_key, shared_keys)
unfolding exchange ecdh_to_cose fido.Agreement.fill_bytes derive_keys fido.Cose.number replicate
    take fido.Base.drop
exchange_run = refl

hash_run :
    encrypt based fixed shared_keys (take 16 (based.sha256 (text "1234"))) after_offer
    ≡ (value (replicate 16 4), after_offer)
unfolding encrypt fido.PinProtocol.is_whole take replicate fido.PinProtocol.is_aes_key
    fido.PinProtocol.make_iv fido.PinProtocol.encrypt_with fido.PinProtocol.cbc_encrypt
    fido.PinProtocol.xor_bytes fido.Base.drop
hash_run = refl

answer_run :
    cbor_call device offering 9 key cmd_client_pin
      (token_request pin_protocol_one own_key (replicate 16 4) 0 [])
      after_offer
    ≡ (value (4 ∷ []), ended (asked 6 ++ asked 6))
unfolding key_agreement fido.Ctap2.ctap2_ready has fido.Ctap2.cbor_call fido.Ctap2.cbor
    fido.Session.round_trip fido.Framing.split fido.Session.send_all fido.Framing.packets
    fido.Framing.continuations fido.Base.drop fido.Session.await fido.Session.after_report
    fido.Session.after_fed fido.Reassembly.feed fido.Framing.first_packet
    fido.Reassembly.new_reassembler fido.Reassembly.finish fido.Framing.copy_into take replicate
    fido.Ctap2.take_status fido.Framing.is_error fido.Framing.next_packet fido.Reassembly.feed_init
    fido.Reassembly.feed_next fido.Session.after_message fido.Session.name fido.Status.is_refusal
    fido.Agreement.cose_to_ecdh fido.Agreement.is_point fido.Agreement.point_of
    fido.Agreement.fill_bytes fido.Agreement.read_agreement_key fido.Cbor.find fido.Cbor.find_label
    fido.ClientPin.parse_agreement fido.Cose.is_on_curve fido.Cose.number fido.Cose.read_coordinate
answer_run = refl

pub token_made-TokenSize : TokenSize pin_protocol_one (length token_made.raw)
unfolding replicate
token_made-TokenSize = inl (omega arith)

ready : has key.caps cap_cbor ≡ true
unfolding has
ready = refl

pin_token_issued_example :
    pin_token offering device based fixed 9 key (text "1234") pin_protocol_one 0 [] pin_script
    ≡ (value token_made, ended (asked 6 ++ asked 6))
unfolding member_field fido.Cbor.find
pin_token_issued_example =
    pin_token_issued offering device based fixed fixed 9 0 key [] pin_protocol_one (7 ∷ []) base
      (replicate 16 4) (4 ∷ []) enc_token token_made.raw (text "1234") own_key shared_keys members
      pin_script after_offer after_offer after_offer (ended (asked 6 ++ asked 6)) (script [])
      (script []) based-IsCipher fixed-FillsIv token_made-IsByte token_made-TokenSize ready
      (λ e. ground arith) offer_run refl exchange_run hash_run answer_run refl refl sealed_token
