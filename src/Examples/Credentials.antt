-- ===== src/Examples/Credentials.antt =====
-- Authenticator data, public keys, PINs and credentials at concrete input.
use fido.Base.{◌≡◌, ◌≢◌, ◌⊎◌, ◌+◌, refl, sym, ap, subst, arith, if◌then◌else◌, List, [], ◌∷◌, ◌++◌}
use fido.Base.{length, take, drop, replicate, All, get_or}
use fido.Base.Bits.{Bytes, IsByte}
use fido.Base.Int.{ℤ, int_eq}
use fido.Errors.{ok, err, bad_platform_key}
use fido.Format.{text}
use fido.Cbor.{got, Value, bytes}
use fido.AuthData.{AuthData, parse_auth_data}
use fido.AuthData.Layout.{auth_bytes, parse_auth_data-layout}
use fido.Cose.{PublicKey, public_key, number}
use fido.Cose.Sound.{Holds, public_key-Holds}
use fido.PinProtocol.{
  PinKeys, encrypt, decrypt, authenticate, derive_keys, pin_protocol_one, pin_protocol_two,
}
use fido.PinProtocol.RoundTrip.{FillsIv, decrypt-encrypt}
use fido.Agreement.{ecdh_to_cose, cose_labels, exchange}
use fido.Agreement.Keys.{p256_key, ecdh_to_cose_lem}
use fido.ClientPin.{pin_token}
use fido.ClientPin.Tokens.{pin_token_digest}
use fido.Transport.{value}
use fido.Examples.Script.{device, fixed, fixed_nonce, script}
use fido.Examples.Sample.{sample, sample-IsFaithful, toy, toy-IsCipher}
use fido.Examples.Sample.{attested_data, base_x, base_y}
use fido.Examples.Session.{key}

abbrev pub attested : AuthData
attested = record {
  rp_id_hash = replicate 32 8;
  flags = 0x41;
  sign_count = 3;
  aaguid = replicate 16 1;
  credential_id = 7 ∷ 7 ∷ [];
  cose_key = 0xA5 ∷ [];
  extensions = [];
}

pub attested_parsed : parse_auth_data sample attested_data ≡ ok attested
unfolding parse_auth_data replicate fido.AuthData.read_rest drop fido.Init.has
    fido.AuthData.read_attested fido.AuthData.read_credential fido.AuthData.read_key
    fido.AuthData.read_extensions take
attested_parsed = refl

pub attested_data-IsByte : All IsByte attested_data
unfolding replicate
attested_data-IsByte = omega arith

parse_auth_data-layout_example : auth_bytes attested ≡ attested_data
parse_auth_data-layout_example =
    parse_auth_data-layout sample sample-IsFaithful attested_data attested attested_data-IsByte
      attested_parsed

abbrev base_point : PublicKey
base_point = record { x = number 0 base_x; y = number 0 base_y }

base_point_read : public_key sample attested ≡ ok base_point
unfolding public_key fido.Cose.read_public_key fido.Cose.read_header fido.Cbor.find_label
    fido.Cose.check_kind fido.Cose.read_coordinate fido.Cose.checked_point fido.Agreement.fill_bytes
    fido.Cose.is_on_curve number
base_point_read = refl

public_key-Holds_example :
    (attested.cose_key ≢ [])
    × ((m : List (ℤ × Bytes)) × (sample.to_int_map attested.cose_key ≡ got m)
        × Holds sample m base_point)
public_key-Holds_example = (public_key-Holds sample attested base_point).0 base_point_read

abbrev two_keys : PinKeys
two_keys = record { proto = pin_protocol_two; aes = replicate 32 1; hmac = replicate 32 2 }

abbrev plain : Bytes
plain = replicate 16 3

pub fixed-FillsIv : FillsIv fixed
fixed-FillsIv s u iv h =
    let same : fixed_nonce ++ fixed_nonce ≡ iv = ground arith in
    (sym (ap length same), subst (All IsByte) same (omega arith))

plain-IsByte : All IsByte plain
unfolding replicate
plain-IsByte = omega arith

abbrev hidden : Bytes
hidden =
    fixed_nonce
    ++ fixed_nonce
    ++ (2 ∷ 1 ∷ 0 ∷ 7 ∷ 6 ∷ 5 ∷ 4 ∷ 11 ∷ 2 ∷ 1 ∷ 0 ∷ 7 ∷ 6 ∷ 5 ∷ 4 ∷ 11 ∷ [])

plain-hidden : encrypt toy fixed two_keys plain (script []) ≡ (value hidden, script [])
unfolding encrypt fido.PinProtocol.is_whole replicate fido.PinProtocol.is_aes_key
    fido.PinProtocol.make_iv fido.PinProtocol.encrypt_with fido.PinProtocol.cbc_encrypt
    fido.PinProtocol.xor_bytes take drop
plain-hidden = refl

decrypt-encrypt_example :
    (decrypt toy two_keys hidden ≡ ok plain)
    × (length hidden
        ≡ (if int_eq pin_protocol_two pin_protocol_two then 16 + length plain else length plain))
decrypt-encrypt_example =
    decrypt-encrypt toy toy-IsCipher two_keys fixed plain hidden (script []) (script [])
      fixed-FillsIv plain-IsByte plain-hidden

abbrev platform_point : Bytes
platform_point = 4 ∷ replicate 64 1

platform_point-IsByte : All IsByte platform_point
unfolding replicate
platform_point-IsByte = omega arith

ecdh_to_cose_lem_example :
    ((length platform_point ≡ 65)
      × (get_or platform_point 0 0 ≡ 4)
      × (ecdh_to_cose platform_point
          ≡ ok (p256_key (take 32 (drop 1 platform_point)) (drop 33 platform_point))))
    ⊎ ((¬ ((length platform_point ≡ 65) × (get_or platform_point 0 0 ≡ 4)))
        × (ecdh_to_cose platform_point ≡ err (bad_platform_key (length platform_point))))
ecdh_to_cose_lem_example = ecdh_to_cose_lem platform_point platform_point-IsByte

abbrev pub shared_keys : PinKeys
shared_keys = record { proto = pin_protocol_one; aes = replicate 32 32; hmac = replicate 32 32 }

abbrev own_key : Value
own_key = cose_labels (replicate 32 1) (replicate 32 1)

exchanged :
    exchange toy pin_protocol_one (toy.public_point (5 ∷ [])) (7 ∷ []) ≡ ok (own_key, shared_keys)
unfolding exchange ecdh_to_cose replicate derive_keys fido.Agreement.fill_bytes number take drop
exchanged = refl

pin_token_digest_example :
    pin_token sample device toy fixed 9 key (text "1234") pin_protocol_one 0 [] (script [])
    ≡ pin_token sample device toy fixed 9 key (text "4321") pin_protocol_one 0 [] (script [])
pin_token_digest_example =
    pin_token_digest sample device toy fixed 9 0 key (text "1234") (text "4321") [] pin_protocol_one
      (script []) (λ e. ground arith) (λ e. ground arith) refl
