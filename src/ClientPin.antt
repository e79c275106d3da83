-- ===== src/ClientPin.antt =====
-- clientpin.go: `PINRetries`, `KeyAgreement`, `Token` and `PINToken`.
mod Codes
pub mod Steps
pub mod Tokens
pub mod Asked
pub mod Offer
pub mod Queries
pub mod Agreed
pub mod Issued
pub mod Granted
pub use Codes.*
use fido.Base.{ℕ, ltb, ◌==◌, if◌then◌else◌, Bool, true, false, not, ◌&&◌, ◌||◌}
use fido.Base.{Option, none, some, List, [], ◌∷◌, length, is_empty}
use fido.Base.Bits.{Bytes}
use fido.Base.Int.{ℤ, pos, int_eq}
use fido.Errors.{Text, Error, Result, ok, err, Member, retry_count, token, Answer}
use fido.Errors.{
  not_a_map, bad_power_cycle, no_agreement_key, empty_pin, will_not_decrypt, token_size,
}
use fido.Transport.{Transport, Random, M, ◌>>=◌, ◌>>◌, return, raise, from}
use fido.Session.{Key}
use fido.Cbor.{Cbor, Coded, got, bad, find, Value, num, bytes, str, labels, Labels, entry, end}
use fido.Ctap2.{member_field, ctap2_ready, cbor_call}
use fido.PinProtocol.{Crypto, PinKeys, pin_protocol_one, decrypt, authenticate, pin_hash}
use fido.Agreement.{cose_to_ecdh, agree}

pub record Retries : Type 0 where
  pub pin : ℤ
  pub power_cycle : Bool

-- A token with the keys of the exchange that it came from.
pub record Token : Type 0 where
  pub keys : PinKeys
  pub raw : Bytes

abbrev pub token_protocol : Token → ℤ
token_protocol t = t.keys.proto

unfoldable pub is_valid : Token → Bool
is_valid t = not (is_empty t.raw)

unfoldable pub auth_param : Crypto → Token → Bytes → Bytes
auth_param y t content =
    authenticate y (record { proto = t.keys.proto; aes = t.raw; hmac = t.raw }) content

-- A request with a protocol and a subcommand, and more.
abbrev pub request : ℤ → ℕ → Labels → Value
request proto sub more =
    labels (entry cp_protocol (num proto) (entry cp_sub_command (num (pos sub)) more))

-- What `PINToken` asks for: without permissions the exchange of CTAP 2.0, and otherwise that of 2.1,
-- whose relying party is left out if it is empty.
unfoldable pub token_request : ℤ → Value → Bytes → ℕ → Text → Value
token_request proto own hash_enc perms rp_id =
    let party : Labels = if is_empty rp_id then end else entry cp_rp_id (str rp_id) end in
    if perms == 0
    then request proto sub_get_pin_token
        (entry cp_key_agreement own (entry cp_pin_hash_enc (bytes hash_enc) end))
    else request proto sub_get_token_using_pin (
        entry cp_key_agreement own
          (entry cp_pin_hash_enc (bytes hash_enc) (entry cp_permissions (num (pos perms)) party)))

-- A token has 32 bytes, or 16 under protocol one.
unfoldable pub checked_token : PinKeys → ℤ → Bytes → Result Token
checked_token keys proto tok =
    if not (length tok == 32) && (not (int_eq proto pin_protocol_one) || not (length tok == 16))
    then err (token_size (length tok) proto)
    else ok (record { keys = keys; raw = tok })

module _ (c : Cbor) where
  unfoldable pub read_power_cycle : List (ℕ × Bytes) → Result Bool
  read_power_cycle raw = elim (find cp_resp_power_cycle raw) [
    | none ↦ ok false
    | some m ↦ elim (c.to_bool m) [ got b ↦ ok b | bad cause ↦ err (bad_power_cycle cause) ]
  ]

  -- The reply of `PINRetries`.
  unfoldable pub parse_retries : Bytes → Result Retries
  parse_retries body = elim (c.to_map body) [
    | bad cause ↦ err (not_a_map Answer.retries cause)
    | got raw ↦ elim (member_field c.to_int raw cp_resp_pin_retries retry_count) [
      | err e ↦ err e
      | ok pin ↦ elim (read_power_cycle raw) [
        | err e ↦ err e
        | ok b ↦ ok (record { pin = pin; power_cycle = b })
      ]
    ]
  ]

  -- The reply of `KeyAgreement`.
  unfoldable pub parse_agreement : Bytes → Result Bytes
  parse_agreement body = elim (c.to_map body) [
    | bad cause ↦ err (not_a_map Answer.agreement cause)
    | got raw ↦ elim (find cp_resp_key_agreement raw) [
      | none ↦ err no_agreement_key
      | some m ↦ cose_to_ecdh c m
    ]
  ]

  unfoldable pub decrypt_token : Crypto → PinKeys → Bytes → Result Bytes
  decrypt_token y keys enc = elim (decrypt y keys enc) [
    | ok tok ↦ ok tok
    | err e ↦ err (will_not_decrypt e)
  ]

  -- The reply of `PINToken`.
  unfoldable pub parse_token : Crypto → PinKeys → ℤ → Bytes → Result Token
  parse_token y keys proto body = elim (c.to_map body) [
    | bad cause ↦ err (not_a_map Answer.token_reply cause)
    | got raw ↦ elim (member_field c.to_bytes raw cp_resp_token token) [
      | err e ↦ err e
      | ok enc ↦ elim (decrypt_token y keys enc) [
        | err e ↦ err e
        | ok tok ↦ checked_token keys proto tok
      ]
    ]
  ]

  module _ {S : Type 0} (t : Transport S) where
    unfoldable pub pin_retries : ℕ → Key → M S Retries
    pin_retries fuel k = do
      ctap2_ready t k
      body ← cbor_call t c fuel k cmd_client_pin (request pin_protocol_one sub_get_pin_retries end)
      from (parse_retries body)

    unfoldable pub key_agreement : ℕ → Key → ℤ → M S Bytes
    key_agreement fuel k proto = do
      ctap2_ready t k
      body ← cbor_call t c fuel k cmd_client_pin (request proto sub_get_key_agreement end)
      from (parse_agreement body)

    -- The exchange of `PINToken`, behind its guards.
    unfoldable pub exchange_pin : Crypto → Random S → ℕ → Key → Text → ℤ → ℕ → Text → M S Token
    exchange_pin y r fuel k pin proto perms rp_id = do
      pub_key ← key_agreement fuel k proto
      (own, keys) ← agree y r proto pub_key
      hash_enc ← pin_hash y r keys pin
      body ← cbor_call t c fuel k cmd_client_pin (token_request proto own hash_enc perms rp_id)
      from (parse_token y keys proto body)

    unfoldable pub pin_token : Crypto → Random S → ℕ → Key → Text → ℤ → ℕ → Text → M S Token
    pin_token y r fuel k pin proto perms rp_id = do
      ctap2_ready t k
      (if is_empty pin then raise empty_pin else exchange_pin y r fuel k pin proto perms rp_id)
