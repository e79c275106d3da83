-- ===== src/Credentials.antt =====
-- credential.go: the replies to a registration and to an assertion, `MakeCredential` and
-- `GetAssertion`.
pub mod Promise
pub mod Registrations
pub mod Assertions
pub mod Wire
pub mod Login
use fido.Base.{ℕ, if◌then◌else◌, Bool, not, Option, none, some, List, [], ◌∷◌, is_empty}
use fido.Base.Bits.{Bytes}
use fido.Errors.{Text, Error, Result, ok, err, ◌>>=◌, ◌>>◌, Answer, Member, attestation_format}
use fido.Errors.{Ceremony, registering, asserting}
use fido.Errors.{authenticator_data, signature, not_a_map, no_authenticator_data, no_credential}
use fido.Errors.{no_signature, bad_credential, bad_user, bad_count}
use fido.Init.{has}
use fido.Transport.{Transport, M, from}
use fido.Transport
use fido.Session.{Key}
use fido.Cbor.{Cbor, Coded, got, bad, find}
use fido.Ctap2.{member_field, ctap2_ready, cbor_call}
use fido.AuthData.{AuthData, flag_at, parse_auth_data}
use fido.PinProtocol.{Crypto}
use fido.Requests.{Credential, MakeCredentialRequest, GetAssertionRequest, check_make, check_get}
use fido.Requests.{make_request, get_request, cmd_make_credential, cmd_get_assertion}

pub record Attestation : Type 0 where
  pub format : Text
  pub auth_data : Bytes
  pub parsed : AuthData
  pub statement : Bytes

pub record Assertion : Type 0 where
  pub credential : Credential
  pub auth_data : Bytes
  pub parsed : AuthData
  pub signature : Bytes
  pub user_id : Bytes
  pub available : ℕ

-- The keys of the members of the replies.
abbrev pub mc_resp_fmt : ℕ
mc_resp_fmt = 0x01

abbrev pub mc_resp_auth_data : ℕ
mc_resp_auth_data = 0x02

abbrev pub mc_resp_att_stmt : ℕ
mc_resp_att_stmt = 0x03

abbrev pub ga_resp_credential : ℕ
ga_resp_credential = 0x01

abbrev pub ga_resp_auth_data : ℕ
ga_resp_auth_data = 0x02

abbrev pub ga_resp_signature : ℕ
ga_resp_signature = 0x03

abbrev pub ga_resp_user : ℕ
ga_resp_user = 0x04

abbrev pub ga_resp_available : ℕ
ga_resp_available = 0x05

-- A raw member that need not be there.
unfoldable pub raw_or_nil : Option Bytes → Bytes
raw_or_nil none = []
raw_or_nil (some r) = r

-- A member that need not be there, decoded if it is.
unfoldable pub decoded_or :
    {A : Type 0} → (Bytes → Coded A) → A → (Text → Error) → Option Bytes → Result A
decoded_or decode absent fault none = ok absent
decoded_or decode absent fault (some m) = elim (decode m) [
  | got a ↦ ok a
  | bad cause ↦ err (fault cause)
]

-- `if !test { return err }`
abbrev pub require : Bool → Error → Result (Unit {0})
require b e = if b then ok tt else err e

module _ (c : Cbor) where
  -- Both replies have it as their second member; the error says which of them lacks it.
  unfoldable pub read_auth_data : Ceremony → List (ℕ × Bytes) → Result (Bytes × AuthData)
  read_auth_data ceremony raw = do
    content ← member_field c.to_bytes raw mc_resp_auth_data authenticator_data
    require (not (is_empty content)) (no_authenticator_data ceremony)
    parsed ← parse_auth_data c content
    ok (content, parsed)

  unfoldable pub read_attestation : List (ℕ × Bytes) → Result Attestation
  read_attestation raw = do
    format ← member_field c.to_text raw mc_resp_fmt attestation_format
    (content, parsed) ← read_auth_data registering raw
    require (has parsed.flags flag_at) no_credential
    ok (record {
      format = format;
      auth_data = content;
      parsed = parsed;
      statement = raw_or_nil (find mc_resp_att_stmt raw);
    })

  unfoldable pub parse_attestation : Bytes → Result Attestation
  parse_attestation body = elim (c.to_map body) [
    | got raw ↦ read_attestation raw
    | bad cause ↦ err (not_a_map Answer.registration cause)
  ]

  -- In an assertion the authenticator data is member 2 as well.
  unfoldable pub read_assertion : List (ℕ × Bytes) → Result Assertion
  read_assertion raw = do
    (content, parsed) ← read_auth_data asserting raw
    sig ← member_field c.to_bytes raw ga_resp_signature signature
    require (not (is_empty sig)) no_signature
    (kind, id) ← decoded_or c.to_credential ([], []) bad_credential (find ga_resp_credential raw)
    user ← decoded_or c.to_user [] bad_user (find ga_resp_user raw)
    available ← decoded_or c.to_uint 0 bad_count (find ga_resp_available raw)
    ok (record {
      credential = record { kind = kind; id = id; transports = [] };
      auth_data = content;
      parsed = parsed;
      signature = sig;
      user_id = user;
      available = available;
    })

  unfoldable pub parse_assertion : Bytes → Result Assertion
  parse_assertion body = elim (c.to_map body) [
    | got raw ↦ read_assertion raw
    | bad cause ↦ err (not_a_map Answer.assertion cause)
  ]

  module _ {S : Type 0} (t : Transport S) (y : Crypto) where
    unfoldable pub make_credential : ℕ → Key → MakeCredentialRequest → M S Attestation
    make_credential fuel k r = Transport.◌>>◌ (ctap2_ready t k) (
        Transport.◌>>◌ (from (check_make r)) (
          Transport.◌>>=◌ (cbor_call t c fuel k cmd_make_credential (make_request y r))
            (λ body. from (parse_attestation body))))

    unfoldable pub get_assertion : ℕ → Key → GetAssertionRequest → M S Assertion
    get_assertion fuel k r = Transport.◌>>◌ (ctap2_ready t k) (
        Transport.◌>>◌ (from (check_get r)) (
          Transport.◌>>=◌ (cbor_call t c fuel k cmd_get_assertion (get_request y r))
            (λ body. from (parse_assertion body))))
