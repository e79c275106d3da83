-- ===== src/Examples/Login.antt =====
-- A PIN, a registration and an assertion with the authenticator that counts.
use fido.Base.{◌≡◌, ◌≢◌, refl, [], ◌∷◌, arith, ℕ, ◌+◌, drop, take, replicate}
use fido.Framing.{cmd_cbor, packets, continuations}
use fido.Errors.{ok}
use fido.Format.{text}
use fido.Transport.{value}
use fido.Cbor.{Value, find}
use fido.Session.{open_key}
use fido.Session.Peer.{Peer, IsCarried, peer}
use fido.Session.Ready.{opened}
use fido.Ctap2.{member_field}
use fido.Ctap2.Service.{Grants}
use fido.PinProtocol.{Crypto, encrypt, pin_protocol_one}
use fido.ClientPin.{parse_agreement, pin_token, cmd_client_pin}
use fido.ClientPin.Queries.{HoldsOffer, parse_agreement-HoldsOffer}
use fido.ClientPin.Granted.{Issues}
use fido.Requests.{MakeCredentialRequest, GetAssertionRequest, make_request, get_request}
use fido.Requests.{cmd_make_credential, cmd_get_assertion}
use fido.Credentials.Login.{IsRegistration, IsChallenge, Serves, BothReturned, pin_login}
use fido.Examples.Script.{script, fixed}
use fido.Examples.Sample.{sample}
use fido.Examples.Credentials.{shared_keys, fixed-FillsIv}
use fido.Examples.Commands.{registration, attestation, challenge, assertion, token_made}
use fido.Examples.Replies.{base}
use fido.Examples.Tokens.{based, based-IsCipher, own_key, enc_token, sealed_token, exchange_run}
use fido.Examples.Tokens.{token_made-IsByte, token_made-TokenSize}
use fido.Examples.Wire.{ready, attestation_held, assertion_held}
use fido.Examples.Peer.{counter, idle_peer, same_nonce, greeting, idle_peer-IsIdle, counter-Greets}

counter-IsCarried : (cmd n : ℕ) → IsCarried counter 2 265 (cmd_cbor, cmd ∷ 0xA0 ∷ []) n
unfolding packets continuations drop
counter-IsCarried cmd n = record {
  cmd_fits = omega arith;
  content_fits = omega arith;
  sayable = record {
    cmd_fits = omega arith;
    whole = λ e. omega arith;
    content_fits = omega arith;
    pauses_fit = (omega arith, tt);
  };
  enough = omega arith;
}

registers :
    (n : ℕ) (q : MakeCredentialRequest) (y : Crypto)
    → Grants counter 2 265 sample cmd_make_credential (make_request y q) (1 ∷ []) n
registers n q y = record {
  encoded = 0xA0 ∷ [];
  encoding = refl;
  replies = record { carried = counter-IsCarried cmd_make_credential n; with_cbor = refl };
  granted = refl;
}

logs_in :
    (n : ℕ) (q : GetAssertionRequest) (y : Crypto)
    → Grants counter 2 265 sample cmd_get_assertion (get_request y q) (2 ∷ []) n
logs_in n q y = record {
  encoded = 0xA0 ∷ [];
  encoding = refl;
  replies = record { carried = counter-IsCarried cmd_get_assertion n; with_cbor = refl };
  granted = refl;
}

serves :
    (n : ℕ) (q : MakeCredentialRequest) (p : GetAssertionRequest) (y : Crypto)
    → Serves counter 2 sample y q p attestation assertion 265 n
serves n q p y = record {
  body = 1 ∷ [];
  body' = 2 ∷ [];
  registers = registers n q y;
  attests = attestation_held;
  logs_in = logs_in _ p y;
  asserts = assertion_held;
}

abbrev with_token : MakeCredentialRequest
with_token = record registration { token = token_made }

abbrev challenged : GetAssertionRequest
challenged = record challenge { token = token_made }

with_token-IsRegistration : IsRegistration with_token
unfolding replicate
with_token-IsRegistration = record {
  hashed = λ e. ground arith;
  for_party = λ e. ground arith;
  for_user = λ e. ground arith;
}

challenged-IsChallenge : IsChallenge challenged
unfolding replicate
challenged-IsChallenge = record { for_party = λ e. ground arith; hashed = λ e. ground arith }

offered_base : parse_agreement sample (3 ∷ []) ≡ ok base
unfolding parse_agreement find fido.Agreement.cose_to_ecdh fido.Agreement.read_agreement_key
    fido.Cose.read_coordinate fido.Cbor.find_label fido.Agreement.point_of fido.Agreement.fill_bytes
    fido.Agreement.is_point fido.Cose.is_on_curve fido.Cose.number take drop
offered_base = refl

base-HoldsOffer : HoldsOffer sample (3 ∷ []) base
base-HoldsOffer = (parse_agreement-HoldsOffer sample (3 ∷ []) base).0 offered_base

hides :
    (s : Peer ℕ)
    → encrypt based same_nonce shared_keys (take 16 (based.sha256 (text "1234"))) s
      ≡ (value (replicate 16 4), s)
unfolding encrypt fido.PinProtocol.is_whole take replicate fido.PinProtocol.is_aes_key
    fido.PinProtocol.make_iv fido.PinProtocol.encrypt_with fido.PinProtocol.cbc_encrypt
    fido.PinProtocol.xor_bytes fido.Base.drop
hides s = refl

asks : (n : ℕ) (v : Value) → Grants counter 2 265 sample cmd_client_pin v ((n + 2) ∷ []) n
asks n v = record {
  encoded = 0xA0 ∷ [];
  encoding = refl;
  replies = record { carried = counter-IsCarried cmd_client_pin n; with_cbor = refl };
  granted = refl;
}

issues :
    Issues counter same_nonce fixed 2
      (opened greeting)
      sample
      based
      0
      []
      pin_protocol_one
      (text "1234")
      token_made.raw
      1
issues = record {
  secret = 7 ∷ [];
  point = base;
  own = own_key;
  keys = shared_keys;
  hidden = replicate 16 4;
  offer = 3 ∷ [];
  body = 4 ∷ [];
  members = (2, enc_token) ∷ [];
  reply = enc_token;
  before = script [];
  behind = script [];
  offering = asks 1 _;
  offered = base-HoldsOffer;
  making = λ s. refl;
  agreeing = exchange_run;
  hiding = hides;
  issuing = asks 2 _;
  decoded = refl;
  found = unfold member_field find in refl;
  sealing = sealed_token;
}

pin_login_example :
    (s₂ : Peer ℕ) × (s₃ : Peer ℕ) × (open_key (peer counter) same_nonce 2 idle_peer
      ≡ (value (opened greeting), s₂))
    × (pin_token sample
          (peer counter)
          based
          same_nonce
          2
          (opened greeting)
          (text "1234")
          pin_protocol_one
          0
          []
          s₂
        ≡ (value token_made, s₃))
    × BothReturned counter 2 sample based with_token challenged attestation assertion
        (opened greeting)
        s₃
unfolding issues
pin_login_example =
    pin_login counter 2 sample based with_token challenged attestation assertion same_nonce fixed
      greeting (text "1234") [] pin_protocol_one 0 token_made.raw idle_peer idle_peer based-IsCipher
      fixed-FillsIv token_made-IsByte token_made-TokenSize (λ e. ground arith) refl idle_peer-IsIdle
      counter-Greets (omega arith) ready issues refl refl with_token-IsRegistration
      challenged-IsChallenge (serves 3 with_token challenged based)
