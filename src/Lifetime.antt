-- ===== src/Lifetime.antt =====
-- The exported methods of `Key`, from key.go, ctap2.go, clientpin.go and credential.go, as the calls
-- that a program makes of a key in some order. After `Close` the key has no transport.
pub mod Touch
pub mod Tokens
pub mod Closing
use fido.Base.{ℕ, List, [], ◌∷◌}
use fido.Base.Bits.{Bytes}
use fido.Base.Int.{ℤ}
use fido.Errors.{Text}
use fido.Transport.{Transport, Random}
use fido.Session.{Key, name, key_text, ping, wink, close}
use fido.Cbor.{Cbor}
use fido.Ctap2.{cbor}
use fido.Info.{get_info}
use fido.PinProtocol.{Crypto}
use fido.ClientPin.{Permissions, pin_retries, key_agreement, pin_token}
use fido.Requests.{MakeCredentialRequest, GetAssertionRequest}
use fido.Credentials.{make_credential, get_assertion}

-- A call with its arguments, and the fuel of the loop behind it.
pub data Call : Type 0 where
  call_name : Call
  call_text : Call
  call_ping : (fuel : ℕ) (content : Bytes) → Call
  call_wink : (fuel : ℕ) → Call
  call_cbor : (fuel cmd : ℕ) (params : Bytes) → Call
  call_info : (fuel : ℕ) → Call
  call_retries : (fuel : ℕ) → Call
  call_agreement : (fuel : ℕ) (proto : ℤ) → Call
  call_token : (fuel : ℕ) (pin : Text) (proto : ℤ) (permissions : Permissions) (rp_id : Text) → Call
  call_register : (fuel : ℕ) → MakeCredentialRequest → Call
  call_assert : (fuel : ℕ) → GetAssertionRequest → Call
  call_close : Call

module _ {S : Type 0} (t : Transport S) (c : Cbor) (y : Crypto) (r : Random S) where
  -- What a call leaves of the key and of the transport's state, whatever it returns.
  abbrev pub after : Call → Key → S → Key × S
  after call_name k s = (k, (name t k s).1)
  after call_text k s = (k, (key_text t k s).1)
  after (call_ping fuel content) k s = (k, (ping t fuel k content s).1)
  after (call_wink fuel) k s = (k, (wink t fuel k s).1)
  after (call_cbor fuel cmd params) k s = (k, (cbor t fuel k cmd params s).1)
  after (call_info fuel) k s = (k, (get_info c t fuel k s).1)
  after (call_retries fuel) k s = (k, (pin_retries c t fuel k s).1)
  after (call_agreement fuel proto) k s = (k, (key_agreement c t fuel k proto s).1)
  after (call_token fuel pin proto permissions rp_id) k s =
      (k, (pin_token c t y r fuel k pin proto permissions rp_id s).1)
  after (call_register fuel request) k s = (k, (make_credential c t y fuel k request s).1)
  after (call_assert fuel request) k s = (k, (get_assertion c t y fuel k request s).1)
  after call_close k s = let (_, k', s') = close t k s in (k', s')

  -- The calls of a program, one after the other.
  abbrev pub after_all : List Call → Key → S → Key × S
  after_all [] k s = (k, s)
  after_all (call ∷ calls) k s = let (k', s') = after call k s in after_all calls k' s'
