-- ===== src/Credentials/Wire.antt =====
-- Registrations and assertions down to the reports: a command that is answered comes to its value.
use fido.Base.{ℕ, ◌<◌, ◌^◌, ◌≡◌, ◌≢◌, ap, true, []}
use fido.Base.Bits.{Bytes}
use fido.Init.{has, cap_cbor}
use fido.Transport.{Transport, value}
use fido.Session.{Key}
use fido.Cbor.{Cbor}
use fido.PinProtocol.{Crypto}
use fido.Requests.{MakeCredentialRequest, GetAssertionRequest, make_request, get_request}
use fido.Requests.{cmd_make_credential, cmd_get_assertion}
use fido.Credentials.{Attestation, Assertion, make_credential, get_assertion}
use fido.Credentials.Registrations.{HoldsAttestation, make_credential-HoldsAttestation}
use fido.Credentials.Assertions.{HoldsAssertion, get_assertion-HoldsAssertion}
use fido.Ctap2.Answered.{IsAnswered, cbor_call-IsAnswered}

module _ (c : Cbor) {S : Type 0} (t : Transport S) (fuel : ℕ) (k : Key) (on : k.attached ≡ true)
    (channel : k.channel < 2 ^ 32) (y : Crypto) (ready : has k.caps cap_cbor ≡ true) where
  -- On an open key that speaks CTAP2, a registration with a client data hash, a relying party and a
  -- user handle, whose command is answered by a body that holds an attestation, returns it.
  pub make_credential-IsAnswered :
      (r : MakeCredentialRequest) (body : Bytes) (a : Attestation) (s : S)
      → r.client_data_hash ≢ []
      → r.rp.id ≢ []
      → r.user.id ≢ []
      → IsAnswered c t fuel k cmd_make_credential (make_request y r) body s
      → HoldsAttestation c body a
      → (make_credential c t y fuel k r s).0 ≡ value a
  make_credential-IsAnswered r body a s g1 g2 g3 answered holds =
      let found =
        cbor_call-IsAnswered c t fuel k on channel cmd_make_credential (make_request y r) body s
          answered in
      ap (λ x. x.0)
        ((make_credential-HoldsAttestation c t y fuel k r s _ a).1
          (ready, g1, g2, g3, (body, found, holds)))

  -- On an open key that speaks CTAP2, an assertion with a relying party and a client data hash, whose
  -- command is answered by a body that holds an assertion, returns it.
  pub get_assertion-IsAnswered :
      (r : GetAssertionRequest) (body : Bytes) (a : Assertion) (s : S)
      → r.rp_id ≢ []
      → r.client_data_hash ≢ []
      → IsAnswered c t fuel k cmd_get_assertion (get_request y r) body s
      → HoldsAssertion c body a
      → (get_assertion c t y fuel k r s).0 ≡ value a
  get_assertion-IsAnswered r body a s g1 g2 answered holds =
      let found =
        cbor_call-IsAnswered c t fuel k on channel cmd_get_assertion (get_request y r) body s
          answered in
      ap (λ x. x.0)
        ((get_assertion-HoldsAssertion c t y fuel k r s _ a).1
          (ready, g1, g2, (body, found, holds)))
