-- ===== src/Credentials/Login.antt =====
-- `MakeCredential` and `GetAssertion` with an authenticator that speaks the same protocol, behind
-- `Open` alone, and behind `Open` and `PINToken`.
use fido.Base.{ℕ, ◌<◌, ◌^◌, ◌≡◌, ◌≢◌, refl, true, length, All, []}
use fido.Base.Bits.{Bytes, IsByte}
use fido.Base.Int.{ℤ}
use fido.Errors.{Text}
use fido.Framing.{Message}
use fido.Init.{InitReply, has, cap_cbor}
use fido.Transport.{Random, value, filled}
use fido.Session.{Key, open_key}
use fido.Session.Ready.{opened}
use fido.Session.Peer.{Answer, Peer, IsIdle, peer}
use fido.Session.Dialogue.{Greets, greeted, open_key-Greets}
use fido.Cbor.{Cbor}
use fido.Ctap2.Service.{Grants, after, cbor_call-Grants_at}
use fido.PinProtocol.{Crypto}
use fido.PinProtocol.Chaining.{IsCipher}
use fido.PinProtocol.RoundTrip.{FillsIv}
use fido.ClientPin.{pin_token}
use fido.ClientPin.Tokens.{TokenSize}
use fido.ClientPin.Granted.{Issues, pin_token-Issues}
use fido.Requests.{MakeCredentialRequest, GetAssertionRequest, make_request, get_request}
use fido.Requests.{cmd_make_credential, cmd_get_assertion}
use fido.Credentials.{Attestation, Assertion, make_credential, get_assertion}
use fido.Credentials.Registrations.{HoldsAttestation, make_credential-HoldsAttestation}
use fido.Credentials.Assertions.{HoldsAssertion, get_assertion-HoldsAssertion}

-- A registration that is not refused before it is sent.
pub record IsRegistration (q : MakeCredentialRequest) : Type 0 where
  pub hashed : q.client_data_hash ≢ []
  pub for_party : q.rp.id ≢ []
  pub for_user : q.user.id ≢ []

-- An assertion that is not refused before it is sent.
pub record IsChallenge (q : GetAssertionRequest) : Type 0 where
  pub for_party : q.rp_id ≢ []
  pub hashed : q.client_data_hash ≢ []

module _ {H : Type 0} (handle : Message → H → Answer × H) (fuel : ℕ) (c : Cbor) (y : Crypto)
    (registration : MakeCredentialRequest) (challenge : GetAssertionRequest)
    (attestation : Attestation) (assertion : Assertion) where
  -- On a channel, by what it remembers, the authenticator grants the registration by a body that holds
  -- the attestation, and then the assertion by a body that holds the other.
  pub record Serves (ch : ℕ) (h : H) : Type 0 where
    pub body : Bytes
    pub body' : Bytes
    pub registers : Grants handle fuel ch c cmd_make_credential (make_request y registration) body h
    pub attests : HoldsAttestation c body attestation
    pub logs_in :
        Grants handle fuel ch c cmd_get_assertion
          (get_request y challenge)
          body'
          (after handle fuel ch c registers)
    pub asserts : HoldsAssertion c body' assertion

  -- From a state, one after the other on a key, they come to the attestation and the assertion.
  abbrev pub BothReturned : Key → Peer H → Type 0
  BothReturned k s =
      (s' : Peer H) × (s'' : Peer H) × (make_credential c (peer handle) y fuel k registration s
        ≡ (value attestation, s'))
      × (get_assertion c (peer handle) y fuel k challenge s' ≡ (value assertion, s''))

  Serves-BothReturned :
      (k : Key) (s : Peer H) (h : H)
      → k.attached ≡ true
      → k.channel < 2 ^ 32
      → has k.caps cap_cbor ≡ true
      → IsRegistration registration
      → IsChallenge challenge
      → IsIdle s
      → s.memory ≡ h
      → Serves k.channel h
      → BothReturned k s
  Serves-BothReturned k s h on hc caps q p idle at v =
      let (s', idle', at', registers) =
        cbor_call-Grants_at handle fuel k on hc c cmd_make_credential (make_request y registration)
          v.body s h idle at v.registers in
      let (s'', _, _, asserts) =
        cbor_call-Grants_at handle fuel k on hc c cmd_get_assertion (get_request y challenge)
          v.body' s' _ idle' at' v.logs_in in
      (
        s',
        s'',
        (make_credential-HoldsAttestation c (peer handle) y fuel k registration s s' attestation).1
            (caps, q.hashed, q.for_party, q.for_user, (v.body, registers, v.attests)),
        (get_assertion-HoldsAssertion c (peer handle) y fuel k challenge s' s'' assertion).1
            (caps, p.for_party, p.hashed, (v.body', asserts, v.asserts)),
      )

  module _ (r : Random (Peer H)) where
    -- Without a PIN: `Open` yields a key, and the registration and the assertion on it return.
    pub login :
        (init : InitReply) (s s₁ : Peer H)
        → r.nonce s ≡ (filled init.nonce, s₁)
        → IsIdle s₁
        → Greets handle fuel init s₁.memory
        → init.channel < 2 ^ 32
        → has init.caps cap_cbor ≡ true
        → IsRegistration registration
        → IsChallenge challenge
        → Serves init.channel (greeted handle fuel init.nonce s₁.memory)
        → (s₂ : Peer H) × (open_key (peer handle) r fuel s ≡ (value (opened init), s₂))
          × BothReturned (opened init) s₂
    login init s s₁ made idle greets hc caps q p v =
        let (s₂, idle₂, at₂, opens) = open_key-Greets handle r fuel init s s₁ made idle greets in
        (s₂, opens, Serves-BothReturned (opened init) s₂ _ refl hc caps q p idle₂ at₂ v)

    -- With a PIN that is not empty. An authenticator that is between two exchanges on every channel
    -- answers INIT with a reply that repeats the nonce that was made, offers a channel of 32 bits
    -- and speaks CTAP2. Then, by what it remembers each time and in messages that the framing can
    -- carry, with fuel for their reports, it issues a token of the right size for the PIN,
    -- encrypted under the keys of the exchange, and grants a registration with a client data hash,
    -- a relying party and a user handle, and an assertion with a relying party and a client data
    -- hash, which both hold that token. Then `Open` yields a key, `PINToken` on it the token,
    -- `MakeCredential` the attestation, and `GetAssertion` the assertion. The block cipher is
    -- assumed to be reversible, initialisation vectors to have sixteen bytes, and the platform's
    -- randomness not to touch the transport.
    pub pin_login :
        {W : Type 0} (ra : Random W) (init : InitReply) (pin rp_id : Text) (proto : ℤ) (perms : ℕ)
        (issued : Bytes) (s s₁ : Peer H)
        → IsCipher y
        → FillsIv ra
        → All IsByte issued
        → TokenSize proto (length issued)
        → pin ≢ []
        → r.nonce s ≡ (filled init.nonce, s₁)
        → IsIdle s₁
        → Greets handle fuel init s₁.memory
        → init.channel < 2 ^ 32
        → has init.caps cap_cbor ≡ true
        → (i : Issues handle r ra fuel
            (opened init)
            c
            y
            perms
            rp_id
            proto
            pin
            issued
            (greeted handle fuel init.nonce s₁.memory))
        → registration.token ≡ record { keys = i.keys; raw = issued }
        → challenge.token ≡ record { keys = i.keys; raw = issued }
        → IsRegistration registration
        → IsChallenge challenge
        → Serves init.channel (after handle fuel init.channel c i.issuing)
        → (s₂ : Peer H) × (s₃ : Peer H) × (open_key (peer handle) r fuel s
            ≡ (value (opened init), s₂))
          × (pin_token c (peer handle) y r fuel (opened init) pin proto perms rp_id s₂
              ≡ (value registration.token, s₃))
          × BothReturned (opened init) s₃
    pin_login ra init pin rp_id proto perms issued s s₁ cipher fills bytes size ne made idle greets
          hc caps i held held' q p v =
        let (s₂, idle₂, at₂, opens) = open_key-Greets handle r fuel init s s₁ made idle greets in
        let (s₃, idle₃, at₃, issues) =
          pin_token-Issues handle r ra fuel (opened init) c y perms rp_id proto pin issued s₂ _ refl
            hc caps cipher fills bytes size ne idle₂ at₂ i in
        (
          s₂,
          s₃,
          opens,
          rw held issues,
          Serves-BothReturned (opened init) s₃ _ refl hc caps q p idle₃ at₃ v,
        )
