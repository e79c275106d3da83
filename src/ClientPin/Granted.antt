-- ===== src/ClientPin/Granted.antt =====
-- `PINToken` with an authenticator that speaks the same protocol, down to the reports.
use fido.Base.{ℕ, ◌<◌, ◌^◌, ◌≡◌, ◌≢◌, true, List, [], take, length, All}
use fido.Base.Bits.{Bytes, IsByte}
use fido.Base.Int.{ℤ}
use fido.Errors.{Text, ok, token}
use fido.Framing.{Message}
use fido.Init.{has, cap_cbor}
use fido.Cbor.{Cbor, Value, got, end}
use fido.Transport.{Random, value, filled}
use fido.Session.{Key}
use fido.Session.Peer.{Answer, Peer, IsIdle, peer}
use fido.Ctap2.{member_field}
use fido.Ctap2.Service.{Grants, after, cbor_call-Grants_at}
use fido.PinProtocol.{Crypto, PinKeys, encrypt}
use fido.PinProtocol.Chaining.{IsCipher}
use fido.PinProtocol.RoundTrip.{FillsIv}
use fido.Agreement.{exchange}
use fido.ClientPin.{pin_token, request, token_request, cmd_client_pin, sub_get_key_agreement}
use fido.ClientPin.{cp_resp_token}
use fido.ClientPin.Tokens.{TokenSize}
use fido.ClientPin.Queries.{HoldsOffer, key_agreement-HoldsOffer}
use fido.ClientPin.Issued.{pin_token_issued}

module _ {H W : Type 0} (handle : Message → H → Answer × H) (r : Random (Peer H)) (ra : Random W)
    (fuel : ℕ) (k : Key) (c : Cbor) (y : Crypto) (perms : ℕ) (rp_id : Text) (proto : ℤ) where
  -- The authenticator issues a token for a PIN. It grants a key agreement whose reply holds a point;
  -- the platform makes the private key `secret`, agrees, and hides the PIN's hash; and the
  -- authenticator grants the request for a token, with the token encrypted under the same keys.
  pub record Issues (pin : Text) (issued : Bytes) (h : H) : Type 0 where
    pub secret : Bytes
    pub point : Bytes
    pub own : Value
    pub keys : PinKeys
    pub hidden : Bytes
    pub offer : Bytes
    pub body : Bytes
    pub members : List (ℕ × Bytes)
    pub reply : Bytes
    pub before : W
    pub behind : W
    pub offering :
        Grants handle fuel k.channel c cmd_client_pin
          (request proto sub_get_key_agreement end)
          offer
          h
    pub offered : HoldsOffer c offer point
    pub making : (s : Peer H) → r.private_key s ≡ (filled secret, s)
    pub agreeing : exchange y proto point secret ≡ ok (own, keys)
    pub hiding : (s : Peer H) → encrypt y r keys (take 16 (y.sha256 pin)) s ≡ (value hidden, s)
    pub issuing :
        Grants handle fuel k.channel c cmd_client_pin
          (token_request proto own hidden perms rp_id)
          body
          (after handle fuel k.channel c offering)
    pub decoded : c.to_map body ≡ got members
    pub found : member_field c.to_bytes members cp_resp_token token ≡ ok reply
    pub sealing : encrypt y ra keys issued before ≡ (value reply, behind)

  pub pin_token-Issues :
      (pin : Text) (issued : Bytes) (s : Peer H) (h : H)
      → k.attached ≡ true
      → k.channel < 2 ^ 32
      → has k.caps cap_cbor ≡ true
      → IsCipher y
      → FillsIv ra
      → All IsByte issued
      → TokenSize proto (length issued)
      → pin ≢ []
      → IsIdle s
      → s.memory ≡ h
      → (i : Issues pin issued h)
      → (s' : Peer H) × IsIdle s'
        × (s'.memory ≡ after handle fuel k.channel c i.issuing)
        × (pin_token c (peer handle) y r fuel k pin proto perms rp_id s
            ≡ (value (record { keys = i.keys; raw = issued }), s'))
  pin_token-Issues pin issued s h on hc caps cipher fills bytes size ne idle at i =
      let (s₁, idle₁, at₁, answered₁) =
        cbor_call-Grants_at handle fuel k on hc c cmd_client_pin
          (request proto sub_get_key_agreement end) i.offer s h idle at i.offering in
      let (s₂, idle₂, at₂, answered₂) =
        cbor_call-Grants_at handle fuel k on hc c cmd_client_pin
          (token_request proto i.own i.hidden perms rp_id) i.body s₁ _ idle₁ at₁ i.issuing in
      let offered =
        (key_agreement-HoldsOffer c (peer handle) fuel k proto s s₁ i.point).1
          (caps, (i.offer, answered₁, i.offered)) in
      (
        s₂,
        idle₂,
        at₂,
        pin_token_issued c (peer handle) y r ra fuel perms k rp_id proto i.secret i.point i.hidden
            i.body i.reply issued pin i.own i.keys i.members s s₁ s₁ s₁ s₂ i.before i.behind cipher
            fills bytes size caps ne offered (i.making s₁) i.agreeing (i.hiding s₁) answered₂
            i.decoded i.found i.sealing,
      )
