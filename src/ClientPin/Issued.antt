-- ===== src/ClientPin/Issued.antt =====
-- `PINToken` comes to the token that an authenticator issues.
use fido.Base.{ℕ, ◌≡◌, ◌≢◌, ap, ◌∙◌, arith, true, inl, inr}
use fido.Base.{List, [], take, length, All, is_empty-ne}
use fido.Base.Bits.{Bytes, IsByte}
use fido.Base.Int.{ℤ}
use fido.Errors.{Text, ok, token}
use fido.Init.{has, cap_cbor}
use fido.Cbor.{Cbor, Value, got}
use fido.Ctap2.{member_field, ctap2_ready, cbor_call}
use fido.Transport.{Transport, Random, value, filled, from}
use fido.Transport.Bind.{bind-value}
use fido.Session.{Key}
use fido.PinProtocol.{Crypto, PinKeys, pin_hash, encrypt, decrypt}
use fido.PinProtocol.Chaining.{IsCipher}
use fido.PinProtocol.RoundTrip.{FillsIv, decrypt-encrypt}
use fido.Agreement.{agree, exchange}
use fido.ClientPin.{checked_token, decrypt_token, parse_token, key_agreement, pin_token}
use fido.ClientPin.{cp_resp_token, token_request, cmd_client_pin}
use fido.ClientPin.Tokens.{TokenSize}
use fido.ClientPin.Agreed.{pin_hash-encrypt}
use fido.ClientPin.Steps.{exchange_pin_lem, hash_step, offer_step, request_step, reply_step}

checked_token-TokenSize :
    (keys : PinKeys) (proto : ℤ) (tok : Bytes)
    → TokenSize proto (length tok)
    → checked_token keys proto tok ≡ ok (record { keys = keys; raw = tok })
unfolding checked_token
checked_token-TokenSize keys proto tok (inl e) = ground arith
checked_token-TokenSize keys proto tok (inr (e, one)) = rw one (ground arith)

module _ (c : Cbor) (y : Crypto) where
  parse_token-found :
      (keys : PinKeys) (proto : ℤ) (body reply issued : Bytes) (raw : List (ℕ × Bytes))
      → c.to_map body ≡ got raw
      → member_field c.to_bytes raw cp_resp_token token ≡ ok reply
      → decrypt y keys reply ≡ ok issued
      → TokenSize proto (length issued)
      → parse_token c y keys proto body ≡ ok (record { keys = keys; raw = issued })
  unfolding parse_token decrypt_token
  parse_token-found keys proto body reply issued raw e found opened size =
      rw (e, parse_token, found, opened, decrypt_token)
        (checked_token-TokenSize keys proto issued size)

module _ (y : Crypto) where
  agree-filled :
      {S : Type 0} (r : Random S) (proto : ℤ) (point a : Bytes) (x : Value × PinKeys) (s s' : S)
      → r.private_key s ≡ (filled a, s')
      → exchange y proto point a ≡ ok x
      → agree y r proto point s ≡ (value x, s')
  unfolding agree
  agree-filled r proto point a x s s' made exchanged =
      rw (made, agree, exchanged) (ap (λ z. (value x, z.1)) made)

module _ (c : Cbor) {S W : Type 0} (t : Transport S) (y : Crypto) (r : Random S) (ra : Random W)
    (fuel perms : ℕ) (k : Key) (rp_id : Text) (proto : ℤ) where
  -- With a PIN and a key that speaks CTAP2: if the authenticator offers a point, the platform makes a
  -- private key, agrees and hides the PIN's hash, and the authenticator replies with a token of the
  -- right size, encrypted under the same keys, then `PINToken` returns that token. The block cipher is
  -- assumed to be reversible, and the authenticator's initialisation vectors to have sixteen bytes.
  pub pin_token_issued :
      (a point enc body reply issued : Bytes) (pin : Text) (own : Value) (keys : PinKeys)
      (raw : List (ℕ × Bytes)) (s s₁ s₂ s₃ s₄ : S) (w w' : W)
      → IsCipher y
      → FillsIv ra
      → All IsByte issued
      → TokenSize proto (length issued)
      → has k.caps cap_cbor ≡ true
      → pin ≢ []
      → key_agreement c t fuel k proto s ≡ (value point, s₁)
      → r.private_key s₁ ≡ (filled a, s₂)
      → exchange y proto point a ≡ ok (own, keys)
      → encrypt y r keys (take 16 (y.sha256 pin)) s₂ ≡ (value enc, s₃)
      → cbor_call t c fuel k cmd_client_pin (token_request proto own enc perms rp_id) s₃
        ≡ (value body, s₄)
      → c.to_map body ≡ got raw
      → member_field c.to_bytes raw cp_resp_token token ≡ ok reply
      → encrypt y ra keys issued w ≡ (value reply, w')
      → pin_token c t y r fuel k pin proto perms rp_id s
        ≡ (value (record { keys = keys; raw = issued }), s₄)
  unfolding pin_token ctap2_ready
  pin_token_issued a point enc body reply issued pin own keys raw s s₁ s₂ s₃ s₄ w w' cipher fills hi
        size ready ne offered made exchanged hidden answered decoded found sealed =
      let hash = λ (ks : PinKeys). pin_hash y r ks pin in
      let (opened, _) = decrypt-encrypt y cipher keys ra issued reply w w' fills hi sealed in
      let read = parse_token-found c y keys proto body reply issued raw decoded found opened size in
      rw (ready, is_empty-ne pin ne)
        (ap (λ f. f s) (exchange_pin_lem c t y r fuel perms k rp_id proto pin)
          ∙ bind-value (key_agreement c t fuel k proto)
              (offer_step c t y r fuel perms k rp_id proto hash) offered
          ∙ bind-value (agree y r proto point) (hash_step c t y r fuel perms k rp_id proto hash)
              (agree-filled y r proto point a (own, keys) s₁ s₂ made exchanged)
          ∙ bind-value (hash keys) (request_step c t y r fuel perms k rp_id proto (own, keys))
              (ap (λ f. f s₂) (pin_hash-encrypt y r keys pin ne) ∙ hidden)
          ∙ bind-value
              (cbor_call t c fuel k cmd_client_pin (token_request proto own enc perms rp_id))
              (reply_step c t y r fuel perms k rp_id proto keys) answered
          ∙ ap (λ x. from x s₄) read)
