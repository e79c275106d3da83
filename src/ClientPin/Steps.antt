-- ===== src/ClientPin/Steps.antt =====
-- The steps of `PINToken`, and those that it has taken when it returns a token.
use fido.Base.{ℕ, ◌≡◌, ◌≢◌, refl, sym, ap, ◌∙◌, arith}
use fido.Base.{[], ◌∷◌}
use fido.Base.Bits.{Bytes}
use fido.Base.Int.{ℤ}
use fido.Errors.{Text, ok, empty_pin}
use fido.Cbor.{Cbor, Value}
use fido.Ctap2.{ctap2_ready, cbor_call}
use fido.Transport.{Transport, Random, M, value, ◌>>=◌, raise, from}
use fido.Transport.Bind.{bind-eq-value, from-value}
use fido.Session.{Key}
use fido.PinProtocol.{Crypto, PinKeys, pin_hash}
use fido.Agreement.{agree}
use fido.ClientPin.{Token, parse_token, key_agreement, exchange_pin}
use fido.ClientPin.{pin_token, token_request, cmd_client_pin}

module _ (c : Cbor) {S : Type 0} (t : Transport S) (y : Crypto) (r : Random S) (fuel perms : ℕ)
    (k : Key) (rp_id : Text) (proto : ℤ) where
  -- The exchange as a chain, over the step that hides the PIN.
  abbrev pub reply_step : PinKeys → Bytes → M S Token
  reply_step keys body = from (parse_token c y keys proto body)

  abbrev pub request_step : Value × PinKeys → Bytes → M S Token
  request_step x enc =
      cbor_call t c fuel k cmd_client_pin (token_request proto x.0 enc perms rp_id)
      >>= reply_step x.1

  abbrev pub hash_step : (PinKeys → M S Bytes) → Value × PinKeys → M S Token
  hash_step digest x = digest x.1 >>= request_step x

  abbrev pub offer_step : (PinKeys → M S Bytes) → Bytes → M S Token
  offer_step digest point = agree y r proto point >>= hash_step digest

  abbrev pub exchange_with : (PinKeys → M S Bytes) → M S Token
  exchange_with digest = key_agreement c t fuel k proto >>= offer_step digest

  pub exchange_pin_lem :
      (pin : Text)
      → exchange_pin c t y r fuel k pin proto perms rp_id
        ≡ exchange_with (λ keys. pin_hash y r keys pin)
  unfolding exchange_pin
  exchange_pin_lem pin = refl

  -- What has happened when a token comes out: the authenticator's point, the platform's key and the
  -- keys derived, the PIN's hash under them, and the reply, each with the states around it.
  pub record Exchange (pin : Text) (s' : S) (tok : Token) : Type 0 where
    pub point : Bytes
    pub own : Value
    pub keys : PinKeys
    pub enc : Bytes
    pub body : Bytes
    pub start : S
    pub offered : S
    pub agreed : S
    pub hidden : S
    pub offer : key_agreement c t fuel k proto start ≡ (value point, offered)
    pub agreement : agree y r proto point offered ≡ (value (own, keys), agreed)
    pub hiding : pin_hash y r keys pin agreed ≡ (value enc, hidden)
    pub answer :
        cbor_call t c fuel k cmd_client_pin (token_request proto own enc perms rp_id) hidden
        ≡ (value body, s')
    pub reading : parse_token c y keys proto body ≡ ok tok

  exchange_with-Exchange :
      (pin : Text) (s s' : S) (tok : Token)
      → exchange_with (λ keys. pin_hash y r keys pin) s ≡ (value tok, s')
      → Exchange pin s' tok
  exchange_with-Exchange pin s s' tok h =
      let hash : PinKeys → M S Bytes = λ keys. pin_hash y r keys pin in
      let (pk, u1, e1, h1) =
        bind-eq-value (key_agreement c t fuel k proto) (offer_step hash) {s = s} {s' = s'} {b = tok}
          h in
      let (x, u2, e2, h2) =
        bind-eq-value (agree y r proto pk) (hash_step hash) {s = u1} {s' = s'} {b = tok} h1 in
      let (enc, u3, e3, h3) =
        bind-eq-value (hash x.1) (request_step x) {s = u2} {s' = s'} {b = tok} h2 in
      let (body, u4, e4, h4) =
        bind-eq-value
          (cbor_call t c fuel k cmd_client_pin (token_request proto x.0 enc perms rp_id))
          (reply_step x.1) {s = u3} {s' = s'} {b = tok} h3 in
      let (read, at) = from-value (parse_token c y x.1 proto body) u4 s' h4 in
      record {
        point = pk;
        own = x.0;
        keys = x.1;
        enc = enc;
        body = body;
        start = s;
        offered = u1;
        agreed = u2;
        hidden = u3;
        offer = e1;
        agreement = e2;
        hiding = e3;
        answer = e4 ∙ ap (λ z. (value body, z)) at;
        reading = read;
      }

  pub pin_token-Exchange :
      (pin : Text) (s s' : S) (tok : Token)
      → pin_token c t y r fuel k pin proto perms rp_id s ≡ (value tok, s')
      → (pin ≢ []) × Exchange pin s' tok
  unfolding pin_token
  pin_token-Exchange [] s s' tok h =
      let (_, u, _, last) =
        bind-eq-value (ctap2_ready t k) (λ _. raise empty_pin) {s = s} {s' = s'} {b = tok} h in
      absurd (ground arith)
  pin_token-Exchange (x ∷ pin) s s' tok h =
      let (_, u, _, last) =
        bind-eq-value (ctap2_ready t k)
          (λ _. exchange_pin c t y r fuel k (x ∷ pin) proto perms rp_id) {s = s} {s' = s'} {b = tok}
          h in
      (
        (λ e. ground arith),
        exchange_with-Exchange (x ∷ pin) u s' tok
            (sym (ap (λ f. f u) (exchange_pin_lem (x ∷ pin))) ∙ last),
      )
