-- ===== src/Lifetime/Touch.antt =====
-- What the CTAP2 commands touch: the transport while the key is open, by sending and receiving, and
-- the sources of randomness once the key has answered.
use fido.Base.{ℕ, ◌≡◌, arith, true, inl, inr}
use fido.Base.{[], ◌∷◌}
use fido.Base.Bits.{Bytes}
use fido.Base.Int.{ℤ}
use fido.Errors.{cannot_encode}
use fido.Framing.{cmd_cbor}
use fido.Transport.{Transport, value}
use fido.Transport.Bind.{bind-eq-value}
use fido.Transport.Keeps.{keeps_rules, Keeps-raise, Keeps, Keeps-then, Keeps-from, Keeps-if}
use fido.Session.{Key, name, round_trip}
use fido.Session.Touch.{round_trip-attached, Keeps-name, Keeps-round_trip}
use fido.Cbor.{Cbor, Coded-cases, Value}
use fido.Ctap2.{take_status, cbor, ctap2_ready, cbor_call}
use fido.Info.{get_info}
use fido.PinProtocol.{Crypto}
use fido.ClientPin.{pin_retries, key_agreement}
use fido.ClientPin.{request}
use fido.Requests.{MakeCredentialRequest, GetAssertionRequest}
use fido.Credentials.{make_credential, get_assertion}

module _ {S : Type 0} (t : Transport S) (c : Cbor) (k : Key) where
  cbor-attached :
      (fuel cmd : ℕ) (params body : Bytes) (s s' : S)
      → cbor t fuel k cmd params s ≡ (value body, s')
      → k.attached ≡ true
  unfolding cbor
  cbor-attached fuel cmd params body s s' h =
      let (reply, u, e, _) =
        bind-eq-value (round_trip t fuel k cmd_cbor (cmd ∷ params)) (take_status t k) {s = s}
          {s' = s'} {b = body} h in
      round_trip-attached t k fuel cmd_cbor (cmd ∷ params) reply s u e

  pub cbor_call-attached :
      (fuel cmd : ℕ) (params : Value) (body : Bytes) (s s' : S)
      → cbor_call t c fuel k cmd params s ≡ (value body, s')
      → k.attached ≡ true
  unfolding cbor_call
  cbor_call-attached fuel cmd params body s s' h = elim (Coded-cases (c.marshal params)) [
    | inl (b, e) ↦ cbor-attached fuel cmd b body s s' (rw (e, cbor_call) at h)
    | inr (x, e) ↦ absurd (ground arith)
  ]

  module _ (P : S → Type 0)
      (sends : k.attached ≡ true → (p : Bytes) (s : S) → P s → P (t.send p s).1)
      (receives : k.attached ≡ true → (s : S) → P s → P (t.receive s).1) where
    naming : Keeps P (name t k)
    naming = Keeps-name t k P sends receives

    Keeps-take_status : (reply : Bytes) → Keeps P (take_status t k reply)
    unfolding take_status
    Keeps-take_status [] = search (keeps_rules, naming)
    Keeps-take_status (x ∷ body) = search (keeps_rules, naming)

    pub Keeps-cbor : (fuel cmd : ℕ) (params : Bytes) → Keeps P (cbor t fuel k cmd params)
    unfolding cbor
    Keeps-cbor fuel cmd params =
        search (keeps_rules, Keeps-round_trip t k P sends receives, Keeps-take_status)

    pub Keeps-cbor_call :
        (fuel cmd : ℕ) (params : Value) → Keeps P (cbor_call t c fuel k cmd params)
    unfolding cbor_call
    Keeps-cbor_call fuel cmd params = elim (Coded-cases (c.marshal params)) [
      | inl (b, e) ↦ rw (e, cbor_call) (Keeps-cbor fuel cmd b)
      | inr (x, e) ↦ rw (e, cbor_call) (Keeps-raise (cannot_encode x))
    ]

    pub Keeps-ctap2_ready : Keeps P (ctap2_ready t k)
    unfolding ctap2_ready
    Keeps-ctap2_ready = search (keeps_rules, naming)

    pub Keeps-get_info : (fuel : ℕ) → Keeps P (get_info c t fuel k)
    unfolding get_info
    Keeps-get_info fuel = search (keeps_rules, naming, Keeps-cbor)

    -- The rules for what stands behind the guard of CTAP2.
    pub ruleset command_rules = (keeps_rules, Keeps-ctap2_ready, Keeps-cbor_call)

    pub Keeps-pin_retries : (fuel : ℕ) → Keeps P (pin_retries c t fuel k)
    unfolding pin_retries
    Keeps-pin_retries fuel = search command_rules

    pub Keeps-key_agreement : (fuel : ℕ) (proto : ℤ) → Keeps P (key_agreement c t fuel k proto)
    unfolding key_agreement
    Keeps-key_agreement fuel proto = search command_rules

    pub Keeps-make_credential :
        (y : Crypto) (fuel : ℕ) (request : MakeCredentialRequest)
        → Keeps P (make_credential c t y fuel k request)
    unfolding make_credential
    Keeps-make_credential y fuel request = search command_rules

    pub Keeps-get_assertion :
        (y : Crypto) (fuel : ℕ) (request : GetAssertionRequest)
        → Keeps P (get_assertion c t y fuel k request)
    unfolding get_assertion
    Keeps-get_assertion y fuel request = search command_rules
