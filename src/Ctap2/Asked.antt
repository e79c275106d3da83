-- ===== src/Ctap2/Asked.antt =====
-- The commands that ask once and read the reply: `PINRetries`, `KeyAgreement` and `GetInfo`.
use fido.Base.{◌≡◌, ◌↔◌, ◌∙◌, ap, true}
use fido.Base.Bits.{Bytes}
use fido.Errors.{Result, ok}
use fido.Init.{has, cap_cbor}
use fido.Transport.{Transport, M, value, ◌>>=◌, from}
use fido.Transport.Bind.{bind-value, bind-eq-value, from-value}
use fido.Session.{Key}
use fido.Ctap2.{ctap2_ready}
use fido.Ctap2.Exchange.{ctap2_ready-value}

module _ {S A : Type 0} (t : Transport S) (k : Key) (call : M S Bytes)
    (parse : Bytes → Result A) where
  ready-asked : (s : S) → has k.caps cap_cbor ≡ true → ctap2_ready t k s ≡ (value tt, s)
  unfolding ctap2_ready
  ready-asked s on = rw on

  -- The key speaks CTAP2, and the call comes to a body that is read as the value.
  abbrev pub IsAsked : S → A → S → Type 0
  IsAsked s a s' =
      (has k.caps cap_cbor ≡ true)
      × ((body : Bytes) × (call s ≡ (value body, s')) × (parse body ≡ ok a))

  pub call-value :
      (s s' : S) (a : A)
      → ((call >>= λ body. from (parse body)) s ≡ (value a, s'))
        ↔ ((body : Bytes) × (call s ≡ (value body, s')) × (parse body ≡ ok a))
  call-value s s' a = (
    (λ h.
        let (body, u, asked, read) = bind-eq-value call (λ body. from (parse body)) h in
        let (parsed, same) = from-value (parse body) u s' read in
        (body, asked ∙ ap (λ v. (value body, v)) same, parsed)),
    (λ (body, asked, parsed).
        bind-value call (λ body. from (parse body)) asked ∙ ap (λ x. from x s') parsed),
  )

  pub ask-IsAsked :
      (s s' : S) (a : A)
      → ((ctap2_ready t k >>= λ _. call >>= λ body. from (parse body)) s ≡ (value a, s'))
        ↔ IsAsked s a s'
  ask-IsAsked s s' a = (
    (λ h.
        let (_, u, ready, rest) =
          bind-eq-value (ctap2_ready t k) (λ _. call >>= λ body. from (parse body)) h in
        let (on, same) = ctap2_ready-value t k s u ready in
        (on, (call-value s s' a).0 (rw same rest))),
    (λ (on, found).
        bind-value (ctap2_ready t k) (λ _. call >>= λ body. from (parse body)) (ready-asked s on)
        ∙ (call-value s s' a).1 found),
  )
