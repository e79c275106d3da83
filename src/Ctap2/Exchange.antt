-- ===== src/Ctap2/Exchange.antt =====
-- A CTAP2 command over a key: what comes of the authenticator's reply.
use fido.Base.{ℕ, ◌≤◌, ◌<◌, ◌^◌, ◌≡◌, ◌∙◌, ap, arith, true, Bool-cases, inl, inr}
use fido.Base.{List, [], ◌∷◌, ◌++◌, length, All, ◌==◌, if◌then◌else◌}
use fido.Base.Bits.{Bytes}
use fido.Errors.{empty_reply, ctap_status}
use fido.Framing.{packets, cmd_cbor}
use fido.Transport.{Transport, Outcome, value, error}
use fido.Transport.Bind.{bind-value}
use fido.Session.{Key, name, send_all, round_trip}
use fido.Session.Reply.{own, keepalives}
use fido.Session.Await.{Delivers}
use fido.Session.Exchange.{round_trip-verdict}
use fido.Status.{is_refusal}
use fido.Init.{has, cap_cbor}
use fido.Ctap2.{take_status, cbor, ctap2_ready}

pub ctap2_ready-value :
    {S : Type 0} (t : Transport S) (k : Key) (s s' : S)
    → ctap2_ready t k s ≡ (value tt, s')
    → (has k.caps cap_cbor ≡ true) × (s ≡ s')
unfolding ctap2_ready
ctap2_ready-value t k s s' h = ground arith

module _ {S : Type 0} (t : Transport S) (k : Key) (open_key : k.attached ≡ true) where
  -- What a reply means: its status decides.
  abbrev pub meaning : Bytes → Outcome Bytes
  meaning [] = error (empty_reply t.name)
  meaning (status ∷ body) = if status == 0 then value body else error (ctap_status t.name status)

  pub take_status-meaning : (reply : Bytes) (s : S) → take_status t k reply s ≡ (meaning reply, s)
  unfolding take_status name is_refusal
  take_status-meaning [] s = rw open_key
  take_status-meaning (x ∷ rest) s = elim (Bool-cases (x == 0)) [
    | inl fine ↦ rw fine
    | inr refused ↦ rw (refused, open_key)
  ]

  -- A command with at most 7608 bytes of parameters on an open key, whose packets are sent and which
  -- is answered under the CBOR command byte, with keepalives before the answer and reports of other
  -- channels in between, comes to what the reply means: its body if the status is zero, and otherwise
  -- an error with that status, or that of an empty reply.
  pub cbor-meaning :
      (fuel cmd : ℕ) (params reply : Bytes) (ks ps more : List Bytes) (s s₁ s₂ : S)
      → k.channel < 2 ^ 32
      → length params ≤ 7608
      → send_all t k (packets k.channel cmd_cbor (cmd ∷ params)) s ≡ (value tt, s₁)
      → Delivers t s₁ ps s₂
      → length ps ≤ fuel
      → All (λ p. 5 ≤ length p) ps
      → own k.channel ps ≡ keepalives k.channel ks ++ (packets k.channel cmd_cbor reply ++ more)
      → All (λ a. length a ≤ 7609) ks
      → length reply ≤ 7609
      → (cbor t fuel k cmd params s).0 ≡ meaning reply
  unfolding cbor
  cbor-meaning fuel cmd params reply ks ps more s s₁ s₂ hc fits sent d f long mine hs hr =
      let answered : (round_trip t fuel k cmd_cbor (cmd ∷ params) s).0 ≡ value reply =
        round_trip-verdict t fuel cmd_cbor cmd_cbor k (cmd ∷ params) reply ks ps more s s₁ s₂
          open_key hc (omega arith) sent d f long mine hs (omega arith) (λ e. omega arith) hr in
      let u : S = (round_trip t fuel k cmd_cbor (cmd ∷ params) s).1 in
      ap (λ x. x.0)
        (bind-value (round_trip t fuel k cmd_cbor (cmd ∷ params)) (take_status t k)
          (ap (λ o. (o, u)) answered))
      ∙ ap (λ x. x.0) (take_status-meaning reply u)
