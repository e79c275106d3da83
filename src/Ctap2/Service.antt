-- ===== src/Ctap2/Service.antt =====
-- CTAP2 commands to an authenticator that speaks the same protocol.
use fido.Base.{subst, ℕ, ◌<◌, ◌^◌, ◌≡◌, refl, ◌∙◌, ap, true, ◌∷◌}
use fido.Base.Bits.{Bytes}
use fido.Framing.{Message, cmd_cbor}
use fido.Reassembly.Packets.{message}
use fido.Transport.{value}
use fido.Transport.Bind.{bind-value}
use fido.Session.{Key, round_trip}
use fido.Session.Peer.{Answer, Peer, IsIdle, IsCarried, peer, serve}
use fido.Session.Peer.Turns.{round_trip-serve}
use fido.Cbor.{Cbor, Value, got}
use fido.Ctap2.{take_status, cbor, cbor_call}
use fido.Ctap2.Exchange.{meaning, take_status-meaning}

module _ {H : Type 0} (handle : Message → H → Answer × H) (fuel ch : ℕ) where
  -- The authenticator's answer to a CTAP2 command, and what it remembers then.
  abbrev pub reply_to : ℕ → Bytes → H → Bytes × H
  reply_to cmd params h =
      let (a, h') = handle (message ch cmd_cbor (cmd ∷ params)) h in (a.content, h')

  -- It answers the command by a CTAP2 reply.
  pub record Replies (cmd : ℕ) (params : Bytes) (h : H) : Type 0 where
    pub carried : IsCarried handle fuel ch (cmd_cbor, cmd ∷ params) h
    pub with_cbor : (handle (message ch cmd_cbor (cmd ∷ params)) h).0.cmd ≡ cmd_cbor

  serve-cbor :
      (cmd : ℕ) (params : Bytes) (h : H)
      → Replies cmd params h
      → serve handle ch (cmd_cbor, cmd ∷ params) h
        ≡ (value (reply_to cmd params h).0, (reply_to cmd params h).1)
  serve-cbor cmd params h r = rw (r.with_cbor) refl

  module _ (c : Cbor) where
    -- The authenticator grants a command: its reply has a status of zero, and this body.
    pub record Grants (cmd : ℕ) (params : Value) (body : Bytes) (h : H) : Type 0 where
      pub encoded : Bytes
      pub encoding : c.marshal params ≡ got encoded
      pub replies : Replies cmd encoded h
      pub granted : (reply_to cmd encoded h).0 ≡ 0 ∷ body

    -- What it remembers then.
    abbrev pub after :
        {cmd : ℕ} {params : Value} {body : Bytes} {h : H} → Grants cmd params body h → H
    after {cmd} {h} g = (reply_to cmd g.encoded h).1

module _ {H : Type 0} (handle : Message → H → Answer × H) (fuel : ℕ) (k : Key)
    (on : k.attached ≡ true) (hc : k.channel < 2 ^ 32) where
  -- A command comes to the meaning of the authenticator's reply.
  pub cbor-Replies :
      (cmd : ℕ) (params : Bytes) (s : Peer H)
      → IsIdle s
      → Replies handle fuel k.channel cmd params s.memory
      → (s' : Peer H) × IsIdle s'
        × (s'.memory ≡ (reply_to handle fuel k.channel cmd params s.memory).1)
        × (cbor (peer handle) fuel k cmd params s ≡ (
          meaning (peer handle) k on (reply_to handle fuel k.channel cmd params s.memory).0,
          s',
        ))
  unfolding cbor
  cbor-Replies cmd params s idle r =
      let (s', idle', same, answered) =
        round_trip-serve handle fuel k on hc cmd_cbor (cmd ∷ params) s idle r.carried in
      let served = serve-cbor handle fuel k.channel cmd params s.memory r in
      (
        s',
        idle',
        same,
        bind-value (round_trip (peer handle) fuel k cmd_cbor (cmd ∷ params))
              (take_status (peer handle) k) (answered ∙ ap (λ x. (x.0, s')) served)
            ∙ take_status-meaning (peer handle) k on _ s',
      )

  module _ (c : Cbor) where
    -- A granted command comes to its body.
    pub cbor_call-Grants :
        (cmd : ℕ) (params : Value) (body : Bytes) (s : Peer H)
        → IsIdle s
        → (g : Grants handle fuel k.channel c cmd params body s.memory)
        → (s' : Peer H) × IsIdle s'
          × (s'.memory ≡ after handle fuel k.channel c g)
          × (cbor_call (peer handle) c fuel k cmd params s ≡ (value body, s'))
    unfolding cbor_call
    cbor_call-Grants cmd params body s idle g =
        let (s', idle', same, said) = cbor-Replies cmd g.encoded s idle g.replies in
        (
          s',
          idle',
          same,
          rw (g.encoding, cbor_call)
              (said ∙ ap (λ b. (meaning (peer handle) k on b, s')) g.granted),
        )

    -- So too where what the authenticator remembers is known by an equation.
    pub cbor_call-Grants_at :
        (cmd : ℕ) (params : Value) (body : Bytes) (s : Peer H) (h : H)
        → IsIdle s
        → s.memory ≡ h
        → (g : Grants handle fuel k.channel c cmd params body h)
        → (s' : Peer H) × IsIdle s'
          × (s'.memory ≡ after handle fuel k.channel c g)
          × (cbor_call (peer handle) c fuel k cmd params s ≡ (value body, s'))
    cbor_call-Grants_at cmd params body s h idle at =
        subst
          (λ m.
            (g : Grants handle fuel k.channel c cmd params body m)
            → (s' : Peer H) × IsIdle s'
              × (s'.memory ≡ after handle fuel k.channel c g)
              × (cbor_call (peer handle) c fuel k cmd params s ≡ (value body, s')))
          at (cbor_call-Grants cmd params body s idle)
