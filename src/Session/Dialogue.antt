-- ===== src/Session/Dialogue.antt =====
-- `Open` and the exchanges after it, with an authenticator that speaks the same protocol.
use fido.Base.{ℕ, ◌<◌, ◌^◌, ◌≡◌, refl, ◌∙◌, ap, arith, List}
use fido.Base.Bits.{Bytes}
use fido.Errors.{ok}
use fido.Framing.{broadcast_channel, cmd_init}
use fido.Reassembly.Packets.{message}
use fido.Init.{InitReply, parse_init}
use fido.Transport.{Random, value, filled}
use fido.Framing.{Message}
use fido.Session.{open_key, handshake, unopened}
use fido.Session.Peer.{
  Answer, Peer, IsIdle, IsCarried, AreCarried, peer, serve, serve_all, exchanges,
}
use fido.Session.Peer.Turns.{round_trip-serve, exchanges-serve_all}
use fido.Session.Ready.{opened, handshake-value, closing-fine}

module _ {H : Type 0} (handle : Message → H → Answer × H) (fuel : ℕ) where
  -- What the authenticator remembers after INIT with this nonce.
  abbrev pub greeted : Bytes → H → H
  greeted nonce h = (handle (message broadcast_channel cmd_init nonce) h).1

  -- The authenticator answers INIT with a reply that repeats the nonce and offers a channel.
  pub record Greets (init : InitReply) (h : H) : Type 0 where
    pub carried : IsCarried handle fuel broadcast_channel (cmd_init, init.nonce) h
    pub with_init : (handle (message broadcast_channel cmd_init init.nonce) h).0.cmd ≡ cmd_init
    pub parses :
        parse_init (handle (message broadcast_channel cmd_init init.nonce) h).0.content ≡ ok init

  serve-init :
      (init : InitReply) (h : H)
      → Greets init h
      → (serve handle broadcast_channel (cmd_init, init.nonce) h).0
        ≡ value (handle (message broadcast_channel cmd_init init.nonce) h).0.content
  serve-init init h g = rw (g.with_init) refl

module _ {H : Type 0} (handle : Message → H → Answer × H) (r : Random (Peer H)) (fuel : ℕ) where
  -- `Open` yields the key that the INIT reply describes.
  pub open_key-Greets :
      (init : InitReply) (s s₁ : Peer H)
      → r.nonce s ≡ (filled init.nonce, s₁)
      → IsIdle s₁
      → Greets handle fuel init s₁.memory
      → (s' : Peer H) × IsIdle s'
        × (s'.memory ≡ greeted handle fuel init.nonce s₁.memory)
        × (open_key (peer handle) r fuel s ≡ (value (opened init), s'))
  unfolding open_key
  open_key-Greets init s s₁ made idle g =
      let (s', idle', same, answered) =
        round_trip-serve handle fuel unopened refl (omega arith) cmd_init init.nonce s₁ idle
          g.carried in
      (
        s',
        idle',
        same,
        closing-fine (peer handle) r unopened (handshake (peer handle) r fuel) s s' _ (
            handshake-value (peer handle) r fuel _ init s s₁ s' made
              (answered ∙ ap (λ o. (o, s')) (serve-init handle fuel init s₁.memory g)) g.parses),
      )

  -- An authenticator that is between two exchanges on every channel and answers INIT with a reply that
  -- repeats the nonce that was made and offers a channel of 32 bits; and commands below 0x80, with at
  -- most 7609 bytes, each of which it answers, by what it remembers then, with keepalives and a message
  -- that the framing can carry, with fuel for the reports. `Open` yields the key that its reply
  -- describes, and the commands sent with that key, one after the other, come to the same outcomes as
  -- without the wire, where each is the verdict on the authenticator's answer; and the authenticator
  -- remembers the same in the end.
  pub dialogue :
      (init : InitReply) (cs : List (ℕ × Bytes)) (s s₁ : Peer H)
      → r.nonce s ≡ (filled init.nonce, s₁)
      → IsIdle s₁
      → Greets handle fuel init s₁.memory
      → init.channel < 2 ^ 32
      → AreCarried handle fuel init.channel cs (greeted handle fuel init.nonce s₁.memory)
      → let (os, h) = serve_all handle init.channel cs (greeted handle fuel init.nonce s₁.memory) in
        (s' : Peer H) × (open_key (peer handle) r fuel s ≡ (value (opened init), s'))
        × ((exchanges handle fuel (opened init) cs s').0 ≡ os)
        × ((exchanges handle fuel (opened init) cs s').1.memory ≡ h)
  dialogue init cs s s₁ made idle g fits carried =
      let (s', idle', same, opens) = open_key-Greets init s s₁ made idle g in
      let (said, kept, _) =
        exchanges-serve_all handle fuel (opened init) cs s' refl fits idle' (rw same carried) in
      (s', opens, rw same at said, rw same at kept)
