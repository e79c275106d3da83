-- ===== src/Session/Exchange.antt =====
-- `roundTrip` over a transport: what it returns, when it returns, and what it needs of the key.
use fido.Base.{ℕ, ◌≤◌, ◌<◌, ◌^◌, ◌≡◌, ◌≢◌, refl, sym, ◌∙◌, ap, arith}
use fido.Base.{true, false}
use fido.Base.{List, ◌++◌, length, All}
use fido.Base.Bits.{Bytes}
use fido.Errors.{too_long}
use fido.Framing.{packets, cmd_keepalive}
use fido.Reassembly.{new_reassembler}
use fido.Reassembly.Packets.{message}
use fido.Transport.{Transport, value, error, panic}
use fido.Transport.{◌>>=◌}
use fido.Transport.Bind.{bind-value, bind-panic, bind-eq-value}
use native.Mathlib.Decide.{dec_lt}
use fido.Session.{Key, send_all, await, round_trip}
use fido.Session.Stream.{answer, Answered, answer-Answered}
use fido.Session.Stream.{messages}
use fido.Session.Reply.{own, keepalives, verdict, answer-own, answer-keepalives}
use fido.Framing.Shape.{split-too_long}
use fido.Session.Await.{Delivers, await-answer, await_sound}

module _ {S : Type 0} (t : Transport S) where
  pub round_trip-fits :
      (fuel cmd : ℕ) (k : Key) (content : Bytes) (s : S)
      → length content ≤ 7609
      → round_trip t fuel k cmd content s
        ≡ (send_all t k (packets k.channel cmd content) >>= λ _.
              await t fuel k cmd (new_reassembler k.channel))
            s
  unfolding round_trip
  round_trip-fits fuel cmd k content s fits = rw ((split-too_long k.channel cmd content).1.0 fits)

  -- A round trip that sends its packets and is answered, with keepalives before the answer and any
  -- reports of other channels in between, comes to the verdict on the answer.
  pub round_trip-verdict :
      (fuel cmd c : ℕ) (k : Key) (content reply : Bytes) (ks ps more : List Bytes) (s s₁ s₂ : S)
      → k.attached ≡ true
      → k.channel < 2 ^ 32
      → length content ≤ 7609
      → send_all t k (packets k.channel cmd content) s ≡ (value tt, s₁)
      → Delivers t s₁ ps s₂
      → length ps ≤ fuel
      → All (λ p. 5 ≤ length p) ps
      → own k.channel ps ≡ keepalives k.channel ks ++ (packets k.channel c reply ++ more)
      → All (λ a. length a ≤ 7609) ks
      → c < 128
      → c ≢ cmd_keepalive
      → length reply ≤ 7609
      → (round_trip t fuel k cmd content s).0 ≡ verdict t.name cmd (message k.channel c reply)
  round_trip-verdict fuel cmd c k content reply ks ps more s s₁ s₂ a hc fits sent d f long mine hs
        hm hk hr =
      rw
        (
          round_trip-fits fuel cmd k content s fits,
          bind-value (send_all t k (packets k.channel cmd content))
              (λ _. await t fuel k cmd (new_reassembler k.channel)) sent,
        )
        (await-answer t ps fuel cmd k (new_reassembler k.channel) s₁ s₂ _ a d f (
          answer-own t.name cmd ps (new_reassembler k.channel) k.channel
            (unfold new_reassembler in refl) long
          ∙ ap (answer t.name cmd (new_reassembler k.channel)) mine
          ∙ answer-keepalives t.name cmd ks (new_reassembler k.channel) k.channel c reply more
              (unfold new_reassembler in refl) hc hm hk hr hs))

  -- A message that is too long is refused before anything is sent.
  pub round_trip-too_long :
      (fuel cmd : ℕ) (k : Key) (content : Bytes) (s : S)
      → 7609 < length content
      → round_trip t fuel k cmd content s ≡ (error too_long, s)
  unfolding round_trip
  round_trip-too_long fuel cmd k content s h = rw ((split-too_long k.channel cmd content).0.1 h)

  -- A round trip that returns a value has sent all its packets, and the value is the content of the
  -- first message of its channel, keepalives aside, which answers the command that was sent.
  pub round_trip-Answered :
      (fuel cmd : ℕ) (k : Key) (content reply : Bytes) (s s' : S)
      → k.attached ≡ true
      → round_trip t fuel k cmd content s ≡ (value reply, s')
      → (u : S) × (ps : List Bytes) × (send_all t k (packets k.channel cmd content) s
          ≡ (value tt, u))
        × Delivers t u ps s'
        × Answered cmd reply (messages (new_reassembler k.channel) ps)
  round_trip-Answered fuel cmd k content reply s s' a h = elim (dec_lt 7609 (length content)) [
    | yes over ↦ absurd (cc (round_trip-too_long fuel cmd k content s over))
    | no within ↦
        let (_, u, sent, got) =
          bind-eq-value (send_all t k (packets k.channel cmd content))
            (λ _. await t fuel k cmd (new_reassembler k.channel))
            (sym (round_trip-fits fuel cmd k content s (omega arith)) ∙ h) in
        let (ps, d, found) = await_sound t fuel cmd k _ u s' reply a got in
        (u, ps, sent, d, answer-Answered t.name cmd ps _ reply found)
  ]

  send_all_detached :
      (k : Key) (cmd : ℕ) (content : Bytes) (s : S)
      → k.attached ≡ false
      → send_all t k (packets k.channel cmd content) s ≡ (panic, s)
  unfolding send_all packets
  send_all_detached k cmd content s a = rw a

  -- On a key that has been closed it panics, and the transport is not touched.
  pub round_trip_detached :
      (fuel cmd : ℕ) (k : Key) (content : Bytes) (s : S)
      → k.attached ≡ false
      → length content ≤ 7609
      → round_trip t fuel k cmd content s ≡ (panic, s)
  round_trip_detached fuel cmd k content s a fits =
      round_trip-fits fuel cmd k content s fits
      ∙ bind-panic (send_all t k (packets k.channel cmd content))
          (λ _. await t fuel k cmd (new_reassembler k.channel))
          (send_all_detached k cmd content s a)
