-- ===== src/Session/Peer/Turns.antt =====
-- An exchange with the authenticator ends with the verdict on its answer, ready for the next one.
use fido.Base.{ℕ, ◌<◌, ◌^◌, ◌≡◌, refl, sym, ◌∙◌, ap, subst}
use fido.Base.{arith, true, List, [], ◌∷◌, ◌++◌, All, append-nil, inl, inr}
use fido.Base.Bits.{Bytes}
use fido.Framing.{Message, packets}
use fido.Reassembly.{new_reassembler, Reassembler, Fed, pending, done, feed}
use fido.Reassembly.Packets.{message}
use fido.Reassembly.RoundTrip.{deliver, deliver_pending, deliver_done, deliver_failed}
use fido.Reassembly.RoundTrip.{deliver-packets}
use fido.Transport.{value}
use fido.Transport.Bind.{bind-value}
use fido.Session.{Key, send_all, await, round_trip}
use fido.Session.Await.{Delivers}
use fido.Session.Consume.{Fed-cases, await-keepalives}
use fido.Session.Exchange.{round_trip-fits}
use fido.Session.Wire.{IsOn, packets-IsOn}
use fido.Session.Reply.{feed-channel}
use fido.Session.Peer.{
  Answer, Peer, reports, updated, AreTuned, IsIdle, respond, peer, serve, serve_all, IsCarried,
  AreCarried, exchanges,
}

updated-at : (rc : ℕ → Reassembler) (ch : ℕ) (r : Reassembler) → updated rc ch r ch ≡ r
updated-at rc ch r = ground arith

updated-AreTuned :
    (rc : ℕ → Reassembler) (ch : ℕ) (r : Reassembler)
    → AreTuned rc
    → r.channel ≡ ch
    → AreTuned (updated rc ch r)
updated-AreTuned rc ch r tuned e c = ground (arith, tuned c)

-- An authenticator that has just these reports to send.
abbrev saying : {H : Type 0} → (ℕ → Reassembler) → List Bytes → H → Peer H
saying rc ps h = record { rc = rc; queue = ps; memory = h }

module _ {H : Type 0} (handle : Message → H → Answer × H) where
  Delivers-queue :
      (rc : ℕ → Reassembler) (ps : List Bytes) (h : H)
      → Delivers (peer handle) (saying rc ps h) ps (saying rc [] h)
  Delivers-queue rc [] h = refl
  Delivers-queue rc (p ∷ ps) h = (_, refl, Delivers-queue rc ps h)

  -- The reports of a message have all been sent, and the answer to it is ready.
  abbrev IsSent : Key → List Bytes → (ℕ → Reassembler) → Message → H → Type 0
  IsSent k ps rc m h =
      (rc' : ℕ → Reassembler) × AreTuned rc'
      × (send_all (peer handle) k ps (saying rc [] h)
          ≡ (value tt, saying rc' (reports m.channel (handle m h).0) (handle m h).1))

  send_all-next :
      (k : Key) (p : Bytes) (ps : List Bytes) (ch : ℕ) (rc : ℕ → Reassembler) (r : Reassembler)
      (answer : Fed) (h : H)
      → k.attached ≡ true
      → IsOn ch p
      → feed (rc ch) p ≡ (answer, r)
      → send_all (peer handle) k (p ∷ ps) (saying rc [] h)
        ≡ send_all
            (peer handle)
            k
            ps
            (saying (updated rc ch r) (respond handle answer h).0 (respond handle answer h).1)
  unfolding send_all
  send_all-next k p ps ch rc r answer h a here e = simp (a, here.1, e)

  deliver-IsSent :
      (ps : List Bytes) (ch : ℕ) (k : Key) (rc : ℕ → Reassembler) (r' : Reassembler) (m : Message)
      (h : H)
      → k.attached ≡ true
      → All (IsOn ch) ps
      → AreTuned rc
      → deliver (rc ch) ps ≡ (done m, r', [])
      → IsSent k ps rc m h
  unfolding send_all deliver
  deliver-IsSent [] ch k rc r' m h a on tuned d = cc
  deliver-IsSent (p ∷ ps) ch k rc r' m h a (here, on) tuned d = elim (Fed-cases (feed (rc ch) p)) [
    | inl (r, e) ↦
        let next : AreTuned (updated rc ch r) =
          updated-AreTuned rc ch r tuned
            (ap (λ x. x.1.channel) (sym e) ∙ feed-channel (rc ch) p ∙ tuned ch) in
        let rest = sym (deliver_pending (rc ch) r p ps e) ∙ d in
        let (rc', tuned', sent) =
          deliver-IsSent ps ch k (updated rc ch r) r' m h a on next
            (rw (updated-at rc ch r) rest) in
        (rc', tuned', send_all-next k p ps ch rc r pending h a here e ∙ sent)
    | inr (inl (n, r, e)) ↦
        let last = sym (deliver_done (rc ch) r p ps n e) ∙ d in
        let rest : ps ≡ [] = cc in
        let same : n ≡ m = cc in
        (
          updated rc ch r,
          updated-AreTuned rc ch r tuned
              (ap (λ x. x.1.channel) (sym e) ∙ feed-channel (rc ch) p ∙ tuned ch),
          send_all-next k p ps ch rc r (done n) h a here e ∙ rw (rest, same) refl,
        )
    | inr (inr (x, r, e)) ↦ absurd (cc (deliver_failed (rc ch) r p ps x e))
  ]

  module _ (fuel : ℕ) (k : Key) (a : k.attached ≡ true) (hc : k.channel < 2 ^ 32) where
    packets-IsSent :
        (cmd : ℕ) (content : Bytes) (s : Peer H)
        → IsIdle s
        → IsCarried handle fuel k.channel (cmd, content) s.memory
        → IsSent k (packets k.channel cmd content) s.rc (message k.channel cmd content) s.memory
    packets-IsSent cmd content s idle fits =
        let at = idle.tuned k.channel in
        let (r, whole, _, _) =
          deliver-packets (s.rc k.channel) cmd content [] (rw at hc) fits.cmd_fits
            fits.content_fits in
        let here =
          subst
            (λ ch.
              deliver (s.rc k.channel) (packets ch cmd content ++ [])
              ≡ (done (message ch cmd content), r, []))
            at whole in
        deliver-IsSent (packets k.channel cmd content) k.channel k s.rc r
          (message k.channel cmd content) s.memory a (packets-IsOn k.channel cmd content hc)
          idle.tuned (rw (append-nil (packets k.channel cmd content)) at here)

    -- A round trip comes to what the authenticator serves without the wire.
    pub round_trip-serve :
        (cmd : ℕ) (content : Bytes) (s : Peer H)
        → IsIdle s
        → IsCarried handle fuel k.channel (cmd, content) s.memory
        → (s' : Peer H) × IsIdle s'
          × (s'.memory ≡ (serve handle k.channel (cmd, content) s.memory).1)
          × (round_trip (peer handle) fuel k cmd content s
              ≡ ((serve handle k.channel (cmd, content) s.memory).0, s'))
    round_trip-serve cmd content s idle fits =
        let (rc, tuned, sent) = packets-IsSent cmd content s idle fits in
        let start : s ≡ saying s.rc [] s.memory = ap (λ q. saying s.rc q s.memory) idle.quiet in
        let (answer, h) = handle (message k.channel cmd content) s.memory in
        let say = fits.sayable in
        (
          saying rc [] h,
          record { tuned = tuned; quiet = refl },
          refl,
          round_trip-fits (peer handle) fuel cmd k content s fits.content_fits
              ∙ bind-value (send_all (peer handle) k (packets k.channel cmd content))
                  (λ _. await (peer handle) fuel k cmd (new_reassembler k.channel))
                  (ap (send_all (peer handle) k (packets k.channel cmd content)) start ∙ sent)
              ∙ await-keepalives (peer handle) cmd k a answer.pauses fuel answer.cmd k.channel
                  (new_reassembler k.channel) answer.content _ _ (unfold new_reassembler in refl) hc
                  say.cmd_fits say.whole say.content_fits say.pauses_fit (Delivers-queue rc _ h)
                  fits.enough,
        )

  -- Over an attached key, to an authenticator that is between two exchanges: the outcomes are those
  -- of the authenticator without the wire, it remembers the same, and it ends between two exchanges.
  pub exchanges-serve_all :
      (fuel : ℕ) (k : Key) (cs : List (ℕ × Bytes)) (s : Peer H)
      → k.attached ≡ true
      → k.channel < 2 ^ 32
      → IsIdle s
      → AreCarried handle fuel k.channel cs s.memory
      → ((exchanges handle fuel k cs s).0 ≡ (serve_all handle k.channel cs s.memory).0)
        × ((exchanges handle fuel k cs s).1.memory ≡ (serve_all handle k.channel cs s.memory).1)
        × IsIdle (exchanges handle fuel k cs s).1
  exchanges-serve_all fuel k [] s a hc idle h = (refl, refl, idle)
  exchanges-serve_all fuel k (c ∷ cs) s a hc idle h =
      let (s', idle', same, step) = round_trip-serve fuel k a hc c.0 c.1 s idle h.0 in
      let (outcomes, kept, end) = exchanges-serve_all fuel k cs s' a hc idle' (rw same h.1) in
      rw (step, ← same) (ap (λ os. (serve handle k.channel c s.memory).0 ∷ os) outcomes, kept, end)
