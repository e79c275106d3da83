-- ===== src/Session/Reply.antt =====
-- What the loop of `roundTrip` makes of a reply, with keepalives before it and the reports of other
-- channels between its own.
use fido.Base.{ℕ, ◌≤◌, ◌<◌, ◌^◌, ◌≡◌, ◌≢◌, refl, sym, ◌∙◌, ap, subst, arith, ◌==◌, if◌then◌else◌}
use fido.Base.{false, Bool-cases, inl, inr, Option, some}
use fido.Base.{List, [], ◌∷◌, ◌++◌, length, get_or, All, append_assoc}
use fido.Base.Bits.{Bytes, u32}
use fido.Errors.{Text, wrong_channel, refused, wrong_command}
use fido.Framing.{Message, cmd_keepalive, cmd_error, packets}
use fido.Reassembly.{Reassembler, Fed, done, failed, feed, feed_init, feed_next, finish}
use fido.Reassembly.Packets.{message}
use fido.Reassembly.RoundTrip.{deliver, deliver-packets}
use fido.Reassembly.Bounds.{channel_of}
use fido.Transport.{Outcome, value, error}
use fido.Session.{Next, again, stop, after_message, after_fed, after_report}
use fido.Session.Stream.{answer, answer-again, answer-stop, Next-cases}

finish-channel : (r : Reassembler) → (finish r).1.channel ≡ r.channel
unfolding finish
finish-channel r = ground arith

feed_init-channel :
    (r : Reassembler) (ch b : ℕ) (body : Bytes) → (feed_init r ch b body).1.channel ≡ r.channel
unfolding feed_init
feed_init-channel r ch b [] = refl
feed_init-channel r ch b (_ ∷ []) = refl
feed_init-channel r ch b (hi ∷ lo ∷ body) = finish-channel _

feed_next-channel :
    (r : Reassembler) (b : ℕ) (body : Bytes) → (feed_next r b body).1.channel ≡ r.channel
unfolding feed_next finish
feed_next-channel r b body = ground arith

pub feed-channel : (r : Reassembler) (p : Bytes) → (feed r p).1.channel ≡ r.channel
unfolding feed
feed-channel r (a ∷ b ∷ c ∷ d ∷ x ∷ body) =
    ground (arith, feed_init-channel r (u32 a b c d) x body, feed_next-channel r x body)
feed-channel r _ = refl

-- A whole report of another channel is refused, and changes nothing.
pub feed-foreign :
    (r : Reassembler) (p : Bytes)
    → 5 ≤ length p
    → (channel_of p == r.channel) ≡ false
    → feed r p ≡ (failed wrong_channel, r)
unfolding feed
feed-foreign r (a ∷ b ∷ c ∷ d ∷ x ∷ body) h ne = ground arith
feed-foreign r [] h ne = absurd (omega arith)
feed-foreign r (_ ∷ []) h ne = absurd (omega arith)
feed-foreign r (_ ∷ _ ∷ []) h ne = absurd (omega arith)
feed-foreign r (_ ∷ _ ∷ _ ∷ []) h ne = absurd (omega arith)
feed-foreign r (_ ∷ _ ∷ _ ∷ _ ∷ []) h ne = absurd (omega arith)

-- The reports of one channel.
abbrev pub own : ℕ → List Bytes → List Bytes
own ch [] = []
own ch (p ∷ ps) = if channel_of p == ch then p ∷ own ch ps else own ch ps

-- Keepalive messages, cut into their reports.
abbrev pub keepalives : ℕ → List Bytes → List Bytes
keepalives ch [] = []
keepalives ch (k ∷ ks) = packets ch cmd_keepalive k ++ keepalives ch ks

module _ (name : Text) (cmd : ℕ) where
  -- What `roundTrip` makes of a reply that is no keepalive: its content if it answers the command
  -- that was sent, and an error if it is a refusal or answers another command.
  abbrev pub verdict : Message → Outcome Bytes
  verdict m =
      if m.cmd == cmd_error
      then error (refused name (get_or m.content 0 0))
      else if m.cmd == cmd
      then value m.content
      else error (wrong_command name m.cmd cmd)

  after_fed-channel :
      (f : Fed) (rc rc' : Reassembler) → after_fed name cmd f rc ≡ again rc' → rc' ≡ rc
  unfolding after_fed after_message
  after_fed-channel f rc rc' h = ground arith

  after_report-channel :
      (p : Bytes) (rc rc' : Reassembler)
      → after_report name cmd rc p ≡ again rc'
      → rc'.channel ≡ rc.channel
  unfolding after_report
  after_report-channel p rc rc' h =
      ap (λ (r : Reassembler). r.channel) (after_fed-channel (feed rc p).0 (feed rc p).1 rc' h)
      ∙ feed-channel rc p

  after_report-foreign :
      (p : Bytes) (rc : Reassembler)
      → 5 ≤ length p
      → (channel_of p == rc.channel) ≡ false
      → after_report name cmd rc p ≡ again rc
  unfolding after_report after_fed
  after_report-foreign p rc h ne = rw (feed-foreign rc p h ne)

  -- The reports of other channels make no difference.
  pub answer-own :
      (ps : List Bytes) (rc : Reassembler) (ch : ℕ)
      → rc.channel ≡ ch
      → All (λ p. 5 ≤ length p) ps
      → answer name cmd rc ps ≡ answer name cmd rc (own ch ps)
  answer-own [] rc ch c h = refl
  answer-own (p ∷ ps) rc ch c h = elim (Bool-cases (channel_of p == ch)) [
    | inl mine ↦ rw mine (elim (Next-cases (after_report name cmd rc p)) [
      | inl (rc', e) ↦
          answer-again name cmd rc rc' p ps e
          ∙ answer-own ps rc' ch (after_report-channel p rc rc' e ∙ c) h.1
          ∙ sym (answer-again name cmd rc rc' p _ e)
      | inr (o, e) ↦ answer-stop name cmd rc p ps o e ∙ sym (answer-stop name cmd rc p _ o e)
    ])
    | inr other ↦ rw other (
        answer-again name cmd rc rc p ps (after_report-foreign p rc h.0 (rw c other))
        ∙ answer-own ps rc ch c h.1)
  ]

  -- The loop goes on behind a message.
  abbrev resume : Next → List Bytes → Option (Outcome Bytes)
  resume (again rc) more = answer name cmd rc more
  resume (stop o) more = some o

  answer-deliver :
      (ps : List Bytes) (rc r' : Reassembler) (m : Message) (more : List Bytes)
      → deliver rc ps ≡ (done m, r', more)
      → answer name cmd rc ps ≡ resume (after_message name cmd r' m) more
  unfolding deliver answer after_report after_fed
  answer-deliver [] rc r' m more h = cc
  answer-deliver (p ∷ ps) rc r' m more h = ground (arith, answer-deliver ps (feed rc p).1 r' m more)

  answer-packets :
      (rc : Reassembler) (ch c : ℕ) (content : Bytes) (more : List Bytes)
      → rc.channel ≡ ch
      → ch < 2 ^ 32
      → c < 128
      → length content ≤ 7609
      → (r' : Reassembler) × (answer name cmd rc (packets ch c content ++ more)
          ≡ resume (after_message name cmd r' (message ch c content)) more)
        × (r'.channel ≡ ch)
  answer-packets rc ch c content more e hc hm fits =
      let hc' : rc.channel < 2 ^ 32 = omega arith in
      let (r', d, same, _) = deliver-packets rc c content more hc' hm fits in
      let shape : (channel : ℕ) → Type 0 = λ channel.
        answer name cmd rc (packets channel c content ++ more)
        ≡ resume (after_message name cmd r' (message channel c content)) more in
      (r', subst shape e (answer-deliver _ rc r' _ more d), same ∙ e)

  -- Any number of keepalives on the channel, then the reports of a message that is none: the loop
  -- answers by the verdict on that message.
  pub answer-keepalives :
      (ks : List Bytes) (rc : Reassembler) (ch c : ℕ) (content : Bytes) (more : List Bytes)
      → rc.channel ≡ ch
      → ch < 2 ^ 32
      → c < 128
      → c ≢ cmd_keepalive
      → length content ≤ 7609
      → All (λ k. length k ≤ 7609) ks
      → answer name cmd rc (keepalives ch ks ++ (packets ch c content ++ more))
        ≡ some (verdict (message ch c content))
  unfolding after_message
  answer-keepalives [] rc ch c content more e hc hm hk fits hs =
      let (r', d, same) = answer-packets rc ch c content more e hc hm fits in ground arith
  answer-keepalives (k ∷ ks) rc ch c content more e hc hm hk fits hs =
      let (r', d, same) =
        answer-packets rc ch cmd_keepalive k (keepalives ch ks ++ (packets ch c content ++ more)) e
          hc (omega arith) hs.0 in
      rw
        (append_assoc (packets ch cmd_keepalive k) (keepalives ch ks)
          (packets ch c content ++ more))
        (d ∙ answer-keepalives ks r' ch c content more same hc hm hk fits hs.1)
