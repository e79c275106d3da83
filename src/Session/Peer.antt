-- ===== src/Session/Peer.antt =====
-- `roundTrip` between a key and an authenticator that speaks the same protocol, like the one that the
-- tests of key.go play: on each channel it puts the reports that it is sent together with a
-- `Reassembler`, and it cuts its answers with `Split`.
pub mod Turns
use fido.Base.{ℕ, ◌≤◌, ◌<◌, ◌^◌, ◌≡◌, ◌≢◌, refl, sym, ◌∙◌, ap, subst}
use fido.Base.{
  ◌==◌, if◌then◌else◌, arith, true, none, List, [], ◌∷◌, ◌++◌, length, All, append-nil, map, inl,
  inr,
}
use fido.Base.Bits.{Bytes}
use fido.Format.{text}
use fido.Framing.{Message, cmd_keepalive, packets}
use fido.Reassembly.{new_reassembler, Reassembler, Fed, pending, done, failed, feed}
use fido.Reassembly.Packets.{message}
use fido.Reassembly.RoundTrip.{deliver, deliver_pending, deliver_done, deliver_failed}
use fido.Reassembly.RoundTrip.{deliver-packets}
use fido.Transport.{Transport, Received, Outcome, report, broken, value}
use fido.Transport.Bind.{bind-value}
use fido.Session.{Key, send_all, await, round_trip}
use fido.Session.Reply.{keepalives, verdict}
use fido.Session.Await.{Delivers}
use fido.Session.Consume.{Fed-cases, await-keepalives}
use fido.Session.Exchange.{round_trip-fits}
use fido.Session.Wire.{IsOn, packets-IsOn}
use fido.Session.Reply.{feed-channel}
use fido.Reassembly.Bounds.{channel_of}

-- What an authenticator makes of a message: keepalives while it works, then one message.
pub record Answer : Type 0 where
  pub pauses : List Bytes
  pub cmd : ℕ
  pub content : Bytes

-- An answer that the framing can carry.
pub record IsSayable (a : Answer) : Type 0 where
  pub cmd_fits : a.cmd < 128
  pub whole : a.cmd ≢ cmd_keepalive
  pub content_fits : length a.content ≤ 7609
  pub pauses_fit : All (λ x. length x ≤ 7609) a.pauses

-- An authenticator: what it has of a message on each channel, the reports it has not sent yet, and
-- what it remembers.
pub record Peer (H : Type 0) : Type 0 where
  pub rc : ℕ → Reassembler
  pub queue : List Bytes
  pub memory : H

abbrev pub reports : ℕ → Answer → List Bytes
reports ch a = keepalives ch a.pauses ++ packets ch a.cmd a.content

abbrev receive_queued : {H : Type 0} → List Bytes → Peer H → Received × Peer H
receive_queued [] s = (broken (text "empty"), s)
receive_queued (p ∷ ps) s = (report p, record s { queue = ps })

abbrev pub updated : (ℕ → Reassembler) → ℕ → Reassembler → ℕ → Reassembler
updated rc ch r c = if c == ch then r else rc c

-- Each channel has a reassembler of its own.
abbrev pub AreTuned : (ℕ → Reassembler) → Type 0
AreTuned rc = (c : ℕ) → (rc c).channel ≡ c

-- Between two exchanges: nothing is left to send.
pub record IsIdle {H : Type 0} (s : Peer H) : Type 0 where
  pub tuned : AreTuned s.rc
  pub quiet : s.queue ≡ []

module _ {H : Type 0} (handle : Message → H → Answer × H) where
  abbrev pub respond : Fed → H → List Bytes × H
  respond pending h = ([], h)
  respond (failed e) h = ([], h)
  respond (done m) h = let (a, h') = handle m h in (reports m.channel a, h')

  abbrev take_report : Bytes → Peer H → Peer H
  take_report p s =
      let (answer, r) = feed (s.rc (channel_of p)) p in
      let (out, h) = respond answer s.memory in
      record { rc = updated s.rc (channel_of p) r; queue = s.queue ++ out; memory = h }

  abbrev pub peer : Transport (Peer H)
  peer = record {
    send = λ p s. (none, take_report p s);
    receive = λ s. receive_queued s.queue s;
    name = text "peer";
    close = λ s. (none, s);
  }

  -- The outcome that the answer to a command deserves, and what the authenticator remembers then.
  abbrev pub serve : ℕ → ℕ × Bytes → H → Outcome Bytes × H
  serve ch (cmd, content) h =
      let (a, h') = handle (message ch cmd content) h in
      (verdict peer.name cmd (message ch a.cmd a.content), h')

  -- The authenticator without the wire: command after command.
  abbrev pub serve_all : ℕ → List (ℕ × Bytes) → H → List (Outcome Bytes) × H
  serve_all ch [] h = ([], h)
  serve_all ch (c ∷ cs) h =
      let (o, h') = serve ch c h in let (os, end) = serve_all ch cs h' in (o ∷ os, end)

  -- A command that the framing can carry, with an answer that it can carry and fuel for its reports.
  pub record IsCarried (fuel ch : ℕ) (c : ℕ × Bytes) (h : H) : Type 0 where
    pub cmd_fits : c.0 < 128
    pub content_fits : length c.1 ≤ 7609
    pub sayable : IsSayable (handle (message ch c.0 c.1) h).0
    pub enough : length (reports ch (handle (message ch c.0 c.1) h).0) ≤ fuel

  -- Each command is carried, by what the authenticator remembers when it is its turn.
  abbrev pub AreCarried : ℕ → ℕ → List (ℕ × Bytes) → H → Type 0
  AreCarried fuel ch [] h = Unit {0}
  AreCarried fuel ch (c ∷ cs) h = IsCarried fuel ch c h × AreCarried fuel ch cs (serve ch c h).1

  -- Commands sent one after the other, each by a `roundTrip` of its own.
  abbrev pub exchanges : ℕ → Key → List (ℕ × Bytes) → Peer H → List (Outcome Bytes) × Peer H
  exchanges fuel k [] s = ([], s)
  exchanges fuel k (c ∷ cs) s =
      let (o, s') = round_trip peer fuel k c.0 c.1 s in
      let (os, end) = exchanges fuel k cs s' in (o ∷ os, end)
