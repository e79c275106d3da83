-- ===== src/Session/Stream.antt =====
-- The loop of `roundTrip` over the list of reports that arrive, against two descriptions of it:
-- the whole messages among them, and the reports of the key's own channel.
use fido.Base.{ℕ, ◌≡◌, ◌≢◌, refl, sym, ◌∙◌, ap, arith}
use fido.Base.{◌⊎◌, inl, inr, Option, none, some}
use mathlib.Core.Option.{some-injective}
use fido.Base.{List, [], ◌∷◌, ◌++◌, All}
use fido.Base.Bits.{Bytes}
use fido.Errors.{Text}
use fido.Framing.{Message, cmd_keepalive, cmd_error}
use fido.Reassembly.{Reassembler, Fed, pending, done, failed, feed}
use fido.Transport.{Outcome, value}
use fido.Session.{Next, again, stop, after_message, after_fed, after_report}

-- The message that a report completes.
abbrev pub completed : Fed → List Message
completed pending = []
completed (failed e) = []
completed (done m) = m ∷ []

-- Every message that the reports complete, whether or not some of them are refused.
abbrev pub messages : Reassembler → List Bytes → List Message
messages rc [] = []
messages rc (p ∷ ps) = let (answer, rc') = feed rc p in completed answer ++ messages rc' ps

abbrev pub IsKeepalive : Message → Type 0
IsKeepalive m = m.cmd ≡ cmd_keepalive

-- A message that answers `cmd` with `content`.
abbrev pub Reply : ℕ → Bytes → Message → Type 0
Reply cmd content m =
    (m.cmd ≡ cmd) × (m.cmd ≢ cmd_keepalive) × (m.cmd ≢ cmd_error) × (m.content ≡ content)

-- After some keepalives, the first other message is a reply to `cmd` that holds `content`.
abbrev pub Answered : ℕ → Bytes → List Message → Type 0
Answered cmd content ms =
    (ks : List Message) × (m : Message) × (more : List Message) × (ms ≡ ks ++ (m ∷ more))
    × All IsKeepalive ks
    × Reply cmd content m

Answered-keepalive :
    (cmd : ℕ) (content : Bytes) (k : Message) (ms : List Message)
    → IsKeepalive k
    → Answered cmd content ms
    → Answered cmd content (k ∷ ms)
Answered-keepalive cmd content k ms h (ks, m, more, e, a, reply) =
    (k ∷ ks, m, more, ap (λ t. k ∷ t) e, (h, a), reply)

pub Next-cases :
    (n : Next) → ((rc : Reassembler) × (n ≡ again rc)) ⊎ ((o : Outcome Bytes) × (n ≡ stop o))
Next-cases (again rc) = inl (rc, refl)
Next-cases (stop o) = inr (o, refl)

module _ (name : Text) (cmd : ℕ) where
  -- The loop over a list: none means that it still waits for more.
  unfoldable pub answer : Reassembler → List Bytes → Option (Outcome Bytes)
  answer rc [] = none
  answer rc (p ∷ ps) = elim (after_report name cmd rc p) [
    | again rc' ↦ answer rc' ps
    | stop o ↦ some o
  ]

  after_fed-again :
      (f : Fed) (rc rc' : Reassembler)
      → after_fed name cmd f rc ≡ again rc'
      → (rc' ≡ rc) × All IsKeepalive (completed f)
  unfolding after_fed after_message
  after_fed-again f rc rc' h = ground arith

  after_fed-value :
      (f : Fed) (rc : Reassembler) (content : Bytes)
      → after_fed name cmd f rc ≡ stop (value content)
      → (m : Message) × (f ≡ done m) × Reply cmd content m
  unfolding after_fed after_message
  after_fed-value pending rc content h = cc
  after_fed-value (failed e) rc content h = absurd (ground arith)
  after_fed-value (done m) rc content h =
      (m, refl, (ground arith, ground arith, ground arith, ground arith))

  Answered-completed :
      (f : Fed) (content : Bytes) (ms : List Message)
      → All IsKeepalive (completed f)
      → Answered cmd content ms
      → Answered cmd content (completed f ++ ms)
  Answered-completed pending content ms h a = a
  Answered-completed (failed e) content ms h a = a
  Answered-completed (done m) content ms h a = Answered-keepalive cmd content m ms h.0 a

  Answered-first :
      (f : Fed) (content : Bytes) (ms : List Message)
      → ((m : Message) × (f ≡ done m) × Reply cmd content m)
      → Answered cmd content (completed f ++ ms)
  Answered-first f content ms (m, e, rest) = rw e ([], m, ms, refl, tt, rest)

  pub answer-again :
      (rc rc' : Reassembler) (p : Bytes) (ps : List Bytes)
      → after_report name cmd rc p ≡ again rc'
      → answer rc (p ∷ ps) ≡ answer rc' ps
  unfolding answer
  answer-again rc rc' p ps e = rw (e, answer)

  pub answer-stop :
      (rc : Reassembler) (p : Bytes) (ps : List Bytes) (o : Outcome Bytes)
      → after_report name cmd rc p ≡ stop o
      → answer rc (p ∷ ps) ≡ some o
  unfolding answer
  answer-stop rc p ps o e = rw (e, answer)

  -- A value that the loop returns is the content of the first message on the channel that is no
  -- keepalive, and that message answers the command that was sent.
  pub answer-Answered :
      (ps : List Bytes) (rc : Reassembler) (content : Bytes)
      → answer rc ps ≡ some (value content)
      → Answered cmd content (messages rc ps)
  unfolding answer after_report
  answer-Answered [] rc content h = cc
  answer-Answered (p ∷ ps) rc content h = elim (Next-cases (after_report name cmd rc p)) [
    | inl (rc', e) ↦
        let (same, keep) = after_fed-again (feed rc p).0 (feed rc p).1 rc' e in
        Answered-completed (feed rc p).0 content (messages (feed rc p).1 ps) keep (
          answer-Answered ps (feed rc p).1 content
            (rw same at (sym (answer-again rc rc' p ps e)) ∙ h))
    | inr (o, e) ↦
        let e' : o ≡ value content = some-injective _ _ (sym (answer-stop rc p ps o e) ∙ h) in
        Answered-first (feed rc p).0 content (messages (feed rc p).1 ps)
          (after_fed-value (feed rc p).0 (feed rc p).1 content (e ∙ ap stop e'))
  ]
