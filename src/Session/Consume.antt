-- ===== src/Session/Consume.antt =====
-- The loop of `roundTrip` over whole messages: where it goes on, and in which state it ends.
use fido.Base.{ℕ, zero, suc, ◌≤◌, ◌<◌, ◌^◌, ◌≡◌, ◌≢◌, refl, sym, ◌∙◌, ap, subst, arith}
use fido.Base.{true, ◌⊎◌, inl, inr, List, [], ◌∷◌, ◌++◌, length, All, append-nil, append_assoc}
use fido.Base.Bits.{Bytes}
use fido.Errors.{Text, Error}
use fido.Framing.{Message, cmd_keepalive, packets}
use fido.Reassembly.{Reassembler, Fed, pending, done, failed, feed}
use fido.Reassembly.Packets.{message}
use fido.Reassembly.RoundTrip.{deliver, deliver_pending, deliver_done, deliver_failed}
use fido.Reassembly.RoundTrip.{deliver-packets}
use fido.Transport.{Transport, report, Outcome}
use fido.Session.{Key, Next, again, stop, after_message, after_fed, after_report, await}
use fido.Session.Reply.{keepalives, verdict}
use fido.Session.Await.{Delivers, await-again, await-stop}

pub Fed-cases :
    (x : Fed × Reassembler)
    → ((r : Reassembler) × (x ≡ (pending, r)))
      ⊎ ((m : Message) × (r : Reassembler) × (x ≡ (done m, r)))
      ⊎ ((e : Error) × (r : Reassembler) × (x ≡ (failed e, r)))
Fed-cases (pending, r) = inl (r, refl)
Fed-cases (done m, r) = inr (inl (m, r, refl))
Fed-cases (failed e, r) = inr (inr (e, r, refl))

module _ (name : Text) (cmd : ℕ) (rc : Reassembler) (m : Message) where
  after_message-keepalive : m.cmd ≡ cmd_keepalive → after_message name cmd rc m ≡ again rc
  unfolding after_message
  after_message-keepalive h = ground arith

  after_message-verdict :
      m.cmd ≢ cmd_keepalive → after_message name cmd rc m ≡ stop (verdict name cmd m)
  unfolding after_message
  after_message-verdict h = ground arith

module _ {S : Type 0} (t : Transport S) (cmd : ℕ) (k : Key) (a : k.attached ≡ true) where
  -- The loop behind a message.
  abbrev onward : ℕ → Next → S → Outcome Bytes × S
  onward fuel (again rc) u = await t fuel k cmd rc u
  onward fuel (stop o) u = (o, u)

  -- The loop has come to a message, with these reports and fuel for them left.
  abbrev Reaches : ℕ → Reassembler → S → Next → List Bytes → S → Type 0
  Reaches fuel rc s n more s' =
      (fuel' : ℕ) × (u : S) × (length more ≤ fuel')
      × Delivers t u more s'
      × (await t fuel k cmd rc s ≡ onward fuel' n u)

  await-done :
      (fuel : ℕ) (rc r' : Reassembler) (m : Message) (p : Bytes) (s u : S)
      → t.receive s ≡ (report p, u)
      → feed rc p ≡ (done m, r')
      → await t (suc fuel) k cmd rc s ≡ onward fuel (after_message t.name cmd r' m) u
  unfolding after_report after_fed
  await-done fuel rc r' m p s u got e = go (after_message t.name cmd r' m) refl
    where
      go :
          (n : Next)
          → after_message t.name cmd r' m ≡ n
          → await t (suc fuel) k cmd rc s ≡ onward fuel n u
      go (again rc') h = await-again t fuel cmd k rc rc' p s u a got (rw (e, h))
      go (stop o) h = await-stop t fuel cmd k rc p s u o a got (rw (e, h))

  Reaches-deliver :
      (ps : List Bytes) (fuel : ℕ) (rc r' : Reassembler) (m : Message) (more : List Bytes)
      (s s' : S)
      → deliver rc ps ≡ (done m, r', more)
      → Delivers t s ps s'
      → length ps ≤ fuel
      → Reaches fuel rc s (after_message t.name cmd r' m) more s'
  unfolding deliver after_report after_fed
  Reaches-deliver [] fuel rc r' m more s s' h d f = cc
  Reaches-deliver (p ∷ ps) zero rc r' m more s s' h d f = absurd (omega arith)
  Reaches-deliver (p ∷ ps) (suc fuel) rc r' m more s s' h (u, got, d) f =
      elim (Fed-cases (feed rc p)) [
        | inl (rc', e) ↦
            let (fuel', v, enough, d', same) =
              Reaches-deliver ps fuel rc' r' m more u s' (sym (deliver_pending rc rc' p ps e) ∙ h) d
                (omega arith) in
            (fuel', v, enough, d', await-again t fuel cmd k rc rc' p s u a got (rw e) ∙ same)
        | inr (inl (m₁, rc', e)) ↦
            let last = sym (deliver_done rc rc' p ps m₁ e) ∙ h in
            let rest : ps ≡ more = cc in
            let fed : feed rc p ≡ (done m, r') = cc in
            (
              fuel,
              u,
              rw (← rest) (omega arith),
              subst (λ qs. Delivers t u qs s') rest d,
              await-done fuel rc r' m p s u got fed,
            )
        | inr (inr (x, rc', e)) ↦ absurd (cc (deliver_failed rc rc' p ps x e))
      ]

  Reaches-packets :
      (fuel c ch : ℕ) (rc : Reassembler) (content : Bytes) (more : List Bytes) (s s' : S)
      → rc.channel ≡ ch
      → ch < 2 ^ 32
      → c < 128
      → length content ≤ 7609
      → Delivers t s (packets ch c content ++ more) s'
      → length (packets ch c content ++ more) ≤ fuel
      → (rc' : Reassembler) × (rc'.channel ≡ ch)
        × Reaches fuel rc s (after_message t.name cmd rc' (message ch c content)) more s'
  Reaches-packets fuel c ch rc content more s s' e hc hm fits d f =
      let hc' : rc.channel < 2 ^ 32 = omega arith in
      let (r', whole, same, _) = deliver-packets rc c content more hc' hm fits in
      let whole' =
        subst
          (λ x. deliver rc (packets x c content ++ more) ≡ (done (message x c content), r', more)) e
          whole in
      (r', same ∙ e, Reaches-deliver _ fuel rc r' _ more s s' whole' d f)

  -- Any number of keepalives, then a message that is none, and nothing behind it: the loop ends with
  -- the verdict on that message, in the state behind its last report.
  pub await-keepalives :
      (ks : List Bytes) (fuel c ch : ℕ) (rc : Reassembler) (content : Bytes) (s s' : S)
      → rc.channel ≡ ch
      → ch < 2 ^ 32
      → c < 128
      → c ≢ cmd_keepalive
      → length content ≤ 7609
      → All (λ x. length x ≤ 7609) ks
      → Delivers t s (keepalives ch ks ++ packets ch c content) s'
      → length (keepalives ch ks ++ packets ch c content) ≤ fuel
      → await t fuel k cmd rc s ≡ (verdict t.name cmd (message ch c content), s')
  await-keepalives [] fuel c ch rc content s s' e hc hm hk fits hs d f =
      let (rc', _, (fuel', u, _, same, ends)) =
        Reaches-packets fuel c ch rc content [] s s' e hc hm fits
          (rw (append-nil (packets ch c content)) d) (rw (append-nil (packets ch c content)) f) in
      ends
      ∙ ap (λ n. onward fuel' n u) (after_message-verdict t.name cmd rc' (message ch c content) hk)
      ∙ ap (λ v. (verdict t.name cmd (message ch c content), v)) same
  await-keepalives (x ∷ ks) fuel c ch rc content s s' e hc hm hk fits hs d f =
      let whole =
        append_assoc (packets ch cmd_keepalive x) (keepalives ch ks) (packets ch c content) in
      let (rc', e', (fuel', u, enough, d', goes)) =
        Reaches-packets fuel cmd_keepalive ch rc x (keepalives ch ks ++ packets ch c content) s s' e
          hc (omega arith) hs.0 (rw whole at d) (rw whole at f) in
      goes
      ∙ ap (λ n. onward fuel' n u)
          (after_message-keepalive t.name cmd rc' (message ch cmd_keepalive x) refl)
      ∙ await-keepalives ks fuel' c ch rc' content u s' e' hc hm hk fits hs.1 d' enough
