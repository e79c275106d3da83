-- ===== src/Session/Await.antt =====
-- The loop of `roundTrip` over a transport: what it returns, and that it returns.
use fido.Base.{ℕ, zero, suc, ◌≤◌, ◌<◌, ◌≡◌, ◌≢◌, refl, sym, ◌∙◌, ap, arith}
use fido.Base.{true, false, ◌⊎◌, inl, inr, some}
use fido.Base.{List, [], ◌∷◌, length}
use fido.Base.Bits.{Bytes}
use fido.Errors.{Text, no_answer}
use fido.Reassembly.{Reassembler, Fed, feed}
use fido.Transport.{Transport, Received, report, broken, Outcome, value, error, panic, waiting}
use fido.Session.{Key, again, stop, after_message, after_fed, after_report, await}
use fido.Session.Stream.{answer, answer-again, answer-stop, Next-cases}
use mathlib.Core.Option.{some-injective}

pub Received-cases :
    {S : Type 0} (x : Received × S)
    → ((p : Bytes) × (u : S) × (x ≡ (report p, u))) ⊎ ((c : Text) × (u : S) × (x ≡ (broken c, u)))
Received-cases (report p, u) = inl (p, u, refl)
Received-cases (broken c, u) = inr (c, u, refl)

after_fed-ne-waiting :
    (name : Text) (cmd : ℕ) (f : Fed) (rc : Reassembler) → after_fed name cmd f rc ≢ stop waiting
unfolding after_fed after_message
after_fed-ne-waiting name cmd f rc h = ground arith

module _ {S : Type 0} (t : Transport S) where
  -- The transport gives these reports, one after the other, from the first state to the last.
  abbrev pub Delivers : S → List Bytes → S → Type 0
  Delivers s [] s' = s ≡ s'
  Delivers s (p ∷ ps) s' = (u : S) × (t.receive s ≡ (report p, u)) × Delivers u ps s'

  pub await-again :
      (fuel cmd : ℕ) (k : Key) (rc rc' : Reassembler) (p : Bytes) (s u : S)
      → k.attached ≡ true
      → t.receive s ≡ (report p, u)
      → after_report t.name cmd rc p ≡ again rc'
      → await t (suc fuel) k cmd rc s ≡ await t fuel k cmd rc' u
  unfolding await
  await-again fuel cmd k rc rc' p s u a got e = ground arith

  pub await-stop :
      (fuel cmd : ℕ) (k : Key) (rc : Reassembler) (p : Bytes) (s u : S) (o : Outcome Bytes)
      → k.attached ≡ true
      → t.receive s ≡ (report p, u)
      → after_report t.name cmd rc p ≡ stop o
      → await t (suc fuel) k cmd rc s ≡ (o, u)
  unfolding await
  await-stop fuel cmd k rc p s u o a got e = ground arith

  pub await-answer :
      (ps : List Bytes) (fuel cmd : ℕ) (k : Key) (rc : Reassembler) (s s' : S) (o : Outcome Bytes)
      → k.attached ≡ true
      → Delivers s ps s'
      → length ps ≤ fuel
      → answer t.name cmd rc ps ≡ some o
      → (await t fuel k cmd rc s).0 ≡ o
  await-answer [] fuel cmd k rc s s' o a d f h = unfold answer in cc
  await-answer (p ∷ ps) zero cmd k rc s s' o a d f h = absurd (omega arith)
  await-answer (p ∷ ps) (suc fuel) cmd k rc s s' o a (u, got, d) f h =
      elim (Next-cases (after_report t.name cmd rc p)) [
        | inl (rc', e) ↦ rw (await-again fuel cmd k rc rc' p s u a got e) (
            await-answer ps fuel cmd k rc' u s' o a d (omega arith)
              (sym (answer-again t.name cmd rc rc' p ps e) ∙ h))
        | inr (o', e) ↦
            rw (await-stop fuel cmd k rc p s u o' a got e)
              (some-injective _ _ (sym (answer-stop t.name cmd rc p ps o' e) ∙ h))
      ]

  pub await-broken :
      (fuel cmd : ℕ) (k : Key) (rc : Reassembler) (c : Text) (s u : S)
      → k.attached ≡ true
      → t.receive s ≡ (broken c, u)
      → await t (suc fuel) k cmd rc s ≡ (error (no_answer t.name c), u)
  unfolding await
  await-broken fuel cmd k rc c s u a got = ground arith

  pub await_detached :
      (fuel cmd : ℕ) (k : Key) (rc : Reassembler) (s : S)
      → k.attached ≡ false
      → await t (suc fuel) k cmd rc s ≡ (panic, s)
  unfolding await
  await_detached fuel cmd k rc s a = ground arith

  pub await_sound :
      (fuel cmd : ℕ) (k : Key) (rc : Reassembler) (s s' : S) (content : Bytes)
      → k.attached ≡ true
      → await t fuel k cmd rc s ≡ (value content, s')
      → (ps : List Bytes) × Delivers s ps s' × (answer t.name cmd rc ps ≡ some (value content))
  await_sound zero cmd k rc s s' content a h = unfold await in cc
  await_sound (suc fuel) cmd k rc s s' content a h = elim (Received-cases (t.receive s)) [
    | inl (p, u, got) ↦ elim (Next-cases (after_report t.name cmd rc p)) [
      | inl (rc', e) ↦
          let (ps, d, found) =
            await_sound fuel cmd k rc' u s' content a
              (sym (await-again fuel cmd k rc rc' p s u a got e) ∙ h) in
          (p ∷ ps, (u, got, d), answer-again t.name cmd rc rc' p ps e ∙ found)
      | inr (o, e) ↦
          let last : (o, u) ≡ (value content, s') =
            sym (await-stop fuel cmd k rc p s u o a got e) ∙ h in
          (
            p ∷ [],
            (u, got, ap (λ x. x.1) last),
            answer-stop t.name cmd rc p [] o e ∙ ap (λ x. some x.0) last,
          )
    ]
    | inr (c, u, got) ↦ absurd (cc (await-broken fuel cmd k rc c s u a got))
  ]

  -- The loop ends once the transport fails, with fuel for the reports before that, and more fuel
  -- changes nothing.
  pub await_total :
      (ps : List Bytes) (fuel cmd : ℕ) (k : Key) (rc : Reassembler) (c : Text) (s s' u : S)
      → k.attached ≡ true
      → Delivers s ps s'
      → t.receive s' ≡ (broken c, u)
      → length ps < fuel
      → ((await t fuel k cmd rc s).0 ≢ waiting)
        × (await t fuel k cmd rc s ≡ await t (suc (length ps)) k cmd rc s)
  await_total ps zero cmd k rc c s s' u a d b f = absurd (omega arith)
  await_total [] (suc fuel) cmd k rc c s s' u a d b f =
      let got : t.receive s ≡ (broken c, u) = rw d b in
      (
        rw (await-broken fuel cmd k rc c s u a got) (λ e. cc),
        await-broken fuel cmd k rc c s u a got ∙ sym (await-broken 0 cmd k rc c s u a got),
      )
  await_total (p ∷ ps) (suc fuel) cmd k rc c s s' u a (v, got, d) b f =
      elim (Next-cases (after_report t.name cmd rc p)) [
        | inl (rc', e) ↦
            let (ends, same) = await_total ps fuel cmd k rc' c v s' u a d b (omega arith) in
            (
              rw (await-again fuel cmd k rc rc' p s v a got e) ends,
              await-again fuel cmd k rc rc' p s v a got e
                  ∙ same
                  ∙ sym (await-again (suc (length ps)) cmd k rc rc' p s v a got e),
            )
        | inr (o, e) ↦ (
          rw (await-stop fuel cmd k rc p s v o a got e) (λ w. never (e ∙ ap stop w)),
          await-stop fuel cmd k rc p s v o a got e
              ∙ sym (await-stop (suc (length ps)) cmd k rc p s v o a got e),
        )
      ]
    where
      never : after_report t.name cmd rc p ≢ stop waiting
      never = unfold after_report in after_fed-ne-waiting t.name cmd (feed rc p).0 (feed rc p).1
