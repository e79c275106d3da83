-- ===== src/Session/Panic.antt =====
-- When `roundTrip` panics.
use fido.Base.{ℕ, length, ◌≤◌, ◌↔◌, zero, suc, ◌≡◌, ◌≢◌, ap, ◌∙◌, arith, true, false}
use fido.Base.{Bool-cases, inl, inr, List, [], ◌∷◌}
use fido.Base.Bits.{Bytes}
use fido.Errors.{no_answer, Text}
use fido.Framing.{split}
use fido.Reassembly.{Reassembler, Fed, feed, new_reassembler}
use fido.Transport.{Transport, Outcome, panic}
use fido.Session.Stream.{Next-cases}
use fido.Session.Exchange.{round_trip-too_long, round_trip_detached}
use native.Mathlib.Decide.{dec_lt}
use fido.Framing.{packets}
use fido.Session.Await.{Received-cases, await-again, await-stop, await-broken}
use fido.Session.{Key, stop, after_message, after_fed, after_report, send_all, await}
use fido.Session.{round_trip}

after_fed-ne-panic :
    (name : Text) (cmd : ℕ) (f : Fed) (rc : Reassembler) → after_fed name cmd f rc ≢ stop panic
unfolding after_fed after_message
after_fed-ne-panic name cmd f rc h = ground arith

module _ {S : Type 0} (t : Transport S) where
  send_all-ne-panic :
      (k : Key) (ps : List Bytes) (s : S) → k.attached ≡ true → (send_all t k ps s).0 ≢ panic
  unfolding send_all
  send_all-ne-panic k [] s a h = cc
  send_all-ne-panic k (p ∷ ps) s a h = ground (arith, send_all-ne-panic k ps (t.send p s).1)

  await-ne-panic :
      (fuel cmd : ℕ) (k : Key) (rc : Reassembler) (s : S)
      → k.attached ≡ true
      → (await t fuel k cmd rc s).0 ≢ panic
  await-ne-panic zero cmd k rc s a h = unfold await in cc
  await-ne-panic (suc fuel) cmd k rc s a h = elim (Received-cases (t.receive s)) [
    | inl (p, u, got) ↦ elim (Next-cases (after_report t.name cmd rc p)) [
      | inl (rc', e) ↦
          await-ne-panic fuel cmd k rc' u a
            (rw (await-again t fuel cmd k rc rc' p s u a got e) at h)
      | inr (o, e) ↦
          let o' : o ≡ panic = rw (await-stop t fuel cmd k rc p s u o a got e) at h in
          after_fed-ne-panic t.name cmd (feed rc p).0 (feed rc p).1
            (unfold after_report in (e ∙ ap stop o'))
    ]
    | inr (c, u, got) ↦
        let o : Outcome.error (no_answer t.name c) ≡ panic =
          rw (await-broken t fuel cmd k rc c s u a got) at h in
        cc
  ]

  round_trip-ne-panic :
      (fuel cmd : ℕ) (k : Key) (content : Bytes) (s : S)
      → k.attached ≡ true
      → (round_trip t fuel k cmd content s).0 ≢ panic
  unfolding round_trip split
  round_trip-ne-panic fuel cmd k content s a h = ground (
    arith,
    send_all-ne-panic k (packets k.channel cmd content) s a,
    await-ne-panic fuel cmd k (new_reassembler k.channel)
        (send_all t k (packets k.channel cmd content) s).1 a,
  )

  -- A round trip panics exactly if the key has been closed and the message is not too long, and then
  -- the transport is not touched.
  pub round_trip-panic :
      (fuel cmd : ℕ) (k : Key) (content : Bytes) (s : S)
      → (((round_trip t fuel k cmd content s).0 ≡ panic)
          ↔ (k.attached ≡ false) × (length content ≤ 7609))
        × ((round_trip t fuel k cmd content s).0 ≡ panic
            → (round_trip t fuel k cmd content s).1 ≡ s)
  round_trip-panic fuel cmd k content s = elim (Bool-cases k.attached) [
    | inl on ↦
        let never = round_trip-ne-panic fuel cmd k content s on in
        ((λ h. absurd (never h), λ c. cc), λ h. absurd (never h))
    | inr off ↦ elim (dec_lt 7609 (length content)) [
      | yes over ↦
          let refused = round_trip-too_long t fuel cmd k content s over in
          ((λ h. cc, λ c. absurd (omega arith)), λ h. cc)
      | no fits ↦
          let gone = round_trip_detached t fuel cmd k content s off (omega arith) in
          ((λ h. (off, omega arith), λ c. ap (λ x. x.0) gone), λ h. ap (λ x. x.1) gone)
    ]
  ]
