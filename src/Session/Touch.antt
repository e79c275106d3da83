-- ===== src/Session/Touch.antt =====
-- A key touches its transport by sending and receiving alone, and only while it is open.
use fido.Base.{ℕ, zero, suc, ◌≡◌, arith, true, Bool-cases, inl, inr}
use fido.Base.{List, [], ◌∷◌, length}
use fido.Base.Bits.{Bytes}
use fido.Framing.{cmd_ping}
use fido.Reassembly.{Reassembler}
use fido.Transport.{Transport, value}
use fido.Transport.Keeps.{keeps_rules, Keeps}
use native.Mathlib.Decide.{dec_lt}
use fido.Session.{Key, name, key_text, send_all, await, after_report, round_trip, ping, wink}
use fido.Session.Stream.{Next-cases}
use fido.Session.Await.{Received-cases, await-again, await-stop, await-broken, await_detached}
use fido.Session.Exchange.{round_trip_detached, round_trip-too_long}

module _ {S : Type 0} (t : Transport S) (k : Key) where
  -- A round trip comes to a value only on an open key.
  pub round_trip-attached :
      (fuel cmd : ℕ) (content reply : Bytes) (s s' : S)
      → round_trip t fuel k cmd content s ≡ (value reply, s')
      → k.attached ≡ true
  round_trip-attached fuel cmd content reply s s' h = elim (Bool-cases k.attached) [
    | inl on ↦ on
    | inr off ↦ elim (dec_lt 7609 (length content)) [
      | yes over ↦ absurd (cc (round_trip-too_long t fuel cmd k content s over))
      | no within ↦ absurd (cc (round_trip_detached t fuel cmd k content s off (omega arith)))
    ]
  ]

  module _ (P : S → Type 0)
      (sends : k.attached ≡ true → (p : Bytes) (s : S) → P s → P (t.send p s).1)
      (receives : k.attached ≡ true → (s : S) → P s → P (t.receive s).1) where
    pub Keeps-name : Keeps P (name t k)
    unfolding name
    Keeps-name = record { at = λ s h. ground arith }

    pub Keeps-key_text : Keeps P (key_text t k)
    unfolding key_text
    Keeps-key_text = search (keeps_rules, Keeps-name)

    Keeps-send_all : (ps : List Bytes) → Keeps P (send_all t k ps)
    unfolding send_all
    Keeps-send_all [] = record { at = λ s h. h }
    Keeps-send_all (p ∷ ps) = record {
      at = λ s h. elim (Bool-cases k.attached) [
        | inr off ↦ rw off h
        | inl on ↦ ground (arith, sends on p s h, (Keeps-send_all ps).at (t.send p s).1)
      ];
    }

    Keeps-await : (fuel cmd : ℕ) (rc : Reassembler) → Keeps P (await t fuel k cmd rc)
    Keeps-await zero cmd rc = record { at = λ s h. unfold await in h }
    Keeps-await (suc fuel) cmd rc = record {
      at = λ s h. elim (Bool-cases k.attached) [
        | inr off ↦ rw (await_detached t fuel cmd k rc s off) h
        | inl on ↦ elim (Received-cases (t.receive s)) [
          | inr (c, u, got) ↦
              rw (await-broken t fuel cmd k rc c s u on got) (rw got at (receives on s h))
          | inl (p, u, got) ↦
              let h' : P u = rw got at (receives on s h) in
              elim (Next-cases (after_report t.name cmd rc p)) [
                | inl (rc', e) ↦
                    rw (await-again t fuel cmd k rc rc' p s u on got e)
                      ((Keeps-await fuel cmd rc').at u h')
                | inr (o, e) ↦ rw (await-stop t fuel cmd k rc p s u o on got e) h'
              ]
        ]
      ];
    }

    pub Keeps-round_trip :
        (fuel cmd : ℕ) (content : Bytes) → Keeps P (round_trip t fuel k cmd content)
    unfolding round_trip
    Keeps-round_trip fuel cmd content = search (keeps_rules, Keeps-send_all, Keeps-await)

    pub Keeps-ping : (fuel : ℕ) (content : Bytes) → Keeps P (ping t fuel k content)
    unfolding ping
    Keeps-ping fuel content = Keeps-round_trip fuel cmd_ping content

    pub Keeps-wink : (fuel : ℕ) → Keeps P (wink t fuel k)
    unfolding wink
    Keeps-wink fuel = search (keeps_rules, Keeps-name, Keeps-round_trip)
