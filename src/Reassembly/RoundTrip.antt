-- ===== src/Reassembly/RoundTrip.antt =====
-- A reassembler that is fed what `Split` sent gives the message back.
use fido.Base.{ℕ, zero, suc, ◌+◌, ◌-◌, ◌*◌, ◌^◌, ◌≤◌, ◌<◌, ◌≡◌, refl, ap, ◌∙◌}
use fido.Base.{true, false, arith}
use fido.Base.{List, [], ◌∷◌, ◌++◌, length, take, drop, append_assoc}
use fido.Base.{length-drop, drop_all, take-append-drop}
use native.Mathlib.Decide.{dec_lt}
use fido.Base.Bits.{Bytes}
use fido.Framing.{init_payload, cont_payload, copy_into, Message}
use fido.Framing.{first_packet, next_packet, continuations, packets, split}
use fido.Errors.{Error, ok}
use fido.Reassembly.Packets.{
  message, midway, feed-next_packet, feed-first_packet, finish_last, finish_more,
}
use fido.Reassembly.{Reassembler, Fed, pending, done, failed, finish, feed}

-- Reports are fed one after the other until one of them gives an answer. What is left of the
-- reports is returned with it.
unfoldable pub deliver : Reassembler → List Bytes → Fed × Reassembler × List Bytes
deliver r [] = (pending, r, [])
deliver r (p ∷ ps) =
    let (answer, r') = feed r p in
    elim answer [
      | pending ↦ deliver r' ps
      | done m ↦ (done m, r', ps)
      | failed e ↦ (failed e, r', ps)
    ]

pub deliver_pending :
    (r r' : Reassembler) (p : Bytes) (ps : List Bytes)
    → feed r p ≡ (pending, r')
    → deliver r (p ∷ ps) ≡ deliver r' ps
unfolding deliver
deliver_pending r r' p ps h = ground arith

pub deliver_done :
    (r r' : Reassembler) (p : Bytes) (ps : List Bytes) (m : Message)
    → feed r p ≡ (done m, r')
    → deliver r (p ∷ ps) ≡ (done m, r', ps)
unfolding deliver
deliver_done r r' p ps m h = ground arith

pub deliver_failed :
    (r r' : Reassembler) (p : Bytes) (ps : List Bytes) (e : Error)
    → feed r p ≡ (failed e, r')
    → deliver r (p ∷ ps) ≡ (failed e, r', ps)
unfolding deliver
deliver_failed r r' p ps e h = ground arith

continuations-nil : (fuel channel seq : ℕ) → continuations fuel channel seq [] ≡ []
unfolding continuations
continuations-nil zero channel seq = refl
continuations-nil (suc fuel) channel seq = refl

deliver-continuations :
    (fuel channel cmd seq : ℕ) (acc rest : Bytes) (more : List Bytes)
    → channel < 2 ^ 32
    → 1 ≤ length rest
    → length rest ≤ fuel
    → length rest + 59 * seq ≤ 7552
    → (r : Reassembler) × (deliver
          (midway channel cmd acc (length acc + length rest) seq true)
          (continuations fuel channel seq rest ++ more)
        ≡ (done (message channel cmd (acc ++ rest)), r, more))
      × (r.channel ≡ channel)
      × (r.started ≡ false)
unfolding continuations
deliver-continuations zero channel cmd seq acc rest more hc h1 hf hs = absurd (omega arith)
deliver-continuations (suc fuel) channel cmd seq acc [] more hc h1 hf hs = absurd (omega arith)
deliver-continuations (suc fuel) channel cmd seq acc (b ∷ bs) more hc h1 hf hs =
    elim (dec_lt cont_payload (length (b ∷ bs))) [
      | yes long ↦
          rw
            (deliver_pending _ _ _ _ (fed ∙ finish_more channel cmd (seq + 1) 59 acc (b ∷ bs) long))
            (rw whole at (
              deliver-continuations fuel channel cmd (seq + 1) (acc ++ take cont_payload (b ∷ bs))
                (drop cont_payload (b ∷ bs)) more hc (omega (arith, left)) (omega (arith, left))
                (omega (arith, left))))
      | no short ↦
          let last : length (b ∷ bs) ≤ 59 = omega arith in
          let over : continuations fuel channel (seq + 1) (drop cont_payload (b ∷ bs)) ≡ [] =
            rw (drop_all 59 (b ∷ bs) last) (continuations-nil fuel channel (seq + 1)) in
          (
            midway channel cmd (acc ++ copy_into 59 (b ∷ bs)) (length acc + length (b ∷ bs))
                (seq + 1) false,
            rw over (
                deliver_done _ _ _ _ _
                  (fed ∙ finish_last channel cmd (seq + 1) 59 acc (b ∷ bs) last)),
            refl,
            refl,
          )
    ]
  where
    left : length (drop cont_payload (b ∷ bs)) ≡ length (b ∷ bs) - 59
    left = length-drop cont_payload (b ∷ bs)

    whole : (acc ++ take cont_payload (b ∷ bs)) ++ drop cont_payload (b ∷ bs) ≡ acc ++ (b ∷ bs)
    whole =
        append_assoc acc (take cont_payload (b ∷ bs)) _
        ∙ ap (λ t. acc ++ t) (take-append-drop cont_payload (b ∷ bs))

    fed :
        feed
          (midway channel cmd acc (length acc + length (b ∷ bs)) seq true)
          (next_packet channel seq (b ∷ bs))
        ≡ finish (
            midway channel cmd
              (acc ++ copy_into cont_payload (b ∷ bs))
              (length acc + length (b ∷ bs))
              (seq + 1)
              true)
    fed = feed-next_packet channel cmd _ seq acc (b ∷ bs) hc (omega arith)

pub deliver-packets :
    (r : Reassembler) (cmd : ℕ) (content : Bytes) (more : List Bytes)
    → r.channel < 2 ^ 32
    → cmd < 128
    → length content ≤ 7609
    → (r' : Reassembler) × (deliver r (packets r.channel cmd content ++ more)
        ≡ (done (message r.channel cmd content), r', more))
      × (r'.channel ≡ r.channel)
      × (r'.started ≡ false)
unfolding packets
deliver-packets r cmd content more hc hm fits = elim (dec_lt init_payload (length content)) [
  | yes long ↦ rw (deliver_pending _ _ _ _ (fed ∙ finish_more r.channel cmd 0 57 [] content long)) (
      rw (take-append-drop init_payload content) at (
        deliver-continuations (length content) r.channel cmd 0 (take init_payload content)
          (drop init_payload content) more hc (omega (arith, left)) (omega (arith, left))
          (omega (arith, left))))
  | no short ↦
      let last : length content ≤ 57 = omega arith in
      let over : continuations (length content) r.channel 0 (drop init_payload content) ≡ [] =
        rw (drop_all 57 content last) (continuations-nil (length content) r.channel 0) in
      (
        midway r.channel cmd (copy_into 57 content) (0 + length content) 0 false,
        rw over (deliver_done _ _ _ _ _ (fed ∙ finish_last r.channel cmd 0 57 [] content last)),
        refl,
        refl,
      )
]
  where
    left : length (drop init_payload content) ≡ length content - 57
    left = length-drop init_payload content

    size : 0 + length content ≡ length content
    size = omega arith

    fed :
        feed r (first_packet r.channel cmd content)
        ≡ finish (midway r.channel cmd (copy_into init_payload content) (0 + length content) 0 true)
    fed = rw size (feed-first_packet r cmd content hc hm (omega arith))

-- Whatever the reassembler held before, the reports that `Split` makes for its channel give the
-- message back with the last of them, the reports behind them untouched, and it is ready for the
-- next message of the same channel.
pub deliver-split :
    (r : Reassembler) (cmd : ℕ) (content : Bytes) (ps more : List Bytes)
    → r.channel < 2 ^ 32
    → cmd < 128
    → split r.channel cmd content ≡ ok ps
    → (r' : Reassembler) × (deliver r (ps ++ more)
        ≡ (done (message r.channel cmd content), r', more))
      × (r'.channel ≡ r.channel)
      × (r'.started ≡ false)
unfolding split
deliver-split r cmd content ps more hc hm e =
    let fits : length content ≤ 7609 = ground arith in
    let same : packets r.channel cmd content ≡ ps = ground arith in
    rw (← same) (deliver-packets r cmd content more hc hm fits)
