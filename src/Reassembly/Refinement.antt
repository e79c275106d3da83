-- ===== src/Reassembly/Refinement.antt =====
-- The reassembler keeps what its specification says.
use fido.Base.{ℕ, ◌+◌, ◌-◌, ◌≤◌, ◌<◌, ◌^◌, ◌≡◌, refl, sym, ◌∙◌, ap, subst, arith, inl, inr}
use fido.Base.{false, Bool-cases, ltb, ◌==◌, List, [], ◌∷◌, ◌++◌, length, take, All, bit_and}
use fido.Base.{append_assoc, append-nil, length-append}
use fido.Base.Bits.{Bytes, IsByte, u16, u32, put_u32, put_u16-u16, put_u32-u32}
use fido.Base.Bits.{high_bit, clear_high, and_not}
use fido.Errors.{out_of_order}
use fido.Framing.{Message}
use fido.Reassembly.{Reassembler, Fed, pending, done, failed, finish, feed_init, feed_next, feed}
use fido.Reassembly.Packets.{message}
use mathlib.Core.Path.{ap₂}
use fido.Reassembly.Spec.{
  concat, feed_all, Phase, idle, collecting, head_report, next_report, Settles, whole,
}
use fido.Reassembly.Spec.{
  partial, Step, begin, extend, short, foreign, stray, gap, Represents, Run, here, next,
}

concat-append : (cs ds : List Bytes) → concat (cs ++ ds) ≡ concat cs ++ concat ds
concat-append [] ds = refl
concat-append (c ∷ cs) ds =
    ap (λ t. c ++ t) (concat-append cs ds) ∙ sym (append_assoc c (concat cs) (concat ds))

module _ (ch : ℕ) where
  -- What a report leads to.
  abbrev Follows : Bytes → Phase → Fed × Reassembler → Type 0
  Follows p φ (answer, r) = (φ' : Phase) × Step ch p φ answer φ' × Represents ch φ' r

  finish-Settles :
      (cmd want : ℕ) (first : Bytes) (others : List Bytes) (r : Reassembler)
      → Represents ch (collecting cmd want first others) r
      → (φ' : Phase) × Settles ch cmd want first others (finish r).0 φ'
        × Represents ch φ' (finish r).1
  finish-Settles cmd want first others r (e1, e2, e3, e4, e5) =
      let size : length r.msg.content ≡ length (first ++ concat others) =
        ap (λ (m : Message). length m.content) e3 in
      elim (Bool-cases (ltb (length r.msg.content) r.want)) [
        | inl more ↦
            let step : finish r ≡ (pending, r) = unfold finish in rw more in
            rw step (collecting cmd want first others, partial (ground arith), (e1, e2, e3, e4, e5))
        | inr all ↦
            let made : message r.msg.channel r.msg.cmd (take r.want r.msg.content)
                ≡ message ch cmd (take want (first ++ concat others)) =
              cc in
            let step : finish r ≡ (
              done (message ch cmd (take want (first ++ concat others))),
              record r { started = false },
            ) =
              unfold finish in rw (all, made) in
            rw step (idle, whole (ground arith), (e1, refl))
      ]

  feed_init-Follows :
      (φ : Phase) (r : Reassembler) (b : ℕ) (body : Bytes)
      → 128 ≤ b
      → b < 256
      → ch < 2 ^ 32
      → All IsByte body
      → Represents ch φ r
      → r.channel ≡ ch
      → Follows (put_u32 ch (b ∷ body)) φ (feed_init r ch b body)
  unfolding feed_init
  feed_init-Follows φ r b [] h1 h2 hc hb rep same = (φ, short (omega arith), rep)
  feed_init-Follows φ r b (_ ∷ []) h1 h2 hc hb rep same = (φ, short (omega arith), rep)
  feed_init-Follows φ r b (hi ∷ lo ∷ body) h1 h2 hc hb rep same =
      let cmd : and_not b 128 ≡ b - 128 = omega (arith, clear_high b h2) in
      let msg : message ch (and_not b 128) body ≡ message ch (b - 128) (body ++ []) =
        ap₂ (λ c d. message ch c d) cmd (sym (append-nil body)) in
      let mark : b ≡ 128 + (b - 128) = omega arith in
      let written : put_u32 ch (b ∷ hi ∷ lo ∷ body) ≡ head_report ch (b - 128) (u16 hi lo) body =
        ap₂ (λ x t. put_u32 ch (x ∷ t)) mark (sym (put_u16-u16 hi lo body hb.0 hb.1.0)) in
      let small : b - 128 < 128 = omega arith in
      let fits : u16 hi lo < 2 ^ 16 = omega arith in
      let (φ', settles, rep') =
        finish-Settles (b - 128) (u16 hi lo) body [] _ (same, refl, msg, refl, refl) in
      (φ', begin (b - 128) (u16 hi lo) body small fits written settles, rep')

  feed_next-Follows :
      (φ : Phase) (r : Reassembler) (b : ℕ) (body : Bytes)
      → b < 128
      → Represents ch φ r
      → Follows (put_u32 ch (b ∷ body)) φ (feed_next r b body)
  feed_next-Follows idle r b body h (e1, e2) =
      let step : feed_next r b body ≡ (failed out_of_order, r) = unfold feed_next in rw e2 in
      rw step (idle, stray b body h refl, (e1, e2))
  feed_next-Follows (collecting cmd want first others) r b body h (e1, e2, e3, e4, e5) =
      elim (Bool-cases (b == r.seq)) [
        | inr other ↦
            let step : feed_next r b body ≡ (failed out_of_order, r) =
              unfold feed_next in rw (e2, other) in
            rw step (
              collecting cmd want first others,
              gap cmd want first others b body h (ground arith) refl,
              (e1, e2, e3, e4, e5),
            )
        | inl mine ↦
            let r' : Reassembler = record r {
              seq = r.seq + 1;
              msg = message r.msg.channel r.msg.cmd (r.msg.content ++ body);
            } in
            let step : feed_next r b body ≡ finish r' = unfold feed_next in rw (e2, mine) in
            let number : b ≡ length others = ground arith in
            let joined : (first ++ concat others) ++ body
                ≡ first ++ concat (others ++ (body ∷ [])) =
              append_assoc first (concat others) body
              ∙ ap (λ t. first ++ t)
                  (ap (λ t. concat others ++ t) (sym (append-nil body))
                    ∙ sym (concat-append others (body ∷ []))) in
            let msg : r'.msg ≡ message ch cmd (first ++ concat (others ++ (body ∷ []))) =
              ap (λ (m : Message). message m.channel m.cmd (m.content ++ body)) e3
              ∙ ap (message ch cmd) joined in
            let count : r.seq + 1 ≡ length (others ++ (body ∷ [])) =
              omega (arith, length-append others (body ∷ [])) in
            let (φ', settles, rep') =
              finish-Settles cmd want first (others ++ (body ∷ [])) r' (e1, e2, msg, e4, count) in
            rw step (
              φ',
              extend cmd want first others body (omega arith)
                  (ap (λ x. next_report ch x body) number) settles,
              rep',
            )
      ]

  feed-Follows :
      (φ : Phase) (r : Reassembler) (p : Bytes)
      → All IsByte p
      → Represents ch φ r
      → r.channel ≡ ch
      → Follows p φ (feed r p)
  unfolding feed
  feed-Follows φ r [] hb rep own = (φ, short (omega arith), rep)
  feed-Follows φ r (_ ∷ []) hb rep own = (φ, short (omega arith), rep)
  feed-Follows φ r (_ ∷ _ ∷ []) hb rep own = (φ, short (omega arith), rep)
  feed-Follows φ r (_ ∷ _ ∷ _ ∷ []) hb rep own = (φ, short (omega arith), rep)
  feed-Follows φ r (_ ∷ _ ∷ _ ∷ _ ∷ []) hb rep own = (φ, short (omega arith), rep)
  feed-Follows φ r (c3 ∷ c2 ∷ c1 ∷ c0 ∷ b ∷ body) (h3, (h2, (h1, (h0, (hb, hs))))) rep own =
      elim (Bool-cases (u32 c3 c2 c1 c0 == r.channel)) [
        | inr other ↦ rw other (φ, foreign (omega arith) (ground arith), rep)
        | inl mine ↦
            let same : u32 c3 c2 c1 c0 ≡ ch = ground arith in
            let written : put_u32 ch (b ∷ body) ≡ c3 ∷ c2 ∷ c1 ∷ c0 ∷ b ∷ body =
              rw same at (put_u32-u32 c3 c2 c1 c0 (b ∷ body) h3 h2 h1 h0) in
            let small : ch < 2 ^ 32 = omega arith in
            elim (Bool-cases (bit_and b 0x80 == 0)) [
              | inl later ↦
                  let low : b < 128 = ground (arith, high_bit b hb) in
                  let step : feed r (c3 ∷ c2 ∷ c1 ∷ c0 ∷ b ∷ body) ≡ feed_next r b body =
                    rw (mine, later) in
                  subst (λ q. Follows q φ (feed r (c3 ∷ c2 ∷ c1 ∷ c0 ∷ b ∷ body))) written
                    (subst (Follows (put_u32 ch (b ∷ body)) φ) (sym step)
                      (feed_next-Follows φ r b body low rep))
              | inr head ↦
                  let high : 128 ≤ b = ground (arith, high_bit b hb) in
                  let step : feed r (c3 ∷ c2 ∷ c1 ∷ c0 ∷ b ∷ body) ≡ feed_init r ch b body =
                    rw (mine, same, head) in
                  subst (λ q. Follows q φ (feed r (c3 ∷ c2 ∷ c1 ∷ c0 ∷ b ∷ body))) written
                    (subst (Follows (put_u32 ch (b ∷ body)) φ) (sym step)
                      (feed_init-Follows φ r b body high hb small hs rep own))
            ]
      ]

  Represents-channel : (φ : Phase) (r : Reassembler) → Represents ch φ r → r.channel ≡ ch
  Represents-channel idle r rep = rep.0
  Represents-channel (collecting cmd want first others) r rep = rep.0

  -- The answers of a reassembler to any reports made of bytes, and the state it is left in, are a run
  -- of its specification: a machine that is idle or collects payloads, which begins a message at its
  -- first packet, extends it by the continuation whose number comes next, gives it out when it is
  -- whole, and refuses every other report without change.
  pub feed_all-Run :
      (ps : List Bytes) (φ : Phase) (r : Reassembler)
      → All (All IsByte) ps
      → Represents ch φ r
      → (φ' : Phase) × Run ch φ ps (feed_all r ps).0 φ' × Represents ch φ' (feed_all r ps).1
  feed_all-Run [] φ r hb rep = (φ, here, rep)
  feed_all-Run (p ∷ ps) φ r hb rep =
      let (φ₁, step, rep₁) = feed-Follows φ r p hb.0 rep (Represents-channel φ r rep) in
      let (φ₂, run, rep₂) = feed_all-Run ps φ₁ (feed r p).1 hb.1 rep₁ in (φ₂, next step run, rep₂)
