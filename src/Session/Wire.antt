-- ===== src/Session/Wire.antt =====
-- Two channels on one wire: their reports may come in any order.
use fido.Base.{ℕ, zero, suc, ◌+◌, ◌≤◌, ◌<◌, ◌^◌, ◌≡◌, ◌≢◌, refl, sym, ◌∙◌, ap, arith, inl, inr}
use fido.Base.{true, false, Bool-cases, ◌==◌, List, [], ◌∷◌, ◌++◌, length, All, append-nil}
use fido.Base.Bits.{Bytes, u32-put_u32}
use fido.Framing.{Message, packets, first_packet, next_packet, continuations}
use fido.Reassembly.{Reassembler, done, feed, new_reassembler}
use fido.Reassembly.Packets.{message}
use fido.Reassembly.RoundTrip.{deliver, deliver-packets}
use fido.Reassembly.Bounds.{channel_of}
use fido.Session.Stream.{completed, messages}
use fido.Session.Reply.{own, feed-channel, feed-foreign}

-- The reports of two senders in any order that keeps each sender's own.
pub data Merge {A : Type 0} : List A → List A → List A → Type 0 where
  nil : Merge [] [] []
  left : {x : A} {xs ys zs : List A} → Merge xs ys zs → Merge (x ∷ xs) ys (x ∷ zs)
  right : {y : A} {xs ys zs : List A} → Merge xs ys zs → Merge xs (y ∷ ys) (y ∷ zs)

-- A report of a channel.
abbrev pub IsOn : ℕ → Bytes → Type 0
IsOn ch p = (5 ≤ length p) × (channel_of p ≡ ch)

own-Merge-left :
    (a b : ℕ) {ps qs rs : List Bytes}
    → a ≢ b
    → Merge ps qs rs
    → All (IsOn a) ps
    → All (IsOn b) qs
    → own a rs ≡ ps
own-Merge-left a b ne nil hp hq = refl
own-Merge-left a b ne (left {x = p} m) hp hq =
    let mine : (channel_of p == a) ≡ true = ground arith in
    rw mine (ap (λ t. p ∷ t) (own-Merge-left a b ne m hp.1 hq))
own-Merge-left a b ne (right {y = q} m) hp hq =
    let other : (channel_of q == a) ≡ false = ground arith in
    rw other (own-Merge-left a b ne m hp hq.1)

Merge-comm : {A : Type 0} {xs ys zs : List A} → Merge xs ys zs → Merge ys xs zs
Merge-comm nil = nil
Merge-comm (left m) = right (Merge-comm m)
Merge-comm (right m) = left (Merge-comm m)

Merge-long :
    (a b : ℕ) {ps qs rs : List Bytes}
    → Merge ps qs rs
    → All (IsOn a) ps
    → All (IsOn b) qs
    → All (λ p. 5 ≤ length p) rs
Merge-long a b nil hp hq = tt
Merge-long a b (left m) hp hq = (hp.0.0, Merge-long a b m hp.1 hq)
Merge-long a b (right m) hp hq = (hq.0.0, Merge-long a b m hp hq.1)

next_packet-IsOn : (ch seq : ℕ) (rest : Bytes) → ch < 2 ^ 32 → IsOn ch (next_packet ch seq rest)
unfolding next_packet
next_packet-IsOn ch seq rest h = (omega arith, u32-put_u32 ch h)

continuations-IsOn :
    (fuel ch seq : ℕ) (rest : Bytes) → ch < 2 ^ 32 → All (IsOn ch) (continuations fuel ch seq rest)
unfolding continuations
continuations-IsOn zero ch seq rest h = tt
continuations-IsOn (suc fuel) ch seq [] h = tt
continuations-IsOn (suc fuel) ch seq (b ∷ rest) h =
    (next_packet-IsOn ch seq (b ∷ rest) h, continuations-IsOn fuel ch (seq + 1) _ h)

pub packets-IsOn :
    (ch cmd : ℕ) (content : Bytes) → ch < 2 ^ 32 → All (IsOn ch) (packets ch cmd content)
unfolding packets first_packet
packets-IsOn ch cmd content h = ((omega arith, u32-put_u32 ch h), continuations-IsOn _ ch 0 _ h)

messages-deliver :
    (ps : List Bytes) (r r' : Reassembler) (m : Message) (more : List Bytes)
    → deliver r ps ≡ (done m, r', more)
    → messages r ps ≡ m ∷ messages r' more
unfolding deliver
messages-deliver [] r r' m more h = cc
messages-deliver (p ∷ ps) r r' m more h = ground (arith, messages-deliver ps (feed r p).1 r' m more)

-- The reports of other channels complete no message, and take nothing away.
messages-own :
    (ps : List Bytes) (r : Reassembler) (ch : ℕ)
    → r.channel ≡ ch
    → All (λ p. 5 ≤ length p) ps
    → messages r ps ≡ messages r (own ch ps)
messages-own [] r ch c h = refl
messages-own (p ∷ ps) r ch c h = elim (Bool-cases (channel_of p == ch)) [
  | inl mine ↦
      let rest = messages-own ps (feed r p).1 ch (feed-channel r p ∙ c) h.1 in
      rw mine (ap (λ t. completed (feed r p).0 ++ t) rest)
  | inr other ↦
      let step = feed-foreign r p h.0 (rw c other) in
      rw other (rw step (messages-own ps r ch c h.1))
]

messages-packets :
    (ch cmd : ℕ) (content : Bytes)
    → ch < 2 ^ 32
    → cmd < 128
    → length content ≤ 7609
    → messages (new_reassembler ch) (packets ch cmd content) ≡ message ch cmd content ∷ []
unfolding new_reassembler
messages-packets ch cmd content hc hm fits =
    let (r', d, _, _) = deliver-packets (new_reassembler ch) cmd content [] hc hm fits in
    messages-deliver (packets ch cmd content) (new_reassembler ch) r' (message ch cmd content) []
      (ap (deliver (new_reassembler ch)) (sym (append-nil (packets ch cmd content))) ∙ d)

-- Two messages of different channels, each with a command below 0x80 and at most 7609 bytes, whose
-- reports arrive in any interleaving that keeps the order of each channel: the reassembler of either
-- channel gives out its own message, and nothing else.
pub messages-Merge :
    (a b cmd cmd' : ℕ) (content content' : Bytes) (rs : List Bytes)
    → a ≢ b
    → a < 2 ^ 32
    → b < 2 ^ 32
    → cmd < 128
    → cmd' < 128
    → length content ≤ 7609
    → length content' ≤ 7609
    → Merge (packets a cmd content) (packets b cmd' content') rs
    → (messages (new_reassembler a) rs ≡ message a cmd content ∷ [])
      × (messages (new_reassembler b) rs ≡ message b cmd' content' ∷ [])
messages-Merge a b cmd cmd' content content' rs ne ha hb hm hm' fits fits' m =
    let mine = packets-IsOn a cmd content ha in
    let others = packets-IsOn b cmd' content' hb in
    let long : All (λ p. 5 ≤ length p) rs = Merge-long a b m mine others in
    (
      messages-own rs (new_reassembler a) a (unfold new_reassembler in refl) long
          ∙ ap (messages (new_reassembler a)) (own-Merge-left a b ne m mine others)
          ∙ messages-packets a cmd content ha hm fits,
      messages-own rs (new_reassembler b) b (unfold new_reassembler in refl) long
          ∙ ap (messages (new_reassembler b))
              (own-Merge-left b a (λ e. ne (sym e)) (Merge-comm m) others mine)
          ∙ messages-packets b cmd' content' hb hm' fits',
    )
