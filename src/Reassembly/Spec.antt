-- ===== src/Reassembly/Spec.antt =====
-- What a reassembler promises, without its fields: a machine that is idle or collects the payloads
-- of a message, whose reports are described by how they are written.
use fido.Base.{ℕ, ◌+◌, ◌≤◌, ◌<◌, ◌^◌, ◌≡◌, ◌≢◌}
use fido.Base.{true, false, List, [], ◌∷◌, ◌++◌, length, take}
use fido.Base.Bits.{Bytes, put_u16, put_u32}
use fido.Errors.{short_packet, wrong_channel, out_of_order}
use fido.Reassembly.{Reassembler, Fed, pending, done, failed, feed}
use fido.Reassembly.Packets.{message}
use fido.Reassembly.Bounds.{channel_of}

abbrev pub concat : List Bytes → Bytes
concat [] = []
concat (c ∷ cs) = c ++ concat cs

-- The answers to reports that are fed one after the other.
abbrev pub feed_all : Reassembler → List Bytes → List Fed × Reassembler
feed_all r [] = ([], r)
feed_all r (p ∷ ps) =
    let (answer, r₁) = feed r p in let (answers, r₂) = feed_all r₁ ps in (answer ∷ answers, r₂)

-- The payload of the first packet and those of the continuations, in the order of their arrival.
pub data Phase : Type 0 where
  idle : Phase
  collecting : (cmd want : ℕ) (first : Bytes) (others : List Bytes) → Phase

-- An initialisation packet, and a continuation packet, of a channel.
abbrev pub head_report : ℕ → ℕ → ℕ → Bytes → Bytes
head_report ch cmd want body = put_u32 ch ((128 + cmd) ∷ put_u16 want body)

abbrev pub next_report : ℕ → ℕ → Bytes → Bytes
next_report ch seq body = put_u32 ch (seq ∷ body)

module _ (ch : ℕ) where
  -- With all of the message there, the machine gives it out, and otherwise collects on.
  pub data Settles (cmd want : ℕ) (first : Bytes) (others : List Bytes) : Fed → Phase → Type 0 where
    whole :
        want ≤ length (first ++ concat others)
        → Settles cmd want first others
            (done (message ch cmd (take want (first ++ concat others))))
            idle
    partial :
        length (first ++ concat others) < want
        → Settles cmd want first others pending (collecting cmd want first others)

  -- A message begins whatever was collected; a continuation counts if its number is that of the
  -- continuations before it. Any other report is refused, and changes nothing.
  pub data Step (p : Bytes) : Phase → Fed → Phase → Type 0 where
    begin :
        {φ φ' : Phase} {answer : Fed} (cmd want : ℕ) (body : Bytes)
        → cmd < 128
        → want < 2 ^ 16
        → p ≡ head_report ch cmd want body
        → Settles cmd want body [] answer φ'
        → Step p φ answer φ'
    extend :
        {φ' : Phase} {answer : Fed} (cmd want : ℕ) (first : Bytes) (others : List Bytes)
        (body : Bytes)
        → length others < 128
        → p ≡ next_report ch (length others) body
        → Settles cmd want first (others ++ (body ∷ [])) answer φ'
        → Step p (collecting cmd want first others) answer φ'
    short : {φ : Phase} → length p < 7 → Step p φ (failed short_packet) φ
    foreign : {φ : Phase} → 5 ≤ length p → channel_of p ≢ ch → Step p φ (failed wrong_channel) φ
    stray :
        (seq : ℕ) (body : Bytes)
        → seq < 128
        → p ≡ next_report ch seq body
        → Step p idle (failed out_of_order) idle
    gap :
        (cmd want : ℕ) (first : Bytes) (others : List Bytes) (seq : ℕ) (body : Bytes)
        → seq < 128
        → seq ≢ length others
        → p ≡ next_report ch seq body
        → Step p
            (collecting cmd want first others)
            (failed out_of_order)
            (collecting cmd want first others)

  -- The reassembler's fields in a phase.
  abbrev pub Represents : Phase → Reassembler → Type 0
  Represents idle r = (r.channel ≡ ch) × (r.started ≡ false)
  Represents (collecting cmd want first others) r =
      (r.channel ≡ ch)
      × (r.started ≡ true)
      × (r.msg ≡ message ch cmd (first ++ concat others))
      × (r.want ≡ want)
      × (r.seq ≡ length others)

  -- A run of the machine over reports, with the answer to each.
  pub data Run : Phase → List Bytes → List Fed → Phase → Type 0 where
    here : {φ : Phase} → Run φ [] [] φ
    next :
        {φ φ' φ'' : Phase} {p : Bytes} {ps : List Bytes} {answer : Fed} {answers : List Fed}
        → Step p φ answer φ'
        → Run φ' ps answers φ''
        → Run φ (p ∷ ps) (answer ∷ answers) φ''
