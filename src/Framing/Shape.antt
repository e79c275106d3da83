-- ===== src/Framing/Shape.antt =====
-- What `Split` sends: the size, the number and the numbering of the packets.
use fido.Base.{ℕ, zero, suc, ◌+◌, ◌-◌, ◌*◌, ◌/◌, ◌≤◌, ◌<◌, ◌≡◌, ◌↔◌, refl, ap}
use fido.Base.{List, [], ◌∷◌, ◌++◌, length, get_or, take, drop, replicate, All, arith}
use fido.Base.{length-append, length-take, length-drop, length-replicate, take_all}
use fido.Base.{All-append, All-take, All-drop, All-replicate, append-nil}
use fido.Base.Bits.{Bytes, IsByte, set_high}
use fido.Errors.{ok, err, too_long}
use fido.Framing.{report_size, init_payload, cont_payload}
use fido.Framing.{copy_into, first_packet, next_packet, continuations, packets, split}

pub length-copy_into : (n : ℕ) (src : Bytes) → length (copy_into n src) ≡ n
unfolding copy_into
length-copy_into n src = omega (
  arith,
  length-append (take n src) (replicate (n - length src) 0),
  length-take n src,
  length-replicate {A = ℕ} (n - length src) 0,
)

copy_into-IsByte : (n : ℕ) (src : Bytes) → All IsByte src → All IsByte (copy_into n src)
unfolding copy_into
copy_into-IsByte n src h =
    All-append IsByte (take n src) _ (All-take IsByte n src h)
      (All-replicate IsByte (n - length src) 0 (omega arith))

-- A source that fits is followed by zeros; one that does not is cut.
pub copy_into_short :
    (n : ℕ) (src : Bytes) → length src ≤ n → copy_into n src ≡ src ++ replicate (n - length src) 0
unfolding copy_into
copy_into_short n src h = ap (λ t. t ++ replicate (n - length src) 0) (take_all n src h)

pub copy_into_long : (n : ℕ) (src : Bytes) → n ≤ length src → copy_into n src ≡ take n src
unfolding copy_into replicate
copy_into_long n src h = let e : n - length src ≡ 0 = omega arith in rw e (append-nil (take n src))

-- A report: 64 bytes.
abbrev pub IsReport : Bytes → Type 0
IsReport p = (length p ≡ report_size) × All IsByte p

next_packet-IsReport :
    (channel seq : ℕ) (rest : Bytes) → All IsByte rest → IsReport (next_packet channel seq rest)
unfolding next_packet
next_packet-IsReport channel seq rest h = (
  omega (arith, length-copy_into cont_payload rest),
  (
    omega arith,
    (omega arith, (omega arith, (omega arith, (omega arith, copy_into-IsByte 59 rest h)))),
  ),
)

first_packet-IsReport :
    (channel cmd : ℕ) (content : Bytes)
    → cmd < 128
    → All IsByte content
    → IsReport (first_packet channel cmd content)
unfolding first_packet
first_packet-IsReport channel cmd content hc h = (
  omega (arith, length-copy_into init_payload content),
  (
    omega arith,
    (
      omega arith,
      (
        omega arith,
        (
          omega arith,
          (
            omega (arith, set_high cmd hc),
            (omega arith, (omega arith, copy_into-IsByte 57 content h)),
          ),
        ),
      ),
    ),
  ),
)

continuations-IsReport :
    (fuel channel seq : ℕ) (rest : Bytes)
    → All IsByte rest
    → All IsReport (continuations fuel channel seq rest)
unfolding continuations
continuations-IsReport zero channel seq rest h = tt
continuations-IsReport (suc fuel) channel seq [] h = tt
continuations-IsReport (suc fuel) channel seq (b ∷ rest) h = (
  next_packet-IsReport channel seq (b ∷ rest) h,
  continuations-IsReport fuel channel (seq + 1) (drop cont_payload (b ∷ rest))
      (All-drop IsByte cont_payload (b ∷ rest) h),
)

length-continuations :
    (fuel channel seq : ℕ) (rest : Bytes)
    → length rest ≤ fuel
    → length (continuations fuel channel seq rest) ≡ (length rest + 58) / 59
unfolding continuations
length-continuations zero channel seq [] h = refl
length-continuations zero channel seq (b ∷ rest) h = absurd (omega arith)
length-continuations (suc fuel) channel seq [] h = refl
length-continuations (suc fuel) channel seq (b ∷ rest) h =
    let size : length (drop cont_payload (b ∷ rest)) ≡ suc (length rest) - 59 =
      length-drop cont_payload (b ∷ rest) in
    omega (
      arith,
      size,
      length-continuations fuel channel (seq + 1) (drop cont_payload (b ∷ rest)) (omega arith),
    )

-- The packets carry the numbers `seq`, `seq + 1`, … in their fifth byte, with its high bit clear.
abbrev pub Numbered : ℕ → List Bytes → Type 0
Numbered seq [] = Unit
Numbered seq (p ∷ ps) = (get_or p 4 0 ≡ seq) × (seq < 0x80) × Numbered (seq + 1) ps

continuations-Numbered :
    (fuel channel seq : ℕ) (rest : Bytes)
    → length rest + 59 * seq ≤ 7552
    → Numbered seq (continuations fuel channel seq rest)
unfolding continuations next_packet
continuations-Numbered zero channel seq rest h = tt
continuations-Numbered (suc fuel) channel seq [] h = tt
continuations-Numbered (suc fuel) channel seq (b ∷ rest) h = (
  omega arith,
  omega arith,
  continuations-Numbered fuel channel (seq + 1) (drop cont_payload (b ∷ rest))
      (omega (arith, length-drop cont_payload (b ∷ rest))),
)

packets_shape :
    (channel cmd : ℕ) (content : Bytes)
    → cmd < 128
    → All IsByte content
    → length content ≤ 7609
    → let ps = packets channel cmd content in
      All IsReport ps
      × (length ps ≡ 1 + (length content - 57 + 58) / 59)
      × (length ps ≤ 129)
      × (get_or (get_or ps 0 []) 4 0 ≡ cmd + 128)
      × Numbered 0 (drop 1 ps)
unfolding packets first_packet drop
packets_shape channel cmd content hc h fits =
    let rest : Bytes = drop init_payload content in
    let size : length rest ≡ length content - 57 = length-drop init_payload content in
    let count : length (continuations (length content) channel 0 rest) ≡ (length rest + 58) / 59 =
      length-continuations (length content) channel 0 rest (omega arith) in
    (
      (
        first_packet-IsReport channel cmd content hc h,
        continuations-IsReport (length content) channel 0 rest
            (All-drop IsByte init_payload content h),
      ),
      omega arith,
      omega arith,
      set_high cmd hc,
      continuations-Numbered (length content) channel 0 rest (omega arith),
    )

-- `Split` refuses exactly the messages of more than 7609 bytes, and every other it cuts up.
pub split-too_long :
    (channel cmd : ℕ) (content : Bytes)
    → ((split channel cmd content ≡ err too_long) ↔ (7609 < length content))
      × ((length content ≤ 7609) ↔ (split channel cmd content ≡ ok (packets channel cmd content)))
unfolding split
split-too_long channel cmd content =
    ((λ h. ground arith, λ h. ground arith), (λ h. ground arith, λ h. ground arith))

-- A message is cut into 64-byte reports: one for its first 57 bytes and one for each 59 bytes more,
-- 129 at most. The fifth byte of the first is the command with its high bit set; those of the others
-- are the numbers from 0 on, with the high bit clear.
pub split_shape :
    (channel cmd : ℕ) (content : Bytes) (ps : List Bytes)
    → cmd < 128
    → All IsByte content
    → split channel cmd content ≡ ok ps
    → All IsReport ps
      × (length ps ≡ 1 + (length content - 57 + 58) / 59)
      × (length ps ≤ 129)
      × (get_or (get_or ps 0 []) 4 0 ≡ cmd + 128)
      × Numbered 0 (drop 1 ps)
unfolding split
split_shape channel cmd content ps hc h e =
    let fits : length content ≤ 7609 = ground arith in
    let same : packets channel cmd content ≡ ps = ground arith in
    rw (← same) (packets_shape channel cmd content hc h fits)
