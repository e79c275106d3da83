-- ===== src/Examples/Framing.antt =====
-- The framing and the reassembler at concrete input.
use fido.Base.{◌+◌, ◌-◌, ◌/◌, ◌≤◌, ◌<◌, ◌^◌, ◌≡◌, refl, true, false, arith}
use fido.Base.{List, [], ◌∷◌, ◌++◌, length, get_or, drop, All, take, ◌⊎◌}
use fido.Base.Bits.{Bytes}
use fido.Errors.{ok, err, truncated}
use fido.Framing.{packets, split}
use fido.Framing.Shape.{IsReport, Numbered, split_shape}
use fido.Reassembly.{Reassembler, done, new_reassembler}
use fido.Reassembly.Packets.{message}
use fido.Reassembly.RoundTrip.{deliver, deliver-split}
use fido.Reassembly.Bounds.{IsValid, Fits, deliver-Fits}
use fido.Reassembly.Bounds.{new_reassembler-IsValid}
use fido.Init.{InitReply, parse_init}
use fido.Init.Laws.{init_bytes, parse_init_lem}

-- A message of 60 bytes, and a reassembler that waits for the rest of another one.
abbrev pub sixty : Bytes
sixty =
    7 ∷ 7 ∷ 7 ∷ 7 ∷ 7 ∷ 7 ∷ 7 ∷ 7 ∷ 7 ∷ 7 ∷ 7 ∷ 7 ∷ 7 ∷ 7 ∷ 7 ∷ 7 ∷ 7 ∷ 7 ∷ 7 ∷ 7 ∷ 7 ∷ 7 ∷ 7 ∷ 7
    ∷ 7 ∷ 7 ∷ 7 ∷ 7 ∷ 7 ∷ 7 ∷ 7 ∷ 7 ∷ 7 ∷ 7 ∷ 7 ∷ 7 ∷ 7 ∷ 7 ∷ 7 ∷ 7 ∷ 7 ∷ 7 ∷ 7 ∷ 7 ∷ 7 ∷ 7 ∷ 7 ∷ 7
    ∷ 7 ∷ 7 ∷ 7 ∷ 7 ∷ 7 ∷ 7 ∷ 7 ∷ 7 ∷ 1 ∷ 2 ∷ 3 ∷ 4 ∷ []

abbrev pub busy : Reassembler
busy = record { channel = 5; msg = message 5 6 (9 ∷ []); want = 200; seq = 3; started = true }

abbrev pub sixty_packets : List Bytes
sixty_packets = packets 5 1 sixty

split-sixty : split 5 1 sixty ≡ ok sixty_packets
unfolding split
split-sixty = refl

deliver-split_example :
    (r' : Reassembler) × (deliver busy (sixty_packets ++ (8 ∷ []) ∷ [])
      ≡ (done (message 5 1 sixty), r', (8 ∷ []) ∷ []))
    × (r'.channel ≡ 5)
    × (r'.started ≡ false)
deliver-split_example =
    deliver-split busy 1 sixty sixty_packets ((8 ∷ []) ∷ []) (omega arith) (omega arith) split-sixty

split_shape_example :
    All IsReport sixty_packets
    × (length sixty_packets ≡ 1 + (length sixty - 57 + 58) / 59)
    × (length sixty_packets ≤ 129)
    × (get_or (get_or sixty_packets 0 []) 4 0 ≡ 129)
    × Numbered 0 (drop 1 sixty_packets)
split_shape_example = split_shape 5 1 sixty sixty_packets (omega arith) (omega arith) split-sixty

abbrev pub foreign : Bytes
foreign = 0 ∷ 0 ∷ 0 ∷ 6 ∷ 129 ∷ []

deliver-Fits_example :
    IsValid (deliver (new_reassembler 5) sixty_packets).1
    × Fits (new_reassembler 5) (deliver (new_reassembler 5) sixty_packets).0
deliver-Fits_example =
    deliver-Fits sixty_packets (new_reassembler 5) split_shape_example.0 (new_reassembler-IsValid 5)

abbrev pub init_reply : Bytes
init_reply = 1 ∷ 2 ∷ 3 ∷ 4 ∷ 5 ∷ 6 ∷ 7 ∷ 8 ∷ 0 ∷ 0 ∷ 1 ∷ 9 ∷ 2 ∷ 5 ∷ 7 ∷ 4 ∷ 5 ∷ []

parse_init_lem_example :
    ((length init_reply < 17) × (parse_init init_reply ≡ err truncated))
    ⊎ ((r : InitReply) × (parse_init init_reply ≡ ok r)
        × (init_bytes r ≡ take 17 init_reply)
        × (length r.nonce ≡ 8)
        × (r.channel < 2 ^ 32))
parse_init_lem_example = parse_init_lem init_reply (omega arith)
