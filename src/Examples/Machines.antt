-- ===== src/Examples/Machines.antt =====
-- The reassembler's machine, two channels on one wire, `Open` and the life of a key at concrete input.
use fido.Base.{ℕ, ◌≤◌, ◌≡◌, refl, true, false, arith, List, [], ◌∷◌, ◌++◌, length, All}
use fido.Base.Bits.{Bytes, IsByte}
use fido.Errors.{ok}
use fido.Framing.{packets, first_packet, continuations, copy_into, cmd_init}
use fido.Init.{InitReply, parse_init}
use fido.Reassembly.{new_reassembler}
use fido.Reassembly.Packets.{message}
use fido.Reassembly.Spec.{Phase, collecting, next_report, feed_all, Run, Represents}
use fido.Reassembly.Refinement.{feed_all-Run}
use fido.Transport.{value}
use fido.Session.{Key, open_key, send_all, unopened}
use fido.Session.Stream.{messages}
use fido.Session.Reply.{own}
use fido.Session.Await.{Delivers}
use fido.Session.Wire.{Merge, nil, left, right, messages-Merge}
use fido.Session.Ready.{opened, open_key-opened}
use fido.Lifetime.{Call, call_ping, call_wink, call_info, call_register, call_close, after_all}
use fido.Lifetime.Closing.{
  counted, beside, OpenOrClosed, after_all_detached, after_all-OpenOrClosed,
}
use fido.Examples.Script.{Script, device, fixed, fixed_nonce, script}
use fido.Examples.Sample.{sample, toy}
use fido.Examples.Framing.{busy, sixty, sixty_packets, foreign, init_reply}
use fido.Examples.Session.{key, handshake_script, played, busy_script}
use fido.Examples.Commands.{registration}

-- In the middle of a message: its next report, a foreign one, and another message.
abbrev mixed : List Bytes
mixed = next_report 5 3 (8 ∷ []) ∷ foreign ∷ sixty_packets

abbrev middle : Phase
middle = collecting 6 200 (9 ∷ []) ([] ∷ [] ∷ [] ∷ [])

mixed-IsByte : All (All IsByte) mixed
unfolding packets first_packet continuations copy_into fido.Base.take fido.Base.drop
    fido.Base.replicate fido.Framing.next_packet
mixed-IsByte = omega arith

feed_all-Run_example :
    (φ' : Phase) × Run 5 middle mixed (feed_all busy mixed).0 φ'
    × Represents 5 φ' (feed_all busy mixed).1
feed_all-Run_example = feed_all-Run 5 mixed middle busy mixed-IsByte (refl, refl, refl, refl, refl)

-- A short message of another channel between the two reports of a long one.
abbrev merged : List Bytes
merged =
    fido.Base.take 1 (packets 5 1 sixty)
    ++ packets 6 2 (1 ∷ [])
    ++ fido.Base.drop 1 (packets 5 1 sixty)

merged-Merge : Merge (packets 5 1 sixty) (packets 6 2 (1 ∷ [])) merged
unfolding packets first_packet continuations copy_into fido.Base.take fido.Base.drop
    fido.Base.replicate
merged-Merge = left (right (left nil))

messages-Merge_example :
    (messages (new_reassembler 5) merged ≡ message 5 1 sixty ∷ [])
    × (messages (new_reassembler 6) merged ≡ message 6 2 (1 ∷ []) ∷ [])
messages-Merge_example =
    messages-Merge 5 6 1 2 sixty (1 ∷ []) merged (omega arith) (omega arith) (omega arith)
      (omega arith) (omega arith) (omega arith) (omega arith) merged-Merge

abbrev made : InitReply
made = record {
  nonce = fixed_nonce;
  channel = 265;
  version = record { ctaphid = 2; major = 5; minor = 7; build = 4 };
  caps = 5;
}

made_parsed : parse_init init_reply ≡ ok made
unfolding parse_init fido.Base.take
made_parsed = refl

abbrev nonce_sent : Script
nonce_sent = record played { incoming = handshake_script }

init_sent :
    send_all device unopened
      (packets unopened.channel cmd_init fixed_nonce)
      (script handshake_script)
    ≡ (value tt, nonce_sent)
unfolding send_all packets continuations fido.Base.drop
init_sent = refl

reply_delivered : Delivers device nonce_sent handshake_script played
unfolding packets first_packet continuations copy_into fido.Base.take fido.Base.replicate
    fido.Base.drop
reply_delivered = (_, refl, refl)

reply_whole : All (λ p. 5 ≤ length p) handshake_script × (length handshake_script ≤ 2)
unfolding packets first_packet continuations copy_into fido.Base.take fido.Base.replicate
    fido.Base.drop
reply_whole = omega arith

reply_own :
    own unopened.channel handshake_script ≡ packets unopened.channel cmd_init init_reply ++ []
unfolding packets first_packet continuations copy_into fido.Base.take fido.Base.replicate
    fido.Base.drop
reply_own = refl

open_key-opened_example :
    (open_key device fixed 2 (script handshake_script)).0 ≡ value (opened made)
open_key-opened_example =
    open_key-opened device fixed 2 [] handshake_script [] init_reply made (script handshake_script)
      (script handshake_script) nonce_sent played refl (omega arith) init_sent reply_delivered
      reply_whole.1 reply_whole.0 reply_own (omega arith) (omega arith) made_parsed

abbrev closed_key : Key
closed_key = record key { attached = false }

abbrev late_calls : List Call
late_calls = call_ping 9 sixty ∷ call_close ∷ call_register 9 registration ∷ []

after_all_detached_example :
    after_all device sample toy fixed late_calls closed_key (script []) ≡ (closed_key, script [])
after_all_detached_example =
    after_all_detached device sample toy fixed late_calls closed_key (script []) refl

abbrev calls : List Call
calls = call_ping 9 (3 ∷ 4 ∷ []) ∷ call_info 9 ∷ call_close ∷ call_wink 9 ∷ call_close ∷ []

after_all-OpenOrClosed_example :
    OpenOrClosed key 0
      (after_all (counted device) sample toy (beside fixed) calls key (script busy_script, 0))
after_all-OpenOrClosed_example =
    after_all-OpenOrClosed device sample toy fixed calls key (script busy_script) 0 refl
