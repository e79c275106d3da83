-- ===== src/Examples/Peer.antt =====
-- An authenticator that counts what it is asked, and sends a keepalive before each answer.
use fido.Base.{◌+◌, ℕ, ◌≡◌, refl, [], ◌∷◌, ◌++◌, arith, drop}
use fido.Base.{◌==◌, if◌then◌else◌}
use fido.Base.Bits.{Bytes}
use fido.Framing.{Message, cmd_init, cmd_cbor, packets, continuations}
use fido.Reassembly.{new_reassembler}
use fido.Init.{InitReply, parse_init}
use fido.Transport.{Random, filled, value}
use fido.Session.{open_key}
use fido.Session.Peer.{Answer, Peer, IsIdle, AreCarried, peer, exchanges}
use fido.Session.Ready.{opened}
use fido.Session.Dialogue.{Greets, dialogue}
use fido.Examples.Script.{fixed_nonce}
use fido.Examples.Framing.{init_reply}

-- The body for a CTAP2 command: the count and 2 for authenticatorClientPIN, else the command.
abbrev body_for : Bytes → ℕ → ℕ
body_for [] n = n
body_for (cmd ∷ _) n = if cmd == 6 then n + 2 else cmd

-- Its answer to a message other than INIT: under CBOR a status of zero and a body of one byte, and
-- otherwise the count and an echo.
abbrev counted : Message → ℕ → Answer
counted m n = record {
  pauses = (2 ∷ []) ∷ [];
  cmd = m.cmd;
  content = if m.cmd == cmd_cbor then 0 ∷ body_for m.content n ∷ [] else n ∷ m.content;
}

abbrev pub counter : Message → ℕ → Answer × ℕ
counter m n =
    if m.cmd == cmd_init
    then (record { pauses = []; cmd = cmd_init; content = init_reply }, n)
    else (counted m n, n + 1)

abbrev pub idle_peer : Peer ℕ
idle_peer = record { rc = new_reassembler; queue = []; memory = 1 }

abbrev pub same_nonce : Random (Peer ℕ)
same_nonce = record {
  nonce = λ s. (filled fixed_nonce, s);
  iv = λ s. (filled (fixed_nonce ++ fixed_nonce), s);
  private_key = λ s. (filled (7 ∷ []), s);
}

abbrev pub greeting : InitReply
greeting = record {
  nonce = fixed_nonce;
  channel = 265;
  version = record { ctaphid = 2; major = 5; minor = 7; build = 4 };
  caps = 5;
}

pub idle_peer-IsIdle : IsIdle idle_peer
unfolding new_reassembler
idle_peer-IsIdle = record { tuned = λ c. refl; quiet = refl }

pub counter-Greets : Greets counter 2 greeting 1
unfolding packets continuations drop parse_init
counter-Greets = record {
  carried = record {
    cmd_fits = omega arith;
    content_fits = omega arith;
    sayable = record {
      cmd_fits = omega arith;
      whole = λ e. omega arith;
      content_fits = omega arith;
      pauses_fit = tt;
    };
    enough = omega arith;
  };
  with_init = refl;
  parses = refl;
}

ping_and_wink : AreCarried counter 2 265 ((1, 3 ∷ 4 ∷ []) ∷ (8, []) ∷ []) 1
unfolding packets continuations drop
ping_and_wink = (
  record {
    cmd_fits = omega arith;
    content_fits = omega arith;
    sayable = record {
      cmd_fits = omega arith;
      whole = λ e. omega arith;
      content_fits = omega arith;
      pauses_fit = (omega arith, tt);
    };
    enough = omega arith;
  },
  (
    record {
      cmd_fits = omega arith;
      content_fits = omega arith;
      sayable = record {
        cmd_fits = omega arith;
        whole = λ e. omega arith;
        content_fits = omega arith;
        pauses_fit = (omega arith, tt);
      };
      enough = omega arith;
    },
    tt,
  ),
)

dialogue_example :
    (s : Peer ℕ) × (open_key (peer counter) same_nonce 2 idle_peer ≡ (value (opened greeting), s))
    × ((exchanges counter 2 (opened greeting) ((1, 3 ∷ 4 ∷ []) ∷ (8, []) ∷ []) s).0
        ≡ value (1 ∷ 3 ∷ 4 ∷ []) ∷ value (2 ∷ []) ∷ [])
    × ((exchanges counter 2 (opened greeting) ((1, 3 ∷ 4 ∷ []) ∷ (8, []) ∷ []) s).1.memory ≡ 3)
dialogue_example =
    dialogue counter same_nonce 2 greeting ((1, 3 ∷ 4 ∷ []) ∷ (8, []) ∷ []) idle_peer idle_peer refl
      idle_peer-IsIdle counter-Greets (omega arith) ping_and_wink
