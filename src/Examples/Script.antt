-- ===== src/Examples/Script.antt =====
-- A transport that plays a script: it answers the listed reports, keeps what it is sent, and counts
-- how often it is closed.
use fido.Base.{ℕ, ◌+◌, none, List, [], ◌∷◌, ◌++◌}
use fido.Base.Bits.{Bytes}
use fido.Format.{text}
use fido.Transport.{Transport, Random, Received, report, broken, filled}

pub record Script : Type 0 where
  pub incoming : List Bytes
  pub sent : List Bytes
  pub closed : ℕ

abbrev receive_next : List Bytes → Script → Received × Script
receive_next [] s = (broken (text "gone"), s)
receive_next (p ∷ ps) s = (report p, record s { incoming = ps })

abbrev pub device : Transport Script
device = record {
  send = λ p s. (none, record s { sent = s.sent ++ (p ∷ []) });
  receive = λ s. receive_next s.incoming s;
  name = text "key";
  close = λ s. (none, record s { closed = s.closed + 1 });
}

abbrev pub fixed_nonce : Bytes
fixed_nonce = 1 ∷ 2 ∷ 3 ∷ 4 ∷ 5 ∷ 6 ∷ 7 ∷ 8 ∷ []

abbrev pub fixed : Random Script
fixed = record {
  nonce = λ s. (filled fixed_nonce, s);
  iv = λ s. (filled (fixed_nonce ++ fixed_nonce), s);
  private_key = λ s. (filled (7 ∷ []), s);
}

abbrev pub script : List Bytes → Script
script ps = record { incoming = ps; sent = []; closed = 0 }
