-- ===== src/Examples/Wire.antt =====
-- A registration and an assertion down to the reports, at concrete input.
use fido.Base.{ℕ, ◌≤◌, ◌≡◌, refl, true, arith, inl, inr, List, [], ◌∷◌, ◌++◌, length, All}
use fido.Base.Bits.{Bytes}
use fido.Framing.{packets, cmd_cbor}
use fido.Init.{has, cap_cbor}
use fido.Transport.{value}
use fido.Session.{send_all}
use fido.Session.Reply.{own, keepalives}
use fido.Session.Await.{Delivers}
use fido.Ctap2.Answered.{IsAnswered}
use fido.Requests.{make_request, get_request, cmd_make_credential, cmd_get_assertion}
use fido.Credentials.{make_credential, get_assertion}
use fido.Credentials.Registrations.{HoldsAttestation}
use fido.Credentials.Assertions.{HoldsAssertion}
use fido.Credentials.Wire.{make_credential-IsAnswered, get_assertion-IsAnswered}
use fido.Examples.Script.{Script, device, script}
use fido.Examples.Sample.{sample, toy, attested_data}
use fido.Examples.Session.{key}
use fido.Examples.Credentials.{attested_parsed}
use fido.Examples.Commands.{reply, asked, ended, registration, attestation, challenge, assertion}

pub ready : has key.caps cap_cbor ≡ true
unfolding has
ready = refl

-- A keepalive, a report of another channel and the reply.
abbrev reports : ℕ → List Bytes
reports body = packets 5 0x3B (2 ∷ []) ++ ((0 ∷ 0 ∷ 0 ∷ 6 ∷ 129 ∷ []) ∷ reply body)

abbrev waiting_for : ℕ → List Bytes → Script
waiting_for body sent = record { incoming = reports body; sent = sent; closed = 0 }

sent_run :
    (body : ℕ) (cmd : ℕ)
    → send_all device key (asked cmd) (script (reports body))
      ≡ (value tt, waiting_for body (asked cmd))
unfolding send_all packets fido.Framing.continuations fido.Base.drop
sent_run body cmd = refl

delivered :
    (body : ℕ) (sent : List Bytes)
    → Delivers device (waiting_for body sent) (reports body) (ended sent)
unfolding packets fido.Framing.continuations fido.Base.drop
delivered body sent = (_, refl, (_, refl, (_, refl, refl)))

whole : (body : ℕ) → All (λ p. 5 ≤ length p) (reports body) × (length (reports body) ≤ 9)
unfolding packets fido.Framing.first_packet fido.Framing.continuations fido.Framing.copy_into
    fido.Base.drop
whole body = omega arith

own_reports :
    (body : ℕ)
    → own 5 (reports body)
      ≡ keepalives 5 ((2 ∷ []) ∷ []) ++ (packets 5 cmd_cbor (0 ∷ body ∷ []) ++ [])
unfolding packets fido.Framing.first_packet fido.Framing.continuations fido.Base.drop
own_reports body = refl

make_reply :
    IsAnswered sample device 9 key cmd_make_credential
      (make_request toy registration)
      (1 ∷ [])
      (script (reports 1))
make_reply = record {
  encoded = 0xA0 ∷ [];
  waits = (2 ∷ []) ∷ [];
  reports = reports 1;
  more = [];
  after_send = waiting_for 1 (asked cmd_make_credential);
  after_reply = ended (asked cmd_make_credential);
  encoding = refl;
  fits = omega arith;
  sending = sent_run 1 cmd_make_credential;
  delivery = delivered 1 (asked cmd_make_credential);
  in_time = (whole 1).1;
  long = (whole 1).0;
  mine = own_reports 1;
  short_waits = omega arith;
  short_reply = omega arith;
}

get_reply :
    IsAnswered sample device 9 key cmd_get_assertion
      (get_request toy challenge)
      (2 ∷ [])
      (script (reports 2))
get_reply = record {
  encoded = 0xA0 ∷ [];
  waits = (2 ∷ []) ∷ [];
  reports = reports 2;
  more = [];
  after_send = waiting_for 2 (asked cmd_get_assertion);
  after_reply = ended (asked cmd_get_assertion);
  encoding = refl;
  fits = omega arith;
  sending = sent_run 2 cmd_get_assertion;
  delivery = delivered 2 (asked cmd_get_assertion);
  in_time = (whole 2).1;
  long = (whole 2).0;
  mine = own_reports 2;
  short_waits = omega arith;
  short_reply = omega arith;
}

pub attestation_held : HoldsAttestation sample (1 ∷ []) attestation
unfolding fido.Ctap2.member_field fido.Cbor.find fido.Base.replicate has fido.Credentials.raw_or_nil
    fido.Credentials.decoded_or
attestation_held = (
  (1, 65 ∷ []) ∷ (2, attested_data) ∷ [],
  refl,
  refl,
  refl,
  (λ e. ground arith),
  attested_parsed,
  refl,
  refl,
)

pub assertion_held : HoldsAssertion sample (2 ∷ []) assertion
unfolding fido.Ctap2.member_field fido.Cbor.find fido.Base.replicate has fido.Credentials.raw_or_nil
    fido.Credentials.decoded_or
assertion_held = (
  (2, attested_data) ∷ (3, 9 ∷ []) ∷ [],
  refl,
  refl,
  (λ e. ground arith),
  attested_parsed,
  refl,
  (λ e. ground arith),
  inl (refl, refl),
  refl,
  inl (refl, refl),
  inl (refl, refl),
)

make_credential-IsAnswered_example :
    (make_credential sample device toy 9 key registration (script (reports 1))).0
    ≡ value attestation
unfolding fido.Base.replicate
make_credential-IsAnswered_example =
    make_credential-IsAnswered sample device 9 key refl (omega arith) toy ready registration
      (1 ∷ []) attestation (script (reports 1)) (λ e. ground arith) (λ e. ground arith)
      (λ e. ground arith) make_reply attestation_held

get_assertion-IsAnswered_example :
    (get_assertion sample device toy 9 key challenge (script (reports 2))).0 ≡ value assertion
unfolding fido.Base.replicate
get_assertion-IsAnswered_example =
    get_assertion-IsAnswered sample device 9 key refl (omega arith) toy ready challenge (2 ∷ [])
      assertion (script (reports 2)) (λ e. ground arith) (λ e. ground arith) get_reply
      assertion_held
