-- ===== src/Ctap2/Answered.antt =====
-- A CTAP2 command that is answered, down to the reports.
use fido.Base.{ℕ, ◌≤◌, ◌<◌, ◌^◌, ◌≡◌, ap, arith, true, List, ◌∷◌, ◌++◌, length, All}
use fido.Base.Bits.{Bytes}
use fido.Framing.{packets, cmd_cbor}
use fido.Transport.{Transport, value}
use fido.Session.{Key, send_all}
use fido.Session.Reply.{own, keepalives}
use fido.Session.Await.{Delivers}
use fido.Cbor.{Cbor, got, Value}
use fido.Ctap2.{cbor, cbor_call}
use fido.Ctap2.Exchange.{cbor-meaning}

module _ (c : Cbor) {S : Type 0} (t : Transport S) (fuel : ℕ) (k : Key) where
  -- From the state `s` a command is answered by a body: its CBOR fits a message, its packets are sent,
  -- and the transport then delivers reports of at least five bytes, as many as the fuel at most, whose
  -- own ones are keepalives and then the packets of a status of zero and the body.
  pub record IsAnswered (cmd : ℕ) (params : Value) (body : Bytes) (s : S) : Type 0 where
    pub encoded : Bytes
    pub waits : List Bytes
    pub reports : List Bytes
    pub more : List Bytes
    pub after_send : S
    pub after_reply : S
    pub encoding : c.marshal params ≡ got encoded
    pub fits : length encoded ≤ 7608
    pub sending :
        send_all t k (packets k.channel cmd_cbor (cmd ∷ encoded)) s ≡ (value tt, after_send)
    pub delivery : Delivers t after_send reports after_reply
    pub in_time : length reports ≤ fuel
    pub long : All (λ p. 5 ≤ length p) reports
    pub mine :
        own k.channel reports
        ≡ keepalives k.channel waits ++ (packets k.channel cmd_cbor (0 ∷ body) ++ more)
    pub short_waits : All (λ a. length a ≤ 7609) waits
    pub short_reply : length body ≤ 7608

  module _ (on : k.attached ≡ true) (channel : k.channel < 2 ^ 32) where
    pub cbor_call-IsAnswered :
        (cmd : ℕ) (params : Value) (body : Bytes) (s : S)
        → IsAnswered cmd params body s
        → cbor_call t c fuel k cmd params s ≡ (value body, (cbor_call t c fuel k cmd params s).1)
    unfolding cbor_call
    cbor_call-IsAnswered cmd params body s a =
        let said =
          cbor-meaning t k on fuel cmd a.encoded (0 ∷ body) a.waits a.reports a.more s a.after_send
            a.after_reply channel a.fits a.sending a.delivery a.in_time a.long a.mine a.short_waits
            (omega arith) in
        rw (a.encoding, cbor_call) (ap (λ o. (o, (cbor t fuel k cmd a.encoded s).1)) said)
