-- ===== src/Session/Ready.antt =====
-- `Open` comes to a key when the authenticator answers.
use fido.Base.{ℕ, ◌≤◌, ◌≡◌, refl, ◌∙◌, ap, arith, true, List, ◌++◌, length, All}
use fido.Base.{bytes_eq_refl}
use fido.Base.Bits.{Bytes}
use fido.Errors.{ok}
use fido.Framing.{packets, cmd_init}
use fido.Init.{InitReply, parse_init}
use fido.Transport.{Transport, Random, M, filled, value, ◌>>=◌}
use fido.Transport.Bind.{bind-value}
use fido.Session.{Key, send_all, round_trip, unopened, accept_init, make_nonce, handshake}
use fido.Session.{closing, open_key}
use fido.Session.Reply.{own, keepalives}
use fido.Session.Await.{Delivers}
use fido.Session.Exchange.{round_trip-verdict}

-- The key that an INIT reply makes.
abbrev pub opened : InitReply → Key
opened init = record {
  attached = true;
  channel = init.channel;
  version = init.version;
  caps = init.caps;
}

module _ {S : Type 0} (t : Transport S) (r : Random S) where
  accept_init-own :
      (init : InitReply) (reply : Bytes) (s : S)
      → parse_init reply ≡ ok init
      → accept_init t unopened init.nonce reply s ≡ (value (opened init), s)
  unfolding accept_init
  accept_init-own init reply s e = rw (e, bytes_eq_refl init.nonce)

  pub handshake-value :
      (fuel : ℕ) (reply : Bytes) (init : InitReply) (s s₁ s₂ : S)
      → r.nonce s ≡ (filled init.nonce, s₁)
      → round_trip t fuel unopened cmd_init init.nonce s₁ ≡ (value reply, s₂)
      → parse_init reply ≡ ok init
      → handshake t r fuel s ≡ (value (opened init), s₂)
  unfolding handshake make_nonce
  handshake-value fuel reply init s s₁ s₂ made answered e =
      let found : make_nonce t r s ≡ (value init.nonce, s₁) = ground arith in
      bind-value (make_nonce t r)
        (λ n. round_trip t fuel unopened cmd_init n >>= accept_init t unopened n) found
      ∙ bind-value (round_trip t fuel unopened cmd_init init.nonce)
          (accept_init t unopened init.nonce) answered
      ∙ accept_init-own init reply s₂ e

  pub closing-fine :
      {A : Type 0} (k : Key) (m : M S A) (s u : S) (a : A)
      → m s ≡ (value a, u)
      → closing t k m s ≡ (value a, u)
  unfolding closing
  closing-fine k m s u a h = ground arith

  -- When the nonce is made, the packets of INIT are sent, and the transport then delivers reports of
  -- at least five bytes, as many as the fuel at most, whose own ones are keepalives and then the
  -- packets of a reply that parses and repeats the nonce, `Open` yields the key that the reply
  -- describes.
  pub open_key-opened :
      (fuel : ℕ) (ks ps more : List Bytes) (reply : Bytes) (init : InitReply) (s s₁ s₂ s₃ : S)
      → r.nonce s ≡ (filled init.nonce, s₁)
      → length init.nonce ≤ 7609
      → send_all t unopened (packets unopened.channel cmd_init init.nonce) s₁ ≡ (value tt, s₂)
      → Delivers t s₂ ps s₃
      → length ps ≤ fuel
      → All (λ p. 5 ≤ length p) ps
      → own unopened.channel ps
        ≡ keepalives unopened.channel ks ++ (packets unopened.channel cmd_init reply ++ more)
      → All (λ k. length k ≤ 7609) ks
      → length reply ≤ 7609
      → parse_init reply ≡ ok init
      → (open_key t r fuel s).0 ≡ value (opened init)
  unfolding open_key
  open_key-opened fuel ks ps more reply init s s₁ s₂ s₃ filled_with short sent d f long mine hs hr
        e =
      let answered : (round_trip t fuel unopened cmd_init init.nonce s₁).0 ≡ value reply =
        round_trip-verdict t fuel cmd_init cmd_init unopened init.nonce reply ks ps more s₁ s₂ s₃
          refl (omega arith) short sent d f long mine hs (omega arith) (λ k. omega arith) hr in
      let whole : handshake t r fuel s
          ≡ (value (opened init), (round_trip t fuel unopened cmd_init init.nonce s₁).1) =
        handshake-value fuel reply init s s₁ _ filled_with
          (ap (λ o. (o, (round_trip t fuel unopened cmd_init init.nonce s₁).1)) answered) e in
      ap (λ x. x.0) (closing-fine unopened (handshake t r fuel) s _ (opened init) whole)
