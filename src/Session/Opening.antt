-- ===== src/Session/Opening.antt =====
-- `Open` and `Close`: who closes the transport, and when a key is handed out.
use fido.Base.{ℕ, ◌≡◌, arith, true, false, bytes_eq}
use fido.Base.{bytes_eq→eq, Bool-cases, inl, inr, none}
use fido.Base.Bits.{Bytes}
use fido.Errors.{Result-cases, Error, ok}
use fido.Framing.{cmd_init}
use fido.Init.{InitReply, parse_init}
use fido.Transport.{Transport, Random, value, error, M, ◌>>=◌}
use fido.Transport.Bind.{bind-eq-value}
use fido.Session.{Key}
use fido.Session.{
  round_trip, close, unopened, accept_init, make_nonce, handshake, closing, open_key,
}

module _ {S : Type 0} (t : Transport S) where
  -- A closed key has no transport: closing it again does nothing.
  pub close-close :
      (k : Key) (s : S)
      → let (_, k', s') = close t k s in (k'.attached ≡ false) × (close t k' s' ≡ (none, k', s'))
  unfolding close
  close-close k s = ground arith

  closing-error :
      {A : Type 0} (k : Key) (m : M S A) (s s' : S) (e : Error)
      → closing t k m s ≡ (error e, s')
      → (u : S) × (m s ≡ (error e, u)) × (s' ≡ (close t k u).2)
  unfolding closing
  closing-error k m s s' e h = ((m s).1, ground arith, ground arith)

  closing-value :
      {A : Type 0} (k : Key) (m : M S A) (s s' : S) (a : A)
      → closing t k m s ≡ (value a, s')
      → m s ≡ (value a, s')
  unfolding closing
  closing-value k m s s' a h = ground arith

  accept_init-value :
      (k k' : Key) (nonce reply : Bytes) (s s' : S)
      → accept_init t k nonce reply s ≡ (value k', s')
      → (init : InitReply) × (parse_init reply ≡ ok init)
        × (init.nonce ≡ nonce)
        × (k' ≡ record {
          attached = k.attached;
          channel = init.channel;
          version = init.version;
          caps = init.caps;
        })
        × (s ≡ s')
  unfolding accept_init
  accept_init-value k k' nonce reply s s' h = elim (Result-cases (parse_init reply)) [
    | inl (init, e) ↦ elim (Bool-cases (bytes_eq init.nonce nonce)) [
      | inl same ↦ (init, e, bytes_eq→eq init.nonce nonce same, ground arith, ground arith)
      | inr other ↦ absurd (ground arith)
    ]
    | inr (x, e) ↦ absurd (ground arith)
  ]

module _ {S : Type 0} (t : Transport S) (r : Random S) where
  -- When `Open` fails, closing the transport is the last thing that it does.
  pub open_key-error :
      (fuel : ℕ) (s s' : S) (e : Error)
      → open_key t r fuel s ≡ (error e, s')
      → (u : S) × (s' ≡ (t.close u).1)
  unfolding open_key close
  open_key-error fuel s s' e h =
      let (u, found, same) = closing-error t unopened (handshake t r fuel) s s' e h in (u, same)

  -- When it returns a key, the transport is open, and the key holds what the INIT reply to the nonce of
  -- this very call says, in the state in which that exchange ended.
  pub open_key-value :
      (fuel : ℕ) (s s' : S) (k : Key)
      → open_key t r fuel s ≡ (value k, s')
      → (nonce reply : Bytes) × (u : S) × (init : InitReply) × (make_nonce t r s ≡ (value nonce, u))
        × (round_trip t fuel unopened cmd_init nonce u ≡ (value reply, s'))
        × (parse_init reply ≡ ok init)
        × (init.nonce ≡ nonce)
        × (k ≡ record {
          attached = true;
          channel = init.channel;
          version = init.version;
          caps = init.caps;
        })
  unfolding open_key handshake
  open_key-value fuel s s' k h =
      let whole : handshake t r fuel s ≡ (value k, s') =
        closing-value t unopened (handshake t r fuel) s s' k h in
      let (nonce, u, made, rest) =
        bind-eq-value (make_nonce t r)
          (λ n. round_trip t fuel unopened cmd_init n >>= accept_init t unopened n) whole in
      let (reply, v, answered, last) =
        bind-eq-value (round_trip t fuel unopened cmd_init nonce) (accept_init t unopened nonce)
          rest in
      let (init, parsed, own, same, at) = accept_init-value t unopened k nonce reply v s' last in
      (nonce, reply, u, init, made, rw at at answered, parsed, own, same)
