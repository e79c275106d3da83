-- ===== src/Lifetime/Closing.antt =====
-- The life of a key: it is closed once at most, and does nothing afterwards.
use fido.Base.{ℕ, ◌+◌, ◌≡◌, ◌≢◌, ◌⊎◌, refl, ◌∙◌, ap, subst, arith, true, false, inl, inr}
use fido.Base.{List, [], ◌∷◌}
use fido.Base.Bits.{Bytes}
use fido.Transport.{Transport, Random}
use fido.Session.{Key, close}
use fido.Session.Touch.{Keeps-name, Keeps-key_text, Keeps-ping, Keeps-wink}
use fido.Cbor.{Cbor}
use fido.PinProtocol.{Crypto}
use mathlib.Core.Path.{ap₂}
use fido.Lifetime.{
  Call, call_name, call_text, call_ping, call_wink, call_cbor, call_info, call_retries,
  call_agreement, call_token, call_register, call_assert, call_close, after, after_all,
}
use fido.Lifetime.Touch.{
  Keeps-cbor, Keeps-get_info, Keeps-pin_retries, Keeps-key_agreement, Keeps-make_credential,
  Keeps-get_assertion,
}
use fido.Lifetime.Tokens.{Keeps-pin_token}

-- A transport that counts how often it is closed, and randomness beside the count.
abbrev pub counted : {S : Type 0} → Transport S → Transport (S × ℕ)
counted t = record {
  send = λ p x. let (failure, s) = t.send p x.0 in (failure, (s, x.1));
  receive = λ x. let (got, s) = t.receive x.0 in (got, (s, x.1));
  name = t.name;
  close = λ x. let (failure, s) = t.close x.0 in (failure, (s, x.1 + 1));
}

abbrev pub beside : {S : Type 0} → Random S → Random (S × ℕ)
beside r = record {
  nonce = λ x. let (got, s) = r.nonce x.0 in (got, (s, x.1));
  iv = λ x. let (got, s) = r.iv x.0 in (got, (s, x.1));
  private_key = λ x. let (got, s) = r.private_key x.0 in (got, (s, x.1));
}

Call-cases : (call : Call) → (call ≡ call_close) ⊎ (call ≢ call_close)
Call-cases call_close = inl refl
Call-cases call_name = inr (λ e. cc)
Call-cases call_text = inr (λ e. cc)
Call-cases (call_ping fuel content) = inr (λ e. cc)
Call-cases (call_wink fuel) = inr (λ e. cc)
Call-cases (call_cbor fuel cmd params) = inr (λ e. cc)
Call-cases (call_info fuel) = inr (λ e. cc)
Call-cases (call_retries fuel) = inr (λ e. cc)
Call-cases (call_agreement fuel proto) = inr (λ e. cc)
Call-cases (call_token fuel pin proto permissions rp_id) = inr (λ e. cc)
Call-cases (call_register fuel request) = inr (λ e. cc)
Call-cases (call_assert fuel request) = inr (λ e. cc)

module _ {S : Type 0} (t : Transport S) (c : Cbor) (y : Crypto) (r : Random S) where
  -- Every call but `Close` leaves the key as it is.
  after-key : (call : Call) (k : Key) (s : S) → call ≢ call_close → (after t c y r call k s).0 ≡ k
  after-key call_close k s ne = absurd (ne refl)
  after-key call_name k s ne = refl
  after-key call_text k s ne = refl
  after-key (call_ping fuel content) k s ne = refl
  after-key (call_wink fuel) k s ne = refl
  after-key (call_cbor fuel cmd params) k s ne = refl
  after-key (call_info fuel) k s ne = refl
  after-key (call_retries fuel) k s ne = refl
  after-key (call_agreement fuel proto) k s ne = refl
  after-key (call_token fuel pin proto permissions rp_id) k s ne = refl
  after-key (call_register fuel request) k s ne = refl
  after-key (call_assert fuel request) k s ne = refl

  module _ (k : Key) (P : S → Type 0)
      (sends : k.attached ≡ true → (p : Bytes) (s : S) → P s → P (t.send p s).1)
      (receives : k.attached ≡ true → (s : S) → P s → P (t.receive s).1)
      (fills : k.attached ≡ true → (s : S) → P s → P (r.iv s).1)
      (generates : k.attached ≡ true → (s : S) → P s → P (r.private_key s).1) where
    -- What sending, receiving and randomness keep while the key is open, every call but `Close` keeps.
    after-keeps : (call : Call) → call ≢ call_close → (s : S) → P s → P (after t c y r call k s).1
    after-keeps call_close ne = absurd (ne refl)
    after-keeps call_name ne = (Keeps-name t k P sends receives).at
    after-keeps call_text ne = (Keeps-key_text t k P sends receives).at
    after-keeps (call_ping fuel content) ne = (Keeps-ping t k P sends receives fuel content).at
    after-keeps (call_wink fuel) ne = (Keeps-wink t k P sends receives fuel).at
    after-keeps (call_cbor fuel cmd params) ne =
        (Keeps-cbor t c k P sends receives fuel cmd params).at
    after-keeps (call_info fuel) ne = (Keeps-get_info t c k P sends receives fuel).at
    after-keeps (call_retries fuel) ne = (Keeps-pin_retries t c k P sends receives fuel).at
    after-keeps (call_agreement fuel proto) ne =
        (Keeps-key_agreement t c k P sends receives fuel proto).at
    after-keeps (call_token fuel pin proto permissions rp_id) ne =
        (Keeps-pin_token t c k y r P sends receives fills generates fuel pin proto permissions
          rp_id).at
    after-keeps (call_register fuel request) ne =
        (Keeps-make_credential t c k P sends receives y fuel request).at
    after-keeps (call_assert fuel request) ne =
        (Keeps-get_assertion t c k P sends receives y fuel request).at

  close_detached : (k : Key) (s : S) → k.attached ≡ false → after t c y r call_close k s ≡ (k, s)
  unfolding close
  close_detached k s off = ground arith

  after_detached :
      (call : Call) (k : Key) (s : S) → k.attached ≡ false → after t c y r call k s ≡ (k, s)
  after_detached call k s off = elim (Call-cases call) [
    | inl e ↦ rw e (close_detached k s off)
    | inr ne ↦
        let still : (after t c y r call k s).1 ≡ s =
          after-keeps k (λ u. u ≡ s) (λ on. absurd (cc)) (λ on. absurd (cc)) (λ on. absurd (cc))
            (λ on. absurd (cc)) call ne s refl in
        ap₂ (λ a b. (a, b)) (after-key call k s ne) still
  ]

  -- On a closed key no sequence of calls has any effect: neither the transport nor a source of
  -- randomness is touched.
  pub after_all_detached :
      (calls : List Call) (k : Key) (s : S)
      → k.attached ≡ false
      → after_all t c y r calls k s ≡ (k, s)
  after_all_detached [] k s off = refl
  after_all_detached (call ∷ calls) k s off =
      let step = after_detached call k s off in rw step (after_all_detached calls k s off)

-- A key, its state and the count of closings, against those that calls began with: as they were, or
-- closed, and closed once.
abbrev pub OpenOrClosed : {S : Type 0} → Key → ℕ → Key × (S × ℕ) → Type 0
OpenOrClosed k n (k', x) =
    ((k' ≡ k) × (x.1 ≡ n)) ⊎ ((k' ≡ record k { attached = false }) × (x.1 ≡ n + 1))

module _ {S : Type 0} (t : Transport S) (c : Cbor) (y : Crypto) (r : Random S) where
  close_counted :
      (k : Key) (s : S) (n : ℕ)
      → k.attached ≡ true
      → let (k', x) = after (counted t) c y (beside r) call_close k (s, n) in
        (k' ≡ record k { attached = false }) × (x.1 ≡ n + 1)
  unfolding close
  close_counted k s n on = ground arith

  -- After any sequence of calls on an open key, whatever they return, either the key is as it was and
  -- its transport has not been closed, or the key is the closed one and its transport has been closed
  -- exactly once.
  pub after_all-OpenOrClosed :
      (calls : List Call) (k : Key) (s : S) (n : ℕ)
      → k.attached ≡ true
      → OpenOrClosed k n (after_all (counted t) c y (beside r) calls k (s, n))
  after_all-OpenOrClosed [] k s n on = inl (refl, refl)
  after_all-OpenOrClosed (call ∷ calls) k s n on = elim (Call-cases call) [
    | inl e ↦
        let step = after (counted t) c y (beside r) call_close k (s, n) in
        let (shut, count) = close_counted k s n on in
        let off : step.0.attached ≡ false = ap (λ (k' : Key). k'.attached) shut in
        rw e (
          rw (after_all_detached (counted t) c y (beside r) calls step.0 step.1 off)
            (inr (shut, count)))
    | inr ne ↦
        let same = after-key (counted t) c y (beside r) call k (s, n) ne in
        let kept : (after (counted t) c y (beside r) call k (s, n)).1.1 ≡ n =
          after-keeps (counted t) c y (beside r) k (λ x. x.1 ≡ n) (λ on p x h. h) (λ on x h. h)
            (λ on x h. h) (λ on x h. h) call ne (s, n) refl in
        let step = after (counted t) c y (beside r) call k (s, n) in
        let rest = after_all (counted t) c y (beside r) calls step.0 step.1 in
        let open_still : step.0.attached ≡ true = ap (λ (k' : Key). k'.attached) same ∙ on in
        subst (λ k₀. OpenOrClosed k₀ n rest) same
          (subst (λ n₀. OpenOrClosed step.0 n₀ rest) kept
            (after_all-OpenOrClosed calls step.0 step.1.0 step.1.1 open_still))
  ]
