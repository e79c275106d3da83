-- ===== src/Session.antt =====
-- key.go: `Key`, `Open`, `Close`, `Ping`, `Wink` and the exchange under them, `roundTrip`.
pub mod Stream
pub mod Reply
pub mod Await
pub mod Consume
pub mod Exchange
pub mod Wire
pub mod Peer
pub mod Dialogue
pub mod Ready
pub mod Touch
pub mod Panic
pub mod Opening
use fido.Base.{ℕ, zero, suc, ◌==◌, if◌then◌else◌, Bool, true, false, not, Option, none, some}
use fido.Base.{List, [], ◌∷◌, ◌++◌, get_or, bytes_eq}
use fido.Base.Bits.{Bytes}
use fido.Errors.{Text, Error, Result, ok, err, wrong_channel}
use fido.Errors.{no_nonce, bad_init, foreign_init, cannot_wink, cannot_send, no_answer, refused}
use fido.Errors.{wrong_command}
use fido.Format.{text, hex_u32}
use fido.Framing.{broadcast_channel, cmd_ping, cmd_init, cmd_wink, cmd_keepalive}
use fido.Framing.{Message, is_error, split}
use fido.Reassembly.{Reassembler, Fed, pending, done, failed, new_reassembler, feed}
use fido.Init.{Version, version_text, Capabilities, capabilities_text, cap_wink, has, parse_init}
use fido.Transport.{Transport, Random, report, broken, filled, exhausted}
use fido.Transport.{Outcome, value, error, panic, waiting, M, ◌>>=◌, ◌>>◌, return, raise, from}

-- `attached` is whether the field `t` still holds the transport: `Close` sets it to nil.
pub record Key : Type 0 where
  pub attached : Bool
  pub channel : ℕ
  pub version : Version
  pub caps : Capabilities

-- What a key answers without its transport.
abbrev pub key_version : Key → Version
key_version k = k.version

abbrev pub key_capabilities : Key → Capabilities
key_capabilities k = k.caps

abbrev pub key_channel : Key → ℕ
key_channel k = k.channel

is_wrong_channel : Error → Bool
is_wrong_channel wrong_channel = true
is_wrong_channel _ = false

-- How the loop of `roundTrip` goes on after a report.
pub data Next : Type 0 where
  again : Reassembler → Next
  stop : Outcome Bytes → Next

-- What becomes of a message that is whole.
unfoldable pub after_message : Text → ℕ → Reassembler → Message → Next
unfolding is_error
after_message name cmd rc m =
    if m.cmd == cmd_keepalive
    then again rc
    else if is_error m
    then stop (error (refused name (get_or m.content 0 0)))
    else if not (m.cmd == cmd)
    then stop (error (wrong_command name m.cmd cmd))
    else stop (value m.content)

-- What follows `Feed`.
unfoldable pub after_fed : Text → ℕ → Fed → Reassembler → Next
unfolding is_wrong_channel
after_fed name cmd pending rc = again rc
after_fed name cmd (failed e) rc = if is_wrong_channel e then again rc else stop (error e)
after_fed name cmd (done m) rc = after_message name cmd rc m

-- The body of the loop.
unfoldable pub after_report : Text → ℕ → Reassembler → Bytes → Next
after_report name cmd rc p = let (answer, rc') = feed rc p in after_fed name cmd answer rc'

-- The key that `Open` starts from.
abbrev pub unopened : Key
unopened = record {
  attached = true;
  channel = broadcast_channel;
  version = record { ctaphid = 0; major = 0; minor = 0; build = 0 };
  caps = 0;
}

module _ {S : Type 0} (t : Transport S) where
  -- A call through the field `t`, which panics on nil.
  abbrev with_transport : {A : Type 0} → Key → M S A → M S A
  with_transport k m s = if k.attached then m s else (panic, s)

  unfoldable pub name : Key → M S Text
  name k = with_transport k (return t.name)

  unfoldable pub send_all : Key → List Bytes → M S (Unit {0})
  send_all k [] = return tt
  send_all k (p ∷ ps) = with_transport k λ s.
      let (failure, s') = t.send p s in
      elim failure [ none ↦ send_all k ps s' | some cause ↦ (error (cannot_send t.name cause), s') ]

  -- The loop of `roundTrip`, which has no bound of its own: one report for each unit of fuel.
  unfoldable pub await : ℕ → Key → ℕ → Reassembler → M S Bytes
  await zero k cmd rc s = (waiting, s)
  await (suc fuel) k cmd rc s =
      with_transport k
        (λ s.
          let (got, s') = t.receive s in
          elim got [
            | broken cause ↦ (error (no_answer t.name cause), s')
            | report p ↦ elim (after_report t.name cmd rc p) [
              | again rc' ↦ await fuel k cmd rc' s'
              | stop o ↦ (o, s')
            ]
          ])
        s

  unfoldable pub round_trip : ℕ → Key → ℕ → Bytes → M S Bytes
  round_trip fuel k cmd content = do
    packets ← from (split k.channel cmd content)
    send_all k packets
    await fuel k cmd (new_reassembler k.channel)

  -- `Close` returns the transport's error, and the key without the transport.
  unfoldable pub close : Key → S → Option Text × Key × S
  close k s =
      if k.attached
      then (let (failure, s') = t.close s in (failure, record k { attached = false }, s'))
      else (none, k, s)

  unfoldable pub ping : ℕ → Key → Bytes → M S Bytes
  ping fuel k content = round_trip fuel k cmd_ping content

  unfoldable pub wink : ℕ → Key → M S (Unit {0})
  wink fuel k =
      if not (has k.caps cap_wink)
      then (name k >>= λ n. raise (cannot_wink n))
      else (round_trip fuel k cmd_wink [] >>= λ _. return tt)

  unfoldable pub key_text : Key → M S Text
  key_text k = do
    n ← name k
    return (
        n
        ++ text " ("
        ++ version_text k.version
        ++ text ", "
        ++ capabilities_text k.caps
        ++ text ") on channel "
        ++ hex_u32 k.channel)

  -- `k.Close()` in front of each `return nil, err` of `Open`, whose error is dropped.
  unfoldable pub closing : {A : Type 0} → Key → M S A → M S A
  closing k m s =
      let (o, s') = m s in
      elim o [
        | value a ↦ (value a, s')
        | error e ↦ (error e, (close k s').2)
        | panic ↦ (panic, s')
        | waiting ↦ (waiting, s')
      ]

  abbrev wrap : {A : Type 0} → (Error → Error) → Result A → Result A
  wrap f (ok a) = ok a
  wrap f (err e) = err (f e)

  -- The end of `Open`, with the reply to INIT at hand.
  unfoldable pub accept_init : Key → Bytes → Bytes → M S Key
  accept_init k nonce reply = do
    init ← from (wrap bad_init (parse_init reply))
    if bytes_eq init.nonce nonce
        then return (record k { channel = init.channel; version = init.version; caps = init.caps })
        else raise (foreign_init init.nonce nonce)

  unfoldable pub make_nonce : Random S → M S Bytes
  make_nonce r s =
      let (got, s') = r.nonce s in
      elim got [ filled nonce ↦ (value nonce, s') | exhausted cause ↦ (error (no_nonce cause), s') ]

  -- `Open` up to its last line.
  unfoldable pub handshake : Random S → ℕ → M S Key
  handshake r fuel = do
    nonce ← make_nonce r
    reply ← round_trip fuel unopened cmd_init nonce
    accept_init unopened nonce reply

  unfoldable pub open_key : Random S → ℕ → M S Key
  open_key r fuel = closing unopened (handshake r fuel)
