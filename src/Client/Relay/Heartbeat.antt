-- ===== src/Client/Relay/Heartbeat.antt =====
-- How the relay of src/client.rs notices a dead connection.
use ttyleport.Prelude.{
  ℕ, ◌-◌, ◌<◌, true, [], ◌∷◌, ◌++◌, Option, none, some, Bytes, ltb, Result, ok, err, ◌≡◌, refl, ◌∙◌,
  arith, Bool-cases, inl, inr,
}
use ttyleport.Protocol.{Frame, DecodeError, data_frame, exit, detached, pong}
use ttyleport.Client.Escape.{EscapeState}
use ttyleport.Client.Relay.{
  World, Stay, going, returned, failed, Relay, Round, on_keys, eof, read_failed, read_would_block,
  keys, on_frame, on_tick, Input, stdin_in, frame_in, sigwinch_in, tick_in, relay_round, Events,
  chain_round, relay_loop, heartbeat_timeout,
}

-- Any input but a Pong.
abbrev pub IsSilent : Input → Type 0
IsSilent (frame_in (some (ok pong))) = ⊥
IsSilent _ = Unit

abbrev pub AllSilent : Events → Type 0
AllSilent [] = Unit
AllSilent ((w, input) ∷ events) = IsSilent input × AllSilent events

-- The relay has returned.
abbrev pub HasEnded : Stay → Type 0
HasEnded (going m) = ⊥
HasEnded _ = Unit

on_keys-last_pong :
    (w : World) (r : Relay) (o : Option EscapeState) (bytes : Bytes)
    → (on_keys w r o bytes).0.last_pong ≡ r.last_pong
on_keys-last_pong w r none bytes = refl
on_keys-last_pong w r (some state) bytes = refl

on_tick-last_pong : (w : World) (r : Relay) → (on_tick w r).0.last_pong ≡ r.last_pong
on_tick-last_pong w r = elim (Bool-cases (ltb heartbeat_timeout (w.now - r.last_pong))) [
  | inl e ↦ rw e refl
  | inr e ↦ rw e refl
]

on_frame-last_pong :
    (w : World) (r : Relay) (f : Option (Result DecodeError Frame))
    → IsSilent (frame_in f)
    → (on_frame w r f).0.last_pong ≡ r.last_pong
on_frame-last_pong w r none h = refl
on_frame-last_pong w r (some (err e)) h = refl
on_frame-last_pong w r (some (ok pong)) h = absurd h
on_frame-last_pong w r (some (ok (data_frame p))) h = refl
on_frame-last_pong w r (some (ok (exit code))) h = refl
on_frame-last_pong w r (some (ok detached)) h = refl
on_frame-last_pong w r (some (ok _)) h = refl

relay_round-last_pong :
    (w : World) (r : Relay) (input : Input)
    → IsSilent input
    → (relay_round w r input).0.last_pong ≡ r.last_pong
unfolding relay_round
relay_round-last_pong w r (stdin_in (keys bytes)) h = on_keys-last_pong w r r.escape bytes
relay_round-last_pong w r (stdin_in eof) h = refl
relay_round-last_pong w r (stdin_in read_failed) h = refl
relay_round-last_pong w r (stdin_in read_would_block) h = refl
relay_round-last_pong w r (frame_in f) h = on_frame-last_pong w r f h
relay_round-last_pong w r sigwinch_in h = refl
relay_round-last_pong w r tick_in h = on_tick-last_pong w r

chain_round-HasEnded :
    (t : ℕ) (round : Round) (k : Relay → Round)
    → round.0.last_pong ≡ t
    → ((r : Relay) → r.last_pong ≡ t → HasEnded (k r).1.1)
    → HasEnded (chain_round round k).1.1
chain_round-HasEnded t (r, (acts, going m)) k e h = h r e
chain_round-HasEnded t (r, (acts, returned code)) k e h = tt
chain_round-HasEnded t (r, (acts, failed)) k e h = tt

silent-HasEnded :
    (t : ℕ) (r : Relay) (before : Events) (w : World) (after : Events)
    → AllSilent before
    → r.last_pong ≡ t
    → heartbeat_timeout < w.now - t
    → HasEnded (relay_loop r (before ++ (w, tick_in) ∷ after)).1.1
unfolding relay_loop
silent-HasEnded t r [] w after _ e late =
    let over : ltb heartbeat_timeout (w.now - r.last_pong) ≡ true = ground arith in
    unfold relay_round in rw over tt
silent-HasEnded t r ((v, input) ∷ before) w after (quiet, rest) e late =
    chain_round-HasEnded t (relay_round v r input)
      (λ r'. relay_loop r' (before ++ (w, tick_in) ∷ after))
      (relay_round-last_pong v r input quiet ∙ e)
      (λ r' e'. silent-HasEnded t r' before w after rest e' late)

-- If no Pong comes before a heartbeat that is due more than fifteen seconds after the last one, the
-- relay is over by then, whatever else comes.
pub relay_loop-HasEnded :
    (r : Relay) (before : Events) (w : World) (after : Events)
    → AllSilent before
    → heartbeat_timeout < w.now - r.last_pong
    → HasEnded (relay_loop r (before ++ (w, tick_in) ∷ after)).1.1
relay_loop-HasEnded r before w after silent late =
    silent-HasEnded r.last_pong r before w after silent refl late
