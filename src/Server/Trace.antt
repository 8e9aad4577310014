-- ===== src/Server/Trace.antt =====
-- Every run of a session's task of src/server.rs: whom its frames go to.
use ttyleport.Prelude.{
  ℕ, Bool, true, false, List, [], ◌∷◌, Option, none, some, Result, ok, err, ◌≡◌, ◌≢◌, refl, All,
  All-append, Bytes,
}
use ttyleport.Protocol.{Frame, DecodeError, data_frame, resize, exit, detached, ping}
use ttyleport.Security.{clamp_winsize}
use ttyleport.Daemon.{SessionMetadata}
use ttyleport.Server.{
  Answers, Input, Events, Effect, Session, Relay, Turn, PtyWrite, frame_in, pty_in, client_in,
  child_in, send, relaying, waiting, ended, broken, step, steps, relay_turn, after_turn, wait_turn,
  on_frame, on_pty, on_client, on_child, on_data, on_resize, next, fail, break_with, client_gone,
  shell_exited, wrote, write_failed, write_would_block, output,
}

-- An effect that is harmless: if it is a frame, its connection satisfies the predicate.
abbrev pub SendsTo : (ℕ → Type 0) → Effect → Type 0
SendsTo P (send c f) = P c
SendsTo P _ = Unit

-- Every client that an input brings satisfies the predicate.
abbrev pub Brings : (ℕ → Type 0) → Answers × Input → Type 0
Brings P (a, client_in (some c)) = P c
Brings P _ = Unit

abbrev pub Talks : (ℕ → Type 0) → Session → Type 0
Talks P (relaying r) = P r.connection
Talks P _ = Unit

abbrev pub TurnTalks : (ℕ → Type 0) → Turn → Type 0
TurnTalks P (r, effects, flow) = P r.connection × All (SendsTo P) effects

on_data-Talks :
    (P : ℕ → Type 0) (w : PtyWrite) (r : Relay) (p : Bytes)
    → P r.connection
    → TurnTalks P (on_data w r p)
on_data-Talks P (wrote n) r p h = (h, (tt, tt))
on_data-Talks P write_failed r p h = (h, tt)
on_data-Talks P write_would_block r p h = (h, tt)

on_resize-Talks :
    (P : ℕ → Type 0) (fg : Bool) (r : Relay) (size : ℕ × ℕ)
    → P r.connection
    → TurnTalks P (on_resize fg r size)
on_resize-Talks P true r (c, w) h = (h, (tt, (tt, tt)))
on_resize-Talks P false r (c, w) h = (h, (tt, tt))

on_frame-Talks :
    (P : ℕ → Type 0) (a : Answers) (r : Relay) (f : Option (Result DecodeError Frame))
    → P r.connection
    → TurnTalks P (on_frame a r f)
unfolding on_frame
on_frame-Talks P a r none h = (h, tt)
on_frame-Talks P a r (some (err e)) h = (h, tt)
on_frame-Talks P a r (some (ok (data_frame p))) h = on_data-Talks P a.write r p h
on_frame-Talks P a r (some (ok (resize c w))) h =
    on_resize-Talks P a.foreground r (clamp_winsize c w) h
on_frame-Talks P a r (some (ok ping)) h = (h, (h, tt))
on_frame-Talks P a r (some (ok (exit code))) h = (h, tt)
on_frame-Talks P a r (some (ok _)) h = (h, tt)

relay_turn-Talks :
    (P : ℕ → Type 0) (a : Answers) (r : Relay) (i : Input)
    → P r.connection
    → Brings P (a, i)
    → TurnTalks P (relay_turn a r i)
unfolding relay_turn on_pty on_client on_child
relay_turn-Talks P a r (frame_in f) h b = on_frame-Talks P a r f h
relay_turn-Talks P a r (pty_in (output bytes)) h b = (h, (h, tt))
relay_turn-Talks P a r (pty_in _) h b = (h, tt)
relay_turn-Talks P a r (client_in none) h b = (h, tt)
relay_turn-Talks P a r (client_in (some c)) h b = (b, (h, tt))
relay_turn-Talks P a r (child_in none) h b = (h, tt)
relay_turn-Talks P a r (child_in (some code)) h b = (h, tt)

after_turn-Talks :
    (P : ℕ → Type 0) (a : Answers) (t : Turn)
    → TurnTalks P t
    → Talks P (after_turn a t).0 × All (SendsTo P) (after_turn a t).1
after_turn-Talks P a (r, es, next) (h, hs) = (h, hs)
after_turn-Talks P a (r, es, fail) (h, hs) = (tt, hs)
after_turn-Talks P a (r, es, break_with client_gone) (h, hs) = (tt, hs)
after_turn-Talks P a (r, es, break_with (shell_exited code)) (h, hs) =
    (tt, All-append (SendsTo P) es _ hs (h, tt))

wait_turn-Talks :
    (P : ℕ → Type 0) (a : Answers) (m : SessionMetadata) (i : Input)
    → Brings P (a, i)
    → Talks P (wait_turn m i)
unfolding wait_turn
wait_turn-Talks P a m (client_in none) b = tt
wait_turn-Talks P a m (client_in (some c)) b = b
wait_turn-Talks P a m (child_in none) b = tt
wait_turn-Talks P a m (child_in (some code)) b = tt
wait_turn-Talks P a m (frame_in f) b = tt
wait_turn-Talks P a m (pty_in f) b = tt

step-Talks :
    (P : ℕ → Type 0) (a : Answers) (s : Session) (i : Input)
    → Talks P s
    → Brings P (a, i)
    → Talks P (step a s i).0 × All (SendsTo P) (step a s i).1
unfolding step
step-Talks P a (relaying r) i h b =
    after_turn-Talks P a (relay_turn a r i) (relay_turn-Talks P a r i h b)
step-Talks P a (waiting m) i h b = (wait_turn-Talks P a m i b, tt)
step-Talks P a ended i h b = (tt, tt)
step-Talks P a broken i h b = (tt, tt)

pub steps-Talks :
    (P : ℕ → Type 0) (s : Session) (events : Events)
    → Talks P s
    → All (Brings P) events
    → All (SendsTo P) (steps s events).1
unfolding steps
steps-Talks P s [] h _ = tt
steps-Talks P s ((a, i) ∷ events) h (b, bs) =
    let (h', hs) = step-Talks P a s i h b in
    All-append (SendsTo P) (step a s i).1 _ hs (steps-Talks P (step a s i).0 events h' bs)

-- When a second client takes the session over, the first one is told so by one Detached frame,
-- and no frame of the rest of the run goes to it, unless it comes back through the daemon.
pub steps_takeover :
    (a : Answers) (r : Relay) (new : ℕ) (events : Events)
    → new ≢ r.connection
    → All (Brings (λ c. c ≢ r.connection)) events
    → (later : List Effect) × ((steps (relaying r) ((a, client_in (some new)) ∷ events)).1
        ≡ send r.connection detached ∷ later)
      × All (SendsTo (λ c. c ≢ r.connection)) later
unfolding steps step relay_turn on_client
steps_takeover a r new events h bs = (
  _,
  refl,
  steps-Talks (λ c. c ≢ r.connection) (relaying (record r { connection = new })) events h bs,
)
