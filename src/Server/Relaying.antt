-- ===== src/Server/Relaying.antt =====
-- The bytes that the relay loop of src/server.rs carries, in whatever order its sources are ready.
use ttyleport.Prelude.{
  All, ℕ, Bool, true, false, List, [], ◌∷◌, ◌++◌, none, some, ok, ◌≡◌, ◌≢◌, refl, Bytes, take, ap,
}
use ttyleport.Protocol.{Frame, data_frame, resize, exit, ping}
use ttyleport.Security.{clamp_winsize}
use ttyleport.Server.{
  Answers, Input, Events, Effect, Session, Relay, PtyWrite, frame_in, pty_in, client_in, relaying,
  broken, step, steps, relay_turn, after_turn, on_frame, on_pty, on_client, on_data, on_ping,
  on_resize, wrote, write_failed, write_would_block, output, read_would_block, send, pty_input,
}

-- What the shell is given.
abbrev pub typed_bytes : List Effect → Bytes
typed_bytes [] = []
typed_bytes (pty_input p ∷ es) = p ++ typed_bytes es
typed_bytes (_ ∷ es) = typed_bytes es

-- What clients are given of the shell's output.
abbrev pub shown_bytes : List Effect → Bytes
shown_bytes [] = []
shown_bytes (send c (data_frame p) ∷ es) = p ++ shown_bytes es
shown_bytes (_ ∷ es) = shown_bytes es

abbrev pub taken : PtyWrite → Bytes → Bytes
taken (wrote n) p = take n p
taken _ p = []

-- What the PTY takes of the clients' Data frames.
abbrev pub typed_in : Events → Bytes
typed_in [] = []
typed_in ((a, frame_in (some (ok (data_frame p)))) ∷ events) = taken a.write p ++ typed_in events
typed_in (_ ∷ events) = typed_in events

-- What the shell writes.
abbrev pub shown_in : Events → Bytes
shown_in [] = []
shown_in ((a, pty_in (output p)) ∷ events) = p ++ shown_in events
shown_in (_ ∷ events) = shown_in events

-- The client that came last.
abbrev pub last_client : ℕ → Events → ℕ
last_client c [] = c
last_client c ((a, client_in (some new)) ∷ events) = last_client new events
last_client c (_ ∷ events) = last_client c events

-- An input on which the loop goes on: no failure, no end of the client or of the shell.
abbrev pub KeepsFrame : Answers → Frame → Type 0
KeepsFrame a (data_frame p) = a.write ≢ write_failed
KeepsFrame a (exit code) = ⊥
KeepsFrame a _ = Unit

abbrev pub Keeps : Answers × Input → Type 0
Keeps (a, frame_in (some (ok f))) = KeepsFrame a f
Keeps (a, pty_in (output p)) = a.sent ≡ true
Keeps (a, pty_in read_would_block) = Unit
Keeps (a, client_in client) = Unit
Keeps _ = ⊥

-- The loop still runs, for the client that came last, and the bytes went through in order.
abbrev pub Carries : ℕ → Events → Session × List Effect → Type 0
Carries c events (s, es) =
    (r : Relay) × (s ≡ relaying r)
    × (r.connection ≡ last_client c events)
    × (typed_bytes es ≡ typed_in events)
    × (shown_bytes es ≡ shown_in events)

-- The run from a given round on, for what that round came to.
abbrev proceed : Session × List Effect → Events → Session × List Effect
proceed (s, es) events = let later = steps s events in (later.0, es ++ later.1)

data-Carries :
    (a : Answers) (w : PtyWrite) (r : Relay) (p : Bytes) (events : Events)
    → a.write ≡ w
    → w ≢ write_failed
    → Carries r.connection events (steps (relaying r) events)
    → Carries r.connection
        ((a, frame_in (some (ok (data_frame p)))) ∷ events)
        (proceed (after_turn a (on_data w r p)) events)
data-Carries a (wrote n) r p events e k (r', at, last, typed, shown) =
    (r', at, last, rw (e, typed) refl, shown)
data-Carries a write_failed r p events e k _ = absurd (k refl)
data-Carries a write_would_block r p events e k (r', at, last, typed, shown) =
    (r', at, last, rw (e, typed) refl, shown)

resize-Carries :
    (a : Answers) (fg : Bool) (r : Relay) (cols rows : ℕ) (size : ℕ × ℕ) (events : Events)
    → Carries r.connection events (steps (relaying r) events)
    → Carries r.connection
        ((a, frame_in (some (ok (resize cols rows)))) ∷ events)
        (proceed (after_turn a (on_resize fg r size)) events)
resize-Carries a true r cols rows (c, w) events h = h
resize-Carries a false r cols rows (c, w) events h = h

output-Carries :
    (a : Answers) (r : Relay) (p : Bytes) (events : Events)
    → a.sent ≡ true
    → Carries r.connection events (steps (relaying r) events)
    → Carries r.connection
        ((a, pty_in (output p)) ∷ events)
        (proceed (after_turn a (on_pty a r (output p))) events)
unfolding on_pty
output-Carries a r p events e (r', at, last, typed, shown) =
    rw e (r', at, last, typed, ap (λ q. p ++ q) shown)

blocked-Carries :
    (a : Answers) (r : Relay) (events : Events)
    → Carries r.connection events (steps (relaying r) events)
    → Carries r.connection
        ((a, pty_in read_would_block) ∷ events)
        (proceed (after_turn a (on_pty a r read_would_block)) events)
unfolding on_pty
blocked-Carries a r events h = h

-- While nothing fails and neither the client nor the shell ends, in whatever order frames, output of
-- the shell and new clients come: the shell gets what the PTY takes of the clients' input, and the
-- clients get all that the shell writes, each in order and once, and the loop still runs, for the
-- client that came last.
pub steps-Carries :
    (r : Relay) (events : Events)
    → All Keeps events
    → Carries r.connection events (steps (relaying r) events)
unfolding steps step relay_turn on_frame on_client
steps-Carries r [] _ = (r, refl, refl, refl, refl)
steps-Carries r ((a, frame_in (some (ok (data_frame p)))) ∷ events) (k, ks) =
    data-Carries a a.write r p events refl k (steps-Carries r events ks)
steps-Carries r ((a, frame_in (some (ok (resize c w)))) ∷ events) (k, ks) =
    resize-Carries a a.foreground r c w (clamp_winsize c w) events (steps-Carries r events ks)
steps-Carries r ((a, frame_in (some (ok ping))) ∷ events) (k, ks) =
    steps-Carries (on_ping a.now r).0 events ks
steps-Carries r ((a, frame_in (some (ok (exit code)))) ∷ events) (k, ks) = absurd k
steps-Carries r ((a, frame_in (some (ok _))) ∷ events) (k, ks) = steps-Carries r events ks
steps-Carries r ((a, pty_in (output p)) ∷ events) (k, ks) =
    output-Carries a r p events k (steps-Carries r events ks)
steps-Carries r ((a, pty_in read_would_block) ∷ events) (k, ks) =
    blocked-Carries a r events (steps-Carries r events ks)
steps-Carries r ((a, client_in none) ∷ events) (k, ks) = steps-Carries r events ks
steps-Carries r ((a, client_in (some new)) ∷ events) (k, ks) =
    steps-Carries (record r { connection = new }) events ks
steps-Carries r ((a, _) ∷ events) (k, ks) = absurd k

-- What a client types while the PTY takes nothing is lost, and nobody is told: the run is the one
-- in which the frame was never sent.
pub steps_blocked :
    (a : Answers) (r : Relay) (typed : Bytes) (events : Events)
    → a.write ≡ write_would_block
    → steps (relaying r) ((a, frame_in (some (ok (data_frame typed)))) ∷ events)
      ≡ steps (relaying r) events
unfolding steps step relay_turn on_frame
steps_blocked a r typed events e = rw e refl

steps_broken : (events : Events) → steps broken events ≡ (broken, [])
unfolding steps step
steps_broken [] = refl
steps_broken ((a, i) ∷ events) = steps_broken events

-- When output of the shell cannot be sent, because the client's connection is broken, the session
-- is over, whatever follows: the last thing it does is that attempt, no later client is served, and
-- no client is told the end of the shell.
pub steps_unsent :
    (a : Answers) (r : Relay) (shown : Bytes) (events : Events)
    → a.sent ≡ false
    → steps (relaying r) ((a, pty_in (output shown)) ∷ events)
      ≡ (broken, send r.connection (data_frame shown) ∷ [])
unfolding steps step relay_turn on_pty
steps_unsent a r shown events e = rw (e, steps_broken events) refl
