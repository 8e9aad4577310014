-- ===== src/Client/Run/Variables.antt =====
-- When the client of src/client.rs sends the variables of its environment.
use ttyleport.Prelude.{
  ◌≡◌, refl, sym, subst, Bool, true, false, Option, none, some, List, [], ◌∷◌, Bytes, All,
}
use ttyleport.Client.Escape.{EscapeState}
use ttyleport.Client.Run.Plain.{Plain, relay-Plain}
use ttyleport.Client.Relay.{Action, Stay, going, returned, failed, relay}
use ttyleport.Client.Reconnect.{Tried, retry, reconnected, broke, gave_up, reconnect}
use ttyleport.Client.Reconnect.Persists.{Attaches, reconnect-Attaches}
use ttyleport.Client.Run.{
  Life, Stage, relayed, between, Ran, after_tries, after_loss, after_relay, run_loop, run,
  first_escape,
}

-- What may happen on a later connection and between two of them: no variables are sent, and the tries
-- ask for the session.
abbrev pub Later : Bytes → Stage → Type 0
Later session (relayed acts) = Plain acts
Later session (between acts) = All (Attaches session) acts

after_tries-Later :
    (session : Bytes) (tried : Tried) (later : Ran)
    → All (Attaches session) tried.0
    → All (Later session) later.0
    → All (Later session) (after_tries tried later).0
after_tries-Later session (acts, reconnected) later h hs = ((tt, h), hs)
after_tries-Later session (acts, gave_up code) later h hs = ((tt, h), tt)
after_tries-Later session (acts, broke) later h hs = ((tt, h), tt)
after_tries-Later session (acts, retry) later h hs = ((tt, h), tt)

after_loss-Later :
    (session : Bytes) (can : Bool) (tried : Tried) (later : Ran)
    → All (Attaches session) tried.0
    → All (Later session) later.0
    → All (Later session) (after_loss can tried later).0
after_loss-Later session true tried later h hs = after_tries-Later session tried later h hs
after_loss-Later session false tried later h hs = ((tt, tt), tt)

-- The stages behind the first relay.
abbrev Behind : Bytes → List Action → Ran → Type 0
Behind session acts ran =
    (rest : List Stage) × (ran.0 ≡ relayed acts ∷ rest) × All (Later session) rest

after_relay-Behind :
    (session : Bytes) (acts : List Action) (stay : Stay) (can : Bool) (tried : Tried) (later : Ran)
    → All (Attaches session) tried.0
    → All (Later session) later.0
    → Behind session acts (after_relay acts stay can tried later)
after_relay-Behind session acts (returned (some code)) can tried later h hs = ([], refl, tt)
after_relay-Behind session acts (returned none) can tried later h hs =
    ((after_loss can tried later).0, refl, after_loss-Later session can tried later h hs)
after_relay-Behind session acts failed can tried later h hs = ([], refl, tt)
after_relay-Behind session acts (going n) can tried later h hs = ([], refl, tt)

run_loop-Later :
    (session : Bytes) (redraw : Bool) (escape : Option EscapeState) (lives : List Life)
    → All (Later session) (run_loop session [] redraw escape lives).0
unfolding run_loop
run_loop-Later session redraw escape [] = tt
run_loop-Later session redraw escape (life ∷ lives) =
    let now = relay life.world [] redraw escape life.events in
    let (rest, e, h) =
      after_relay-Behind session now.1.0 now.1.1 life.can_print (reconnect session life.tries)
        (run_loop session [] true now.0.escape lives) (reconnect-Attaches session life.tries)
        (run_loop-Later session true now.0.escape lives) in
    subst (λ (stages : List Stage). All (Later session) stages) (sym e)
      (relay-Plain life.world redraw escape life.events, h)

-- The variables of the environment leave the client on its first connection only: whatever happens,
-- what the client does behind the relay of that connection is to relay without them and to send
-- nothing but requests for its own session.
pub run-Later :
    (session : Bytes) (vars : List (Bytes × Bytes)) (redraw no_escape : Bool) (life : Life)
    (lives : List Life)
    → (rest : List Stage) × ((run session vars redraw no_escape (life ∷ lives)).0
        ≡ relayed (relay life.world vars redraw (first_escape no_escape) life.events).1.0 ∷ rest)
      × All (Later session) rest
unfolding run run_loop
run-Later session vars redraw no_escape life lives =
    let now = relay life.world vars redraw (first_escape no_escape) life.events in
    after_relay-Behind session now.1.0 now.1.1 life.can_print (reconnect session life.tries)
      (run_loop session [] true now.0.escape lives) (reconnect-Attaches session life.tries)
      (run_loop-Later session true now.0.escape lives)
