-- ===== src/Client/Run.antt =====
-- The outer loop of `run` of src/client.rs: a relay on each connection, and the loop that attaches
-- again between two of them. What is sent on each connection is kept apart.
pub mod Plain
pub mod Variables
use ttyleport.Prelude.{
  ℕ, zero, suc, ◌+◌, ◌-◌, ◌*◌, ◌/◌, ◌%◌, ◌^◌, ◌≤◌, ◌<◌, ◌≡◌, refl, sym, ap, ap₂, subst, ◌∙◌, ◌≢◌,
  ◌↔◌, ◌⊎◌, inl, inr, Bool, true, false, not, ◌&&◌, ◌||◌, Option, none, some, List, [], ◌∷◌, ◌++◌,
  map, append-nil, append_assoc, arith, ltb, leb, ◌==◌, if◌then◌else◌, ==_iff, Bool-cases,
  Option-cases, Bytes, bytes_eq, bytes_eq_iff, is_empty, codes, length, take, drop, length-append,
  All, All-append, Lacks, Result, ok, err, ℤ, pos, negsuc,
}
use ttyleport.Client.Escape.{EscapeState, initial}
use ttyleport.Client.Relay.{
  World, Action, print, Stay, going, returned, failed, Round, Relay, Events, relay,
}
use ttyleport.Client.Reconnect.{Try, TryEnd, Tried, retry, reconnected, broke, gave_up, reconnect}

-- One connection with what comes behind it: what its relay meets, whether the terminal takes the
-- message, and the tries to attach again.
pub record Life : Type 0 where
  pub world : World
  pub events : Events
  pub can_print : Bool
  pub tries : List Try

-- What the client did: in the relay of a connection, and between two of them.
pub data Stage : Type 0 where
  relayed : List Action → Stage
  between : List Action → Stage

-- `run` returns a code or an error, or the inputs given end before it does.
pub data RunEnd : Type 0 where
  exited : (code : ℤ) → RunEnd
  run_failed unfinished : RunEnd

abbrev pub Ran : Type 0
Ran = List Stage × RunEnd

abbrev pub reconnecting : Action
reconnecting = print (codes "[reconnecting...]\r\n")

-- Behind the tries: `later` is the loop's next round.
abbrev pub after_tries : Tried → Ran → Ran
after_tries (acts, reconnected) later = (between (reconnecting ∷ acts) ∷ later.0, later.1)
after_tries (acts, gave_up code) later = (between (reconnecting ∷ acts) ∷ [], exited code)
after_tries (acts, broke) later = (between (reconnecting ∷ acts) ∷ [], run_failed)
after_tries (acts, retry) later = (between (reconnecting ∷ acts) ∷ [], unfinished)

-- A relay that returned `None`: the message, and the tries if it was written.
abbrev pub after_loss : Bool → Tried → Ran → Ran
after_loss true tried later = after_tries tried later
after_loss false tried later = (between (reconnecting ∷ []) ∷ [], run_failed)

-- `match relay(..)?`
abbrev pub after_relay : List Action → Stay → Bool → Tried → Ran → Ran
after_relay acts (returned (some code)) can tried later = (relayed acts ∷ [], exited code)
after_relay acts (returned none) can tried later =
    let rest = after_loss can tried later in (relayed acts ∷ rest.0, rest.1)
after_relay acts failed can tried later = (relayed acts ∷ [], run_failed)
after_relay acts (going n) can tried later = (relayed acts ∷ [], unfinished)

-- The loop. A later round has no variables, redraws, and keeps the state of the escape processor.
unfoldable pub run_loop : Bytes → List (Bytes × Bytes) → Bool → Option EscapeState → List Life → Ran
run_loop session vars redraw escape [] = ([], unfinished)
run_loop session vars redraw escape (life ∷ lives) =
    let (r, (acts, stay)) = relay life.world vars redraw escape life.events in
    let later = run_loop session [] true r.escape lives in
    after_relay acts stay life.can_print (reconnect session life.tries) later

abbrev pub first_escape : Bool → Option EscapeState
first_escape no_escape = if no_escape then none else some initial

unfoldable pub run : Bytes → List (Bytes × Bytes) → Bool → Bool → List Life → Ran
unfolding run_loop
run session vars redraw no_escape lives =
    run_loop session vars redraw (first_escape no_escape) lives
