-- ===== src/Client/Escape/Stream.antt =====
-- What the escape processor of src/client.rs means: one output for each byte, with no buffers. The
-- processor refines it.
use ttyleport.Prelude.{
  ℕ, Bool, true, false, List, [], ◌∷◌, ◌++◌, map, Bytes, ◌==◌, if◌then◌else◌, ◌≡◌, refl, sym, ◌∙◌,
  arith, append-nil, append_assoc,
}
use mathlib.Core.List.{map-append}
use ttyleport.Client.Escape.{
  EscapeState, normal, after_newline, after_tilde, EscapeAction, typed, detach, suspend, help,
  tilde, ctrl_z, is_newline, Round, go, halt, flush, round, process_from, process,
}

-- A byte for the server, or an action of the client.
pub data Output : Type 0 where
  byte : ℕ → Output
  do_detach do_suspend do_help : Output

abbrev pub outputs_of : EscapeAction → List Output
outputs_of (typed bytes) = map byte bytes
outputs_of detach = do_detach ∷ []
outputs_of suspend = do_suspend ∷ []
outputs_of help = do_help ∷ []

abbrev pub outputs : List EscapeAction → List Output
outputs [] = []
outputs (a ∷ actions) = outputs_of a ++ outputs actions

-- The state behind a byte, and the outputs of that byte.
abbrev pub next : EscapeState → ℕ → EscapeState
next normal b = if is_newline b then after_newline else normal
next after_newline b =
    if b == tilde then after_tilde else if is_newline b then after_newline else normal
next after_tilde b =
    if b == b'.' then after_tilde else if is_newline b then after_newline else normal

abbrev pub react : EscapeState → ℕ → List Output
react normal b = byte b ∷ []
react after_newline b = if b == tilde then [] else byte b ∷ []
react after_tilde b =
    if b == b'.'
    then do_detach ∷ []
    else if b == ctrl_z
    then do_suspend ∷ []
    else if b == b'?'
    then do_help ∷ []
    else if b == tilde
    then byte tilde ∷ []
    else byte tilde ∷ byte b ∷ []

-- Whether the byte detaches, after which nothing is read.
abbrev pub is_detach : EscapeState → ℕ → Bool
is_detach after_tilde b = b == b'.'
is_detach _ b = false

unfoldable pub meaning : EscapeState → Bytes → EscapeState × List Output
meaning state [] = (state, [])
meaning state (b ∷ input) =
    let (end, more) = meaning (next state b) input in
    if is_detach state b then (next state b, react state b) else (end, react state b ++ more)

outputs-append : (xs ys : List EscapeAction) → outputs (xs ++ ys) ≡ outputs xs ++ outputs ys
outputs-append [] ys = refl
outputs-append (x ∷ xs) ys = rw (outputs-append xs ys, append_assoc)

outputs-flush :
    (buf : Bytes) (actions : List EscapeAction)
    → outputs (flush buf actions) ≡ outputs actions ++ map byte buf
unfolding flush
outputs-flush [] actions = sym (append-nil (outputs actions))
outputs-flush (b ∷ buf) actions = rw (outputs-append actions (typed (b ∷ buf) ∷ []), append-nil)

-- What a round has done, in outputs.
abbrev Means : Round → EscapeState → List EscapeAction → Bytes → ℕ → Type 0
Means (go state' actions' buf') state actions buf b =
    (is_detach state b ≡ false)
    × (state' ≡ next state b)
    × (outputs actions' ++ map byte buf' ≡ (outputs actions ++ map byte buf) ++ react state b)
Means (halt state' actions') state actions buf b =
    (is_detach state b ≡ true)
    × (state' ≡ next state b)
    × (outputs actions' ≡ (outputs actions ++ map byte buf) ++ react state b)

-- A byte pushed on the buffer, and an action pushed behind the flushed buffer.
push_bytes :
    (actions : List EscapeAction) (buf more : Bytes)
    → outputs actions ++ map byte (buf ++ more) ≡ (outputs actions ++ map byte buf) ++ map byte more
push_bytes actions buf more = rw (map-append byte buf more, append_assoc)

push_action :
    (actions : List EscapeAction) (buf : Bytes) (a : EscapeAction)
    → outputs (flush buf actions ++ a ∷ []) ≡ (outputs actions ++ map byte buf) ++ outputs_of a
push_action actions buf a =
    outputs-append (flush buf actions) (a ∷ []) ∙ rw (outputs-flush buf actions, append-nil)

push_nothing :
    (actions : List EscapeAction) (buf : Bytes)
    → outputs (flush buf actions) ++ [] ≡ (outputs actions ++ map byte buf) ++ []
push_nothing actions buf = rw (outputs-flush buf actions)

round-Means :
    (state : EscapeState) (actions : List EscapeAction) (buf : Bytes) (b : ℕ)
    → Means (round state actions buf b) state actions buf b
unfolding round
round-Means normal actions buf b = (refl, refl, push_bytes actions buf (b ∷ []))
round-Means after_newline actions buf b =
    ground (arith, push_bytes actions buf (b ∷ []), push_nothing actions buf)
round-Means after_tilde actions buf b = ground (
  arith,
  push_bytes actions buf (tilde ∷ []),
  push_bytes actions buf (tilde ∷ b ∷ []),
  push_action actions buf detach,
  push_action actions buf suspend,
  push_action actions buf help,
  append-nil (outputs (flush buf actions ++ suspend ∷ [])),
  append-nil (outputs (flush buf actions ++ help ∷ [])),
)

-- The result has the state and the outputs that `meaning` gives behind those pending.
abbrev Agrees : EscapeState × List EscapeAction → EscapeState → List Output → Bytes → Type 0
Agrees result state pending input =
    (result.0 ≡ (meaning state input).0) × (outputs result.1 ≡ pending ++ (meaning state input).1)

abbrev pending : List EscapeAction → Bytes → List Output
pending actions buf = outputs actions ++ map byte buf

resume_Agrees :
    (r : Round) (state : EscapeState) (actions : List EscapeAction) (buf : Bytes) (b : ℕ)
    (input : Bytes)
    → Means r state actions buf b
    → ((s : EscapeState) (a : List EscapeAction) (f : Bytes)
        → Agrees (process_from s a f input) s (pending a f) input)
    → Agrees
        (elim r [
          | go state' actions' buf' ↦ process_from state' actions' buf' input
          | halt state' actions' ↦ (state', actions')
        ])
        state
        (pending actions buf)
        (b ∷ input)
unfolding meaning
resume_Agrees (go s a f) state actions buf b input (on, moved, out) ih =
    let (states, outs) = ih s a f in
    rw on (
      rw (← moved) states,
      outs ∙ rw (out, moved) (append_assoc _ (react state b) (meaning (next state b) input).1),
    )
resume_Agrees (halt s a) state actions buf b input (off, moved, out) ih = rw off (moved, out)

process_from-meaning :
    (state : EscapeState) (actions : List EscapeAction) (buf input : Bytes)
    → Agrees (process_from state actions buf input) state (pending actions buf) input
unfolding process_from meaning
process_from-meaning state actions buf [] =
    (refl, outputs-flush buf actions ∙ sym (append-nil (pending actions buf)))
process_from-meaning state actions buf (b ∷ input) =
    resume_Agrees (round state actions buf b) state actions buf b input
      (round-Means state actions buf b) (λ s a f. process_from-meaning s a f input)

-- For every state and every chunk of input, the processor ends in the state, and gives the bytes and
-- the actions in the order, that reading the chunk byte by byte gives.
pub process-meaning :
    (state : EscapeState) (input : Bytes)
    → ((process state input).0 ≡ (meaning state input).0)
      × (outputs (process state input).1 ≡ (meaning state input).1)
unfolding process
process-meaning state input = process_from-meaning state [] [] input
