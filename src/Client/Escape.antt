-- ===== src/Client/Escape.antt =====
-- `EscapeProcessor` of src/client.rs: `~.`, `~^Z`, `~?` and `~~` behind a newline. A call of `process`
-- takes the state and a chunk of keyboard input, and returns the new state and the actions.
pub mod Stream
pub mod Chunks
use ttyleport.Prelude.{
  ℕ, ◌||◌, Bool, true, false, List, [], ◌∷◌, ◌++◌, Bytes, ◌==◌, if◌then◌else◌, is_empty, codes, ◌≡◌,
  refl,
}

pub data EscapeState : Type 0 where
  normal after_newline after_tilde : EscapeState

-- `EscapeAction::Data` is `typed`.
pub data EscapeAction : Type 0 where
  typed : Bytes → EscapeAction
  detach suspend help : EscapeAction

abbrev pub tilde : ℕ
tilde = b'~'

abbrev pub ctrl_z : ℕ
ctrl_z = 0x1a

abbrev pub is_newline : ℕ → Bool
is_newline b = b == b'\n' || b == b'\r'

-- What one round of the loop does: it goes on, or returns from the function.
pub data Round : Type 0 where
  go : EscapeState → List EscapeAction → Bytes → Round
  halt : EscapeState → List EscapeAction → Round

-- `if !data_buf.is_empty() { actions.push(Data(take(&mut data_buf))) }`
unfoldable pub flush : Bytes → List EscapeAction → List EscapeAction
flush buf actions = if is_empty buf then actions else actions ++ typed buf ∷ []

-- The body of the loop, with the two vectors that it pushes to. A flushed buffer is empty after it.
unfoldable pub round : EscapeState → List EscapeAction → Bytes → ℕ → Round
round normal actions buf b =
    go (if is_newline b then after_newline else normal) actions (buf ++ b ∷ [])
round after_newline actions buf b =
    if b == tilde
    then go after_tilde (flush buf actions) []
    else if is_newline b
    then go after_newline actions (buf ++ b ∷ [])
    else go normal actions (buf ++ b ∷ [])
round after_tilde actions buf b =
    if b == b'.'
    then halt after_tilde (flush buf actions ++ detach ∷ [])
    else if b == ctrl_z
    then go normal (flush buf actions ++ suspend ∷ []) []
    else if b == b'?'
    then go normal (flush buf actions ++ help ∷ []) []
    else if b == tilde
    then go normal actions (buf ++ tilde ∷ [])
    else if is_newline b
    then go after_newline actions (buf ++ tilde ∷ b ∷ [])
    else go normal actions (buf ++ tilde ∷ b ∷ [])

unfoldable pub process_from :
    EscapeState → List EscapeAction → Bytes → Bytes → EscapeState × List EscapeAction
process_from state actions buf [] = (state, flush buf actions)
process_from state actions buf (b ∷ input) = elim (round state actions buf b) [
  | go state' actions' buf' ↦ process_from state' actions' buf' input
  | halt state' actions' ↦ (state', actions')
]

unfoldable pub process : EscapeState → Bytes → EscapeState × List EscapeAction
unfolding process_from round flush
process state input = process_from state [] [] input

-- `EscapeProcessor::new`
abbrev pub initial : EscapeState
initial = after_newline

multiple_escapes_one_buffer :
    (process normal (codes "\n~?\n~.")).1
    ≡ typed (codes "\n") ∷ help ∷ typed (codes "\n") ∷ detach ∷ []
unfolding process
multiple_escapes_one_buffer = refl

tilde_then_newline :
    process normal (codes "\n~\n") ≡ (after_newline, typed (codes "\n") ∷ typed (codes "~\n") ∷ [])
unfolding process
tilde_then_newline = refl

only_tilde_buffered : process normal (codes "\n~") ≡ (after_tilde, typed (codes "\n") ∷ [])
unfolding process
only_tilde_buffered = refl

initial_state_detach : (process initial (codes "~.remaining")).1 ≡ detach ∷ []
unfolding process
initial_state_detach = refl
