-- ===== src/Client/Escape/Chunks.antt =====
-- How keyboard input may be cut into reads, what passes through unchanged, and how a text is typed
-- so that the server gets exactly that text. All about `EscapeProcessor` of src/client.rs.
use ttyleport.Prelude.{
  ℕ, ◌||◌, Bool, true, false, List, [], ◌∷◌, ◌++◌, map, Bytes, ◌==◌, if◌then◌else◌, ◌≡◌, refl, sym,
  ap, ap₂, ◌∙◌, arith, append-nil, append_assoc, ◌≢◌, Bool-cases, inl, inr,
}
use ttyleport.Client.Escape.{
  EscapeState, normal, after_newline, after_tilde, EscapeAction, tilde, flush, round, process_from,
  process,
}
use ttyleport.Client.Escape.Stream.{
  Output, byte, outputs, next, is_detach, meaning, process-meaning,
}

-- Whether reading the input comes to a detach.
unfoldable pub detaches : EscapeState → Bytes → Bool
detaches state [] = false
detaches state (b ∷ input) = is_detach state b || detaches (next state b) input

pub meaning-append :
    (state : EscapeState) (xs ys : Bytes)
    → detaches state xs ≡ false
    → (meaning state (xs ++ ys)) ≡ (
      (meaning (meaning state xs).0 ys).0,
      (meaning state xs).1 ++ (meaning (meaning state xs).0 ys).1,
    )
unfolding meaning detaches
meaning-append state [] ys h = refl
meaning-append state (b ∷ xs) ys h = elim (Bool-cases (is_detach state b)) [
  | inl e ↦ cc (rw e at h)
  | inr e ↦ rw (e, meaning-append (next state b) xs ys (rw e at h), append_assoc)
]

meaning_detached :
    (state : EscapeState) (xs ys : Bytes)
    → detaches state xs ≡ true
    → meaning state (xs ++ ys) ≡ meaning state xs
unfolding meaning detaches
meaning_detached state [] ys h = cc
meaning_detached state (b ∷ xs) ys h = elim (Bool-cases (is_detach state b)) [
  | inl e ↦ rw e
  | inr e ↦ rw (e, meaning_detached (next state b) xs ys (rw e at h))
]

-- How the input is cut into reads does not matter: if the first part does not detach, two calls give
-- the same outputs in the same order as one call on the whole input, and end in the same state.
pub process-append :
    (state : EscapeState) (xs ys : Bytes)
    → detaches state xs ≡ false
    → let (mid, first) = process state xs in
      let (end, second) = process mid ys in
      ((process state (xs ++ ys)).0 ≡ end)
      × (outputs (process state (xs ++ ys)).1 ≡ outputs first ++ outputs second)
process-append state xs ys h =
    let e = meaning-append state xs ys h in
    let (whole_state, whole) = process-meaning state (xs ++ ys) in
    let (mid_state, first) = process-meaning state xs in
    let (end_state, second) = process-meaning (process state xs).0 ys in
    (
      whole_state
          ∙ (ap (λ (r : EscapeState × List Output). r.0) e ∙ (rw (← mid_state) (sym end_state))),
      whole
          ∙ (ap (λ (r : EscapeState × List Output). r.1) e
              ∙ (rw (← mid_state) (ap₂ (λ (x y : List Output). x ++ y) (sym first) (sym second)))),
    )

-- Nothing that stands behind a detach is read: neither the state nor the outputs depend on it.
pub process_detached :
    (state : EscapeState) (xs ys : Bytes)
    → detaches state xs ≡ true
    → ((process state (xs ++ ys)).0 ≡ (process state xs).0)
      × (outputs (process state (xs ++ ys)).1 ≡ outputs (process state xs).1)
process_detached state xs ys h =
    let e = meaning_detached state xs ys h in
    let (s, o) = process-meaning state (xs ++ ys) in
    let (t, p) = process-meaning state xs in
    (
      s ∙ (ap (λ (r : EscapeState × List Output). r.0) e ∙ sym t),
      o ∙ (ap (λ (r : EscapeState × List Output). r.1) e ∙ sym p),
    )

-- Whether a tilde stands right behind a newline, the end of the last read included.
unfoldable pub has_escape : EscapeState → Bytes → Bool
has_escape after_tilde s = true
has_escape state [] = false
has_escape normal (b ∷ s) = has_escape (next normal b) s
has_escape after_newline (b ∷ s) = b == tilde || has_escape (next after_newline b) s

process_from_plain :
    (state : EscapeState) (actions : List EscapeAction) (buf s : Bytes)
    → has_escape state s ≡ false
    → (process_from state actions buf s).1 ≡ flush (buf ++ s) actions
unfolding process_from round has_escape
process_from_plain normal actions buf [] h = rw append-nil
process_from_plain after_newline actions buf [] h = rw append-nil
process_from_plain after_tilde actions buf s h = cc
process_from_plain normal actions buf (b ∷ s) h =
    process_from_plain (next normal b) actions (buf ++ b ∷ []) s h ∙ rw append_assoc
process_from_plain after_newline actions buf (b ∷ s) h = ground (
  arith,
  process_from_plain after_newline actions (buf ++ b ∷ []) s,
  process_from_plain normal actions (buf ++ b ∷ []) s,
  append_assoc buf (b ∷ []) s,
)

-- Input in which no tilde follows a newline reaches the server unchanged, as one piece of data, and
-- nothing is sent for empty input.
pub process_plain :
    (state : EscapeState) (s : Bytes)
    → has_escape state s ≡ false
    → (process state s).1 ≡ flush s []
unfolding process
process_plain state s h = process_from_plain state [] [] s h

-- The keys that send one byte: a tilde behind a newline is typed twice.
abbrev keys_for : EscapeState → ℕ → Bytes
keys_for after_newline b = if b == tilde then tilde ∷ tilde ∷ [] else b ∷ []
keys_for _ b = b ∷ []

abbrev state_behind : EscapeState → ℕ → EscapeState
state_behind after_newline b = if b == tilde then normal else next after_newline b
state_behind state b = next state b

unfoldable pub keys : EscapeState → Bytes → Bytes
keys state [] = []
keys state (b ∷ s) = keys_for state b ++ keys (state_behind state b) s

meaning-keys :
    (state : EscapeState) (s : Bytes)
    → state ≢ after_tilde
    → (meaning state (keys state s)).1 ≡ map byte s
unfolding meaning keys
meaning-keys state [] h = refl
meaning-keys normal (b ∷ s) h =
    ap {B = List Output} (λ r. byte b ∷ r) (meaning-keys (next normal b) s (ground arith))
meaning-keys after_newline (b ∷ s) h =
    ground (arith, meaning-keys normal s (cc), meaning-keys after_newline s (cc))
meaning-keys after_tilde (b ∷ s) h = absurd (h refl)

-- Every text can be typed: with each tilde behind a newline typed twice, the server gets exactly the
-- text, and no action is taken.
pub process-keys :
    (state : EscapeState) (s : Bytes)
    → state ≢ after_tilde
    → outputs (process state (keys state s)).1 ≡ map byte s
process-keys state s h = (process-meaning state (keys state s)).1 ∙ meaning-keys state s h
