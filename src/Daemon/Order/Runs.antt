-- ===== src/Daemon/Order/Runs.antt =====
-- Whole runs of the daemon of src/daemon.rs, whose map may be iterated in another order in each round.
use ttyleport.Prelude.{ℕ, ◌^◌, ◌≤◌, ◌<◌, ◌≡◌, refl, sym, ◌∙◌, ap₂, List, [], ◌∷◌, arith, length}
use ttyleport.Daemon.Step.{Daemon, initial, Effect, Next, again, Input, TaskEvent, step}
use ttyleport.Daemon.Invariant.{step_next_id}
use ttyleport.Daemon.Order.{SameTable}
use ttyleport.Daemon.Order.Requests.{Alike, SameEffects, step-SameOutcome}

abbrev pub Inputs : Type 0
Inputs = List (List TaskEvent × Input)

-- The runs from the start of `run`, the last input first, with the effects of each round: before each
-- round the map may come to be iterated in any other order.
pub data Shuffled (my_uid : ℕ) : Inputs → List (List Effect) → Daemon → Next → Type 0 where
  start : Shuffled my_uid [] [] initial again
  round :
      {inputs : Inputs} {effects : List (List Effect)} {d d' : Daemon} (tasks : List TaskEvent)
      (input : Input)
      → Shuffled my_uid inputs effects d again
      → Alike d d'
      → Shuffled my_uid
          ((tasks, input) ∷ inputs)
          ((step my_uid d' tasks input).1 ∷ effects)
          (step my_uid d' tasks input).0
          (step my_uid d' tasks input).2

-- The same effects in each round, but for the order of the aborts in the last one.
abbrev pub SameRun : Next → List (List Effect) → List (List Effect) → Type 0
SameRun next [] [] = Unit
SameRun next (es ∷ rounds) (es' ∷ rounds') = SameEffects next es es' × (rounds ≡ rounds')
SameRun next _ _ = ⊥

SameRun-again :
    (rounds rounds' : List (List Effect)) → SameRun again rounds rounds' → rounds ≡ rounds'
SameRun-again [] [] h = refl
SameRun-again (es ∷ rounds) (es' ∷ rounds') (e, h) =
    ap₂ (λ (fs : List Effect) (more : List (List Effect)). fs ∷ more) e h
SameRun-again [] (es ∷ rounds) h = absurd h
SameRun-again (es ∷ rounds) [] h = absurd h

Shuffled_next_id :
    {my_uid : ℕ} {inputs : Inputs} {effects : List (List Effect)} {d : Daemon} {next : Next}
    → Shuffled my_uid inputs effects d next
    → d.next_id ≤ length inputs
Shuffled_next_id start = omega arith
Shuffled_next_id (round {d' = d'} tasks input run h) =
    omega (arith, step_next_id _ d' tasks input, Shuffled_next_id run, h.next_id)

Alike-both :
    {d e d' e' : Daemon}
    → d.next_id ≡ e.next_id
    → SameTable d.sessions e.sessions
    → Alike d d'
    → Alike e e'
    → Alike d' e'
Alike-both {d} {e} {d'} {e'} ids same h k = record {
  sound = rw h.next_id h.sound';
  sound' = rw (h.next_id, ids) k.sound';
  next_id = k.next_id ∙ sym ids ∙ sym h.next_id;
  table = λ j. sym (h.table j) ∙ same j ∙ k.table j;
}

-- Nobody can tell the order in which the daemon's map is iterated: two runs on the same inputs, of less
-- than 2^32 rounds, in which the map is iterated in any orders that may change before each round, do the
-- same in every round, answers and lists included, and come to the same map, next id and way on. Only
-- where the daemon ends may its tasks be aborted in another order.
pub Shuffled-same :
    {my_uid : ℕ} {inputs : Inputs} {effects effects' : List (List Effect)} {d d' : Daemon}
    {next next' : Next}
    → Shuffled my_uid inputs effects d next
    → Shuffled my_uid inputs effects' d' next'
    → length inputs < 2 ^ 32
    → (next ≡ next')
      × (d.next_id ≡ d'.next_id)
      × SameTable d.sessions d'.sessions
      × SameRun next effects effects'
Shuffled-same start start short = (refl, refl, λ j. refl, tt)
Shuffled-same (round {d' = d} tasks input run h) (round {d' = e} _ _ run' k) short =
    let (goes, ids, same, rounds) = Shuffled-same run run' (omega arith) in
    let (next, ids', same', effects) =
      step-SameOutcome _ d e tasks input (omega (arith, Shuffled_next_id run, h.next_id, short))
        (Alike-both ids same h k) in
    (next, ids', same', (effects, SameRun-again _ _ rounds))
