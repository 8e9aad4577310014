-- ===== src/Tests/Order.antt =====
-- The theorem about the order of the map of src/daemon.rs at two runs that iterate it in two orders.
use ttyleport.Prelude.{
  ◌≡◌, false, List, [], ◌∷◌, none, some, Bytes, codes, ok, refl, arith, Bool-cases, ◌==◌, ==_iff,
  sym, inl, inr,
}
use ttyleport.Protocol.{new_session, list_sessions}
use ttyleport.Security.{verify_peer_uid}
use ttyleport.Daemon.{
  SessionState, is_named, find_by_name, lookup, reap_sessions, retain, contains_key, insert, remove,
}
use ttyleport.Daemon.Step.{
  Daemon, initial, again, Effect, accepted, handle, handle_new_session, is_dup, create_session,
  select, Input, step, apply_tasks,
}
use ttyleport.Daemon.Table.{IsTable}
use ttyleport.Daemon.Order.{SameTable}
use ttyleport.Daemon.Order.Requests.{Alike}
use ttyleport.Daemon.Order.Runs.{Inputs, Shuffled, start, round, SameRun, Shuffled-same}

abbrev asks_work : Input
asks_work = accepted (ok 1000) (some (ok (new_session (codes "work"))))

abbrev asks_play : Input
asks_play = accepted (ok 1000) (some (ok (new_session (codes "play"))))

abbrev asks_list : Input
asks_list = accepted (ok 1000) (some (ok list_sessions))

abbrev one : Daemon
one = (step 1000 initial [] asks_work).0

abbrev two : Daemon
two = (step 1000 one [] asks_play).0

abbrev session : Bytes → SessionState
session name = record { finished = false; closed = false; metadata = none; name = some name }

-- Both orders of the two sessions.
abbrev older : Daemon
older = record {
  sessions = (0, session (codes "work")) ∷ (1, session (codes "play")) ∷ [];
  next_id = 2;
}

abbrev newer : Daemon
newer = record {
  sessions = (1, session (codes "play")) ∷ (0, session (codes "work")) ∷ [];
  next_id = 2;
}

older-IsTable : IsTable 2 older.sessions
unfolding contains_key find_by_name is_named
older-IsTable = (omega arith, refl, refl, (omega arith, refl, refl, tt))

newer-IsTable : IsTable 2 newer.sessions
unfolding contains_key find_by_name is_named
newer-IsTable = (omega arith, refl, refl, (omega arith, refl, refl, tt))

older_same : SameTable newer.sessions older.sessions
unfolding lookup
older_same j = elim (Bool-cases (1 == j)) [
  | inl e ↦ let same : 1 ≡ j = (==_iff 1 j).0 e in rw (sym same) refl
  | inr e ↦ rw e refl
]

Alike-self : (d : Daemon) → IsTable d.next_id d.sessions → Alike d d
Alike-self d h = record { sound = h; sound' = h; next_id = refl; table = λ j. refl }

-- As the daemon has inserted the sessions.
newer-older : Alike newer older
newer-older = record {
  sound = newer-IsTable;
  sound' = older-IsTable;
  next_id = refl;
  table = older_same;
}

one-IsTable : IsTable one.next_id one.sessions
unfolding step select verify_peer_uid handle handle_new_session is_dup create_session find_by_name
    is_named apply_tasks reap_sessions retain insert remove contains_key
one-IsTable = (omega arith, refl, refl, tt)

abbrev asked : Inputs
asked = ([], asks_play) ∷ ([], asks_work) ∷ []

abbrev answered : List (List Effect)
answered = (step 1000 one [] asks_play).1 ∷ (step 1000 initial [] asks_work).1 ∷ []

both_created : Shuffled 1000 asked answered newer again
unfolding step select verify_peer_uid handle handle_new_session is_dup create_session find_by_name
    is_named apply_tasks reap_sessions retain insert remove
both_created =
    round [] asks_play (round [] asks_work start (Alike-self initial tt))
      (Alike-self one one-IsTable)

Shuffled-same_example :
    let (d, effects, next) = step 1000 newer [] asks_list in
    let (d', effects', next') = step 1000 older [] asks_list in
    (next ≡ next')
    × (d.next_id ≡ d'.next_id)
    × SameTable d.sessions d'.sessions
    × SameRun next (effects ∷ answered) (effects' ∷ answered)
Shuffled-same_example =
    Shuffled-same (round [] asks_list both_created (Alike-self newer newer-IsTable))
      (round [] asks_list both_created newer-older) (omega arith)
