-- ===== src/Daemon/Requests.antt =====
-- What each request to the daemon of src/daemon.rs does: the answer, the table behind it, and what
-- becomes of the connection and of the sessions' tasks.
use ttyleport.Prelude.{
  ℕ, ◌+◌, Bool, true, false, List, [], ◌∷◌, ◌++◌, map, Option, none, some, Bytes, ◌==◌, ◌≡◌, ◌≢◌,
  ◌⊎◌, refl, ap, ◌∙◌, arith, Bool-cases, Option-cases, inl, inr, append-nil, ==_iff,
}
use mathlib.Core.Option.{some-injective}
use ttyleport.Text.Decimal.{to_string, parse}
use ttyleport.Protocol.Decode.{u32_max}
use ttyleport.Protocol.{
  Frame, new_session, attach, kill_session, kill_server, session_created, ok_frame, error_frame,
}
use ttyleport.Daemon.{
  SessionState, Sessions, retain, reap_sessions, lookup, insert, remove, is_named, contains_key,
  find_by_name, find_by_id, resolve_session,
}
use ttyleport.Daemon.Step.{
  Daemon, again, done, Effect, reply, hand_off, abort, remove_files, name_opt, is_dup,
  create_session, handle_new_session, attach_to, attach_found, handle_attach, kill_found,
  handle_kill_session, abort_all, reaped, handle, name_exists, no_such_session,
}
use ttyleport.Daemon.Resolve.{lookup-remove, lookup-insert, is_named_self}

-- How many answers are sent.
abbrev pub replies : List Effect → ℕ
replies [] = 0
replies (reply f ∷ es) = replies es + 1
replies (hand_off id ∷ es) = replies es
replies (abort id ∷ es) = replies es
replies (remove_files ∷ es) = replies es

-- The ids of the tasks that are aborted, in order.
abbrev pub aborted : List Effect → List ℕ
aborted [] = []
aborted (abort id ∷ es) = id ∷ aborted es
aborted (reply f ∷ es) = aborted es
aborted (hand_off id ∷ es) = aborted es
aborted (remove_files ∷ es) = aborted es

replies-append : (xs ys : List Effect) → replies (xs ++ ys) ≡ replies xs + replies ys
replies-append [] ys = omega arith
replies-append (reply f ∷ xs) ys = omega (arith, replies-append xs ys)
replies-append (hand_off id ∷ xs) ys = replies-append xs ys
replies-append (abort id ∷ xs) ys = replies-append xs ys
replies-append (remove_files ∷ xs) ys = replies-append xs ys

replies-abort_all : (t : Sessions) → replies (abort_all t) ≡ 0
unfolding abort_all
replies-abort_all [] = refl
replies-abort_all ((id, s) ∷ t) = replies-abort_all t

attach_to-replies :
    (d : Daemon) (session : Bytes) (id : ℕ) (closed : Bool)
    → replies (attach_to d session id closed).1 ≡ 1
attach_to-replies d session id true = omega arith
attach_to-replies d session id false = omega arith

attach_found-replies :
    (d : Daemon) (session : Bytes) (found : Option ℕ) → replies (attach_found d session found).1 ≡ 1
attach_found-replies d session none = omega arith
attach_found-replies d session (some id) = attach_to-replies d session id _

kill_found-replies :
    (d : Daemon) (session : Bytes) (found : Option ℕ) → replies (kill_found d session found).1 ≡ 1
kill_found-replies d session none = omega arith
kill_found-replies d session (some id) = omega arith

-- Every frame on the control socket, also one that is no request, is answered exactly once.
pub replies-handle : (d : Daemon) (f : Frame) → replies (handle d f).1 ≡ 1
unfolding handle handle_new_session create_session handle_attach handle_kill_session
replies-handle d (new_session name) = ground arith
replies-handle d (attach session) = attach_found-replies (reaped d) session _
replies-handle d (kill_session session) = kill_found-replies (reaped d) session _
replies-handle d kill_server = omega (
  arith,
  replies-append (abort_all d.sessions) (reply ok_frame ∷ []),
  replies-abort_all d.sessions,
)
replies-handle d f = omega arith

name_opt-some : (name : Bytes) → name ≢ [] → name_opt name ≡ some name
name_opt-some [] h = absurd (h refl)
name_opt-some (c ∷ name) h = refl

-- A name that no session has: the session gets the next id, the client is told that id and handed to
-- the session, the name leads to the session, and no other id of the table is touched.
pub new_session_fresh :
    (d : Daemon) (name : Bytes)
    → name ≢ []
    → find_by_name d.sessions name ≡ none
    → let (d', effects, next) = handle d (new_session name) in
      (effects ≡ reply (session_created (to_string d.next_id)) ∷ hand_off d.next_id ∷ [])
      × (next ≡ again)
      × (resolve_session d'.sessions name ≡ some d.next_id)
      × ((j : ℕ) → j ≢ d.next_id → lookup j d'.sessions ≡ lookup j d.sessions)
unfolding handle handle_new_session create_session is_dup
new_session_fresh d name ne free =
    rw (name_opt-some name ne, free)
      (
        refl,
        refl,
        unfold insert resolve_session find_by_name in rw (is_named_self name),
        λ j h. lookup-insert d.next_id j _ d.sessions ∙ ground arith,
      )

-- A name that is taken: the client is told so, and nothing changes.
pub new_session_taken :
    (d : Daemon) (name : Bytes) (id : ℕ)
    → name ≢ []
    → find_by_name d.sessions name ≡ some id
    → handle d (new_session name) ≡ (d, reply (error_frame (name_exists name)) ∷ [], again)
unfolding handle handle_new_session is_dup
new_session_taken d name id ne taken = rw (name_opt-some name ne, taken)

-- Killing a session that is found: its task is aborted and the client is told so, its id is gone
-- from the table, and every other running session is still there.
pub kill_session_found :
    (d : Daemon) (session : Bytes) (id : ℕ)
    → resolve_session (reap_sessions d.sessions) session ≡ some id
    → let (d', effects, next) = handle d (kill_session session) in
      (effects ≡ abort id ∷ reply ok_frame ∷ [])
      × (next ≡ again)
      × (lookup id d'.sessions ≡ none)
      × ((j : ℕ) → j ≢ id → lookup j d'.sessions ≡ lookup j (reap_sessions d.sessions))
unfolding handle handle_kill_session
kill_session_found d session id found = rw found (
  refl,
  refl,
  lookup-remove id id (reap_sessions d.sessions) ∙ ground arith,
  λ j h. lookup-remove id j (reap_sessions d.sessions) ∙ ground arith,
)

-- No session in the table is finished.
lookup_reaped :
    (id : ℕ) (t : Sessions) (s : SessionState)
    → lookup id (reap_sessions t) ≡ some s
    → s.finished ≡ false
unfolding reap_sessions retain lookup
lookup_reaped id [] s h = cc
lookup_reaped id ((j, u) ∷ t) s h = elim (Bool-cases u.finished) [
  | inl over ↦ lookup_reaped id t s (rw over at h)
  | inr runs ↦ elim (Bool-cases (j == id)) [
    | inl e ↦ ground (arith, rw (runs, e) at h)
    | inr e ↦ lookup_reaped id t s (rw (runs, e) at h)
  ]
]

-- What is found by name, by id, or as a target, is in the table.
find_by_name-lookup :
    (t : Sessions) (name : Bytes) (id : ℕ)
    → find_by_name t name ≡ some id
    → (s : SessionState) × (lookup id t ≡ some s)
unfolding find_by_name lookup
find_by_name-lookup [] name id h = cc h
find_by_name-lookup ((j, u) ∷ t) name id h = elim (Bool-cases (j == id)) [
  | inl e ↦ (u, rw e refl)
  | inr e ↦ elim (Bool-cases (is_named u.name name)) [
    | inl named ↦
        let same : j == id ≡ true = (==_iff j id).1 (some-injective j id (rw named at h)) in
        cc (same, e)
    | inr other ↦ let (s, l) = find_by_name-lookup t name id (rw other at h) in (s, rw e l)
  ]
]

contains_key-lookup :
    (id : ℕ) (t : Sessions) → contains_key id t ≡ true → (s : SessionState) × (lookup id t ≡ some s)
unfolding contains_key lookup
contains_key-lookup id [] h = cc h
contains_key-lookup id ((j, u) ∷ t) h = elim (Bool-cases (j == id)) [
  | inl e ↦ (u, rw e refl)
  | inr e ↦ let (s, l) = contains_key-lookup id t (rw e at h) in (s, rw e l)
]

find_by_id-lookup :
    (t : Sessions) (o : Option ℕ) (id : ℕ)
    → find_by_id t o ≡ some id
    → (s : SessionState) × (lookup id t ≡ some s)
unfolding find_by_id
find_by_id-lookup t none id h = cc h
find_by_id-lookup t (some k) id h = elim (Bool-cases (contains_key k t)) [
  | inr gone ↦ cc (rw gone at h)
  | inl there ↦
      let same : k ≡ id = some-injective k id (rw there at h) in
      contains_key-lookup id t (rw (← same) there)
]

resolve_session-lookup :
    (t : Sessions) (target : Bytes) (id : ℕ)
    → resolve_session t target ≡ some id
    → (s : SessionState) × (lookup id t ≡ some s)
unfolding resolve_session
resolve_session-lookup t target id h = elim (Option-cases (find_by_name t target)) [
  | inr (k, e) ↦ find_by_name-lookup t target id (rw e (rw e at h))
  | inl e ↦ find_by_id-lookup t (parse u32_max target) id (rw e at h)
]

-- Attaching hands the connection over, behind the answer `Ok`, exactly when the target leads to a
-- session that has not finished and whose channel is open; the table then only loses finished sessions.
-- The only answer is the error, and no session gets the connection, exactly when the target leads to
-- none that has not finished, or to one whose channel is closed, which then also leaves the table.
pub attach_cases :
    (d : Daemon) (session : Bytes)
    → let t = reap_sessions d.sessions in
      let (d', effects, next) = handle d (attach session) in
      (next ≡ again)
      × (((id : ℕ) × (s : SessionState) × (resolve_session t session ≡ some id)
            × (lookup id t ≡ some s)
            × (s.finished ≡ false)
            × (s.closed ≡ false)
            × (effects ≡ reply ok_frame ∷ hand_off id ∷ [])
            × (d'.sessions ≡ t))
          ⊎ ((effects ≡ reply (error_frame (no_such_session session)) ∷ [])
              × (((resolve_session t session ≡ none) × (d'.sessions ≡ t))
                  ⊎ ((id : ℕ) × (s : SessionState) × (resolve_session t session ≡ some id)
                      × (lookup id t ≡ some s)
                      × (s.closed ≡ true)
                      × (d'.sessions ≡ remove id t)))))
unfolding handle handle_attach
attach_cases d session = elim (Option-cases (resolve_session (reap_sessions d.sessions) session)) [
  | inl e ↦ rw e (refl, inr (refl, inl (refl, refl)))
  | inr (id, e) ↦
      let (s, l) = resolve_session-lookup (reap_sessions d.sessions) session id e in
      elim (Bool-cases s.closed) [
        | inl shut ↦ rw (e, l, shut) (refl, inr (refl, inr (id, s, refl, l, shut, refl)))
        | inr open_ ↦
            rw (e, l, open_)
              (refl, inl (id, s, refl, l, lookup_reaped id d.sessions s l, open_, refl, refl))
      ]
]

aborted-abort_all : (t : Sessions) → aborted (abort_all t) ≡ map (λ (p : ℕ × SessionState). p.0) t
unfolding abort_all
aborted-abort_all [] = refl
aborted-abort_all ((id, s) ∷ t) = ap {B = List ℕ} (λ r. id ∷ r) (aborted-abort_all t)

aborted-append : (xs ys : List Effect) → aborted (xs ++ ys) ≡ aborted xs ++ aborted ys
aborted-append [] ys = refl
aborted-append (reply f ∷ xs) ys = aborted-append xs ys
aborted-append (hand_off id ∷ xs) ys = aborted-append xs ys
aborted-append (abort id ∷ xs) ys = ap {B = List ℕ} (λ r. id ∷ r) (aborted-append xs ys)
aborted-append (remove_files ∷ xs) ys = aborted-append xs ys

-- `kill-server` aborts the task of every session of the table, each once, empties the table, and
-- ends the loop.
pub kill_server_aborts :
    (d : Daemon)
    → let (d', effects, next) = handle d kill_server in
      (aborted effects ≡ map (λ (p : ℕ × SessionState). p.0) d.sessions)
      × (d'.sessions ≡ [])
      × (next ≡ done)
unfolding handle
kill_server_aborts d = (
  aborted-append (abort_all d.sessions) _ ∙ rw (append-nil, aborted-abort_all d.sessions),
  refl,
  refl,
)
