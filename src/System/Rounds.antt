-- ===== src/System/Rounds.antt =====
-- That the daemon of src/daemon.rs and its tasks, src/server.rs, stay in step, and that no task is left
-- when the daemon ends.
use ttyleport.Prelude.{
  ℕ, ◌+◌, ◌%◌, ◌^◌, ◌<◌, ◌≡◌, refl, inl, inr, Bool, true, false, Option, none, some, List, [], ◌∷◌,
  ◌++◌, arith, ◌==◌, ==_iff, Bool-cases, Option-cases, Bytes,
}
use ttyleport.Protocol.{
  Frame, new_session, attach, kill_session, list_sessions, kill_server, ok_frame,
}
use ttyleport.Daemon.{SessionState, Sessions, lookup}
use ttyleport.Daemon.Step.{
  Daemon, Effect, reply, hand_off, Outcome, name_opt, is_dup, create_session, handle_new_session,
  handle_attach, handle_kill_session, attach_to, attach_found, kill_found, handle, reaped,
  abort_all, is_closed,
}
use ttyleport.Server.Task.{Opening, aborted}
use ttyleport.Server.{Start}
use ttyleport.System.{Slot, Slots, turn_at, apply_effect, apply_effects, has_ended}
use ttyleport.System.Slots.{Known, aborted-over}
use ttyleport.System.Tended.{
  Tended, Ended, Tended-ext, Tended-reap_sessions, Tended-turn_at, Tended-remove, Tended-insert,
  is_closed-Ended, aborted-Ended,
}

-- The tasks behind the effects of a round fit its table.
abbrev pub After : Opening → Start → Slots → Outcome → Type 0
After o st f (d, es, next) = Tended d.sessions d.next_id (apply_effects o st es f)

module _ (o : Opening) (st : Start) where
  pub apply_effects-append :
      (xs ys : List Effect) (f : Slots)
      → apply_effects o st (xs ++ ys) f ≡ apply_effects o st ys (apply_effects o st xs f)
  unfolding apply_effects
  apply_effects-append [] ys f = refl
  apply_effects-append (x ∷ xs) ys f = apply_effects-append xs ys (apply_effect o st x f)

  -- A task that runs has its session in the table.
  abbrev AllKnown : Sessions → Slots → Type 0
  AllKnown t f = (j : ℕ) (sl : Slot) → f j ≡ some sl → has_ended sl.task ≡ false → Known j t

  aborted-AllKnown :
      (i : ℕ) (s : SessionState) (t : Sessions) (f : Slots)
      → AllKnown ((i, s) ∷ t) f
      → AllKnown t (turn_at i aborted f)
  unfolding lookup
  aborted-AllKnown i s t f all j sl e runs = elim (Bool-cases (i == j)) [
    | inl hit ↦ cc (aborted-over (f j) sl (rw hit at e), runs)
    | inr miss ↦ let (u, l) = all j sl (rw miss at e) runs in (u, rw miss at l)
  ]

  -- Behind the abort of the table's tasks no task runs that had its session in it.
  abort_all-Ended :
      (t : Sessions) (f : Slots)
      → AllKnown t f
      → (j : ℕ) → Ended j (apply_effects o st (abort_all t) f)
  unfolding abort_all apply_effects lookup
  abort_all-Ended [] f all j sl e = elim (Bool-cases (has_ended sl.task)) [
    | inl ended ↦ ended
    | inr runs ↦ cc ((all j sl e runs).1)
  ]
  abort_all-Ended ((i, s) ∷ t) f all j sl e =
      abort_all-Ended t (turn_at i aborted f) (aborted-AllKnown i s t f all) j sl e

  abort_all-Tended :
      (u t : Sessions) (n : ℕ) (f : Slots)
      → Tended t n f
      → Tended t n (apply_effects o st (abort_all u) f)
  unfolding abort_all apply_effects
  abort_all-Tended [] t n f h = h
  abort_all-Tended ((i, s) ∷ u) t n f h =
      abort_all-Tended u t n (turn_at i aborted f) (Tended-turn_at t n f h i aborted)

  -- Behind a shutdown the table is empty and no task runs.
  pub shutdown-Tended :
      (t : Sessions) (n : ℕ) (f : Slots)
      → Tended t n f
      → Tended [] n (apply_effects o st (abort_all t) f)
        × ((j : ℕ) → Ended j (apply_effects o st (abort_all t) f))
  unfolding lookup
  shutdown-Tended t n f h =
      let all : AllKnown t f = λ j sl e runs. let (s, l, _, _) = h.live j sl e runs in (s, l) in
      let ended = abort_all-Ended t f all in
      let kept = abort_all-Tended t t n f h in
      (
        record {
          live = λ j sl e runs. cc (ended j sl e, runs);
          known = λ j (s, l). cc l;
          fresh = kept.fresh;
          accounted = kept.accounted;
        },
        ended,
      )

  create_session-After :
      (d : Daemon) (f : Slots) (name : Option Bytes)
      → d.next_id + 1 < 2 ^ 32
      → Tended d.sessions d.next_id f
      → After o st f (create_session d name)
  unfolding create_session apply_effects
  create_session-After d f name room h =
      let e : (d.next_id + 1) % 2 ^ 32 ≡ d.next_id + 1 = omega arith in
      rw e (Tended-insert d.sessions d.next_id f h name o st)

  handle_new_session-After :
      (d : Daemon) (f : Slots) (name : Bytes)
      → d.next_id + 1 < 2 ^ 32
      → Tended d.sessions d.next_id f
      → After o st f (handle_new_session d name)
  unfolding handle_new_session apply_effects
  handle_new_session-After d f name room h = elim (Bool-cases (is_dup d.sessions (name_opt name))) [
    | inl e ↦ rw e h
    | inr e ↦ rw e (create_session-After d f (name_opt name) room h)
  ]

  -- The connection goes to a task that was spawned before.
  hand_off-same :
      (d : Daemon) (f : Slots) (id : ℕ)
      → Tended d.sessions d.next_id f
      → is_closed (lookup id d.sessions) ≡ false
      → (j : ℕ) → apply_effect o st (hand_off id) f j ≡ f j
  hand_off-same d f id h is_open j = elim (Bool-cases (id == j)) [
    | inr miss ↦ rw miss refl
    | inl hit ↦ elim (Option-cases (lookup id d.sessions)) [
      | inl gone ↦ cc (rw gone at is_open)
      | inr there ↦
          let (sl, e) = h.known id there in
          let here : id ≡ j = (==_iff id j).0 hit in
          let e' : f j ≡ some sl = rw (← here) e in rw (hit, e') refl
    ]
  ]

  attach_to-After :
      (d : Daemon) (f : Slots) (session : Bytes) (id : ℕ) (closed : Bool)
      → is_closed (lookup id d.sessions) ≡ closed
      → Tended d.sessions d.next_id f
      → After o st f (attach_to d session id closed)
  unfolding apply_effects
  attach_to-After d f session id true shut h =
      Tended-remove d.sessions d.next_id f h id (is_closed-Ended d.sessions d.next_id f h id shut)
  attach_to-After d f session id false is_open h =
      Tended-ext d.sessions d.next_id f h (apply_effect o st (hand_off id) f)
        (hand_off-same d f id h is_open)

  attach_found-After :
      (d : Daemon) (f : Slots) (session : Bytes) (found : Option ℕ)
      → Tended d.sessions d.next_id f
      → After o st f (attach_found d session found)
  unfolding apply_effects
  attach_found-After d f session none h = h
  attach_found-After d f session (some id) h = attach_to-After d f session id _ refl h

  kill_found-After :
      (d : Daemon) (f : Slots) (session : Bytes) (found : Option ℕ)
      → Tended d.sessions d.next_id f
      → After o st f (kill_found d session found)
  unfolding apply_effects
  kill_found-After d f session none h = h
  kill_found-After d f session (some id) h =
      let f' = turn_at id aborted f in
      Tended-remove d.sessions d.next_id f' (Tended-turn_at d.sessions d.next_id f h id aborted) id
        (aborted-Ended d.sessions d.next_id f h id)

  pub handle-After :
      (d : Daemon) (f : Slots) (frame : Frame)
      → d.next_id + 1 < 2 ^ 32
      → Tended d.sessions d.next_id f
      → After o st f (handle d frame)
  unfolding handle handle_attach handle_kill_session apply_effects
  handle-After d f (new_session name) room h = handle_new_session-After d f name room h
  handle-After d f (attach session) room h =
      attach_found-After (reaped d) f session _ (Tended-reap_sessions d.sessions d.next_id f h)
  handle-After d f list_sessions room h = Tended-reap_sessions d.sessions d.next_id f h
  handle-After d f (kill_session session) room h =
      kill_found-After (reaped d) f session _ (Tended-reap_sessions d.sessions d.next_id f h)
  handle-After d f kill_server room h =
      rw (apply_effects-append (abort_all d.sessions) (reply ok_frame ∷ []) f)
        (shutdown-Tended d.sessions d.next_id f h).0
  handle-After d f frame room h = h
