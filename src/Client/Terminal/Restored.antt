-- ===== src/Client/Terminal/Restored.antt =====
-- That `run` of src/client.rs leaves the terminal as it was.
use ttyleport.Prelude.{
  ℕ, ◌+◌, [], ◌∷◌, length, arith, ◌≡◌, refl, ◌⊎◌, inl, inr, Bool, true, ◌&&◌, none, some, List,
  Bool-cases, Bytes,
}
use ttyleport.Client.Relay.{Action, send, print, stop_self}
use ttyleport.Client.Run.{Life, Ran, run}
use ttyleport.Client.Terminal.{
  TerminalTypes, Calls, Terminal, InTerminal, enter, set_nonblock, drop_raw, drop_nonblock,
  has_ended, through, all_actions, run_in_terminal,
}

module _ (T : TerminalTypes) where
  -- The terminal in the loop.
  abbrev pub raw : Terminal T → Terminal T
  raw t = record {
    modes = T.cfmakeraw t.modes;
    flags = T.or_nonblock (T.from_bits_truncate t.flags);
  }

  -- The number of times that the client stops itself.
  abbrev pub stops : List Action → ℕ
  stops [] = 0
  stops (stop_self ∷ acts) = stops acts + 1
  stops (_ ∷ acts) = stops acts

  -- The first suspend, if there is one, finds this terminal.
  abbrev pub FirstIs : Terminal T → List (Terminal T) → Type 0
  FirstIs t [] = Unit
  FirstIs t (seen ∷ more) = seen ≡ t

  -- The terminal is left as it was. Where the loop ran, it began in a raw terminal that does not block,
  -- and that is what the shell finds at the first of its suspends.
  abbrev pub Restored : Terminal T → Ran → InTerminal T → Type 0
  Restored t ran x =
      (x.left ≡ t)
      × (((x.ran ≡ none) × (x.entered ≡ none) × (x.suspends ≡ []))
          ⊎ ((x.ran ≡ some ran)
              × (x.entered ≡ some (raw t))
              × (length x.suspends ≡ stops (all_actions T ran.0))
              × FirstIs (raw t) x.suspends))

  length-through :
      (meanwhile : Terminal T → Terminal T) (acts : List Action) (t : Terminal T)
      → length (through T meanwhile acts t).0 ≡ stops acts
  unfolding through
  length-through meanwhile [] t = omega arith
  length-through meanwhile (stop_self ∷ acts) t =
      omega (arith, length-through meanwhile acts (meanwhile t))
  length-through meanwhile (send f ∷ acts) t = length-through meanwhile acts t
  length-through meanwhile (print p ∷ acts) t = length-through meanwhile acts t

  through-FirstIs :
      (meanwhile : Terminal T → Terminal T) (acts : List Action) (t : Terminal T)
      → FirstIs t (through T meanwhile acts t).0
  unfolding through
  through-FirstIs meanwhile [] t = tt
  through-FirstIs meanwhile (stop_self ∷ acts) t = refl
  through-FirstIs meanwhile (send f ∷ acts) t = through-FirstIs meanwhile acts t
  through-FirstIs meanwhile (print p ∷ acts) t = through-FirstIs meanwhile acts t

  -- If the loop ends, whichever call before it fails and whatever others do to the terminal while the
  -- client is stopped: the terminal is left in its modes and flags, provided that the two calls that
  -- reset them succeed and nix knows all the flags that were set. The loop begins in a terminal that is
  -- raw and does not block, and the terminal is still so when the client first suspends itself.
  pub run_in_terminal-Restored :
      (meanwhile : Terminal T → Terminal T) (c : Calls) (t : Terminal T) (session : Bytes)
      (vars : List (Bytes × Bytes)) (redraw no_escape : Bool) (lives : List Life)
      → c.reset_flags ≡ true
      → c.reset_modes ≡ true
      → T.from_bits_truncate t.flags ≡ t.flags
      → has_ended T (run session vars redraw no_escape lives).1 ≡ true
      → Restored t
          (run session vars redraw no_escape lives)
          (run_in_terminal T meanwhile c t session vars redraw no_escape lives)
  unfolding run_in_terminal enter set_nonblock drop_raw drop_nonblock
  run_in_terminal-Restored meanwhile c t session vars redraw no_escape lives flags modes known
        over =
      elim (Bool-cases (c.tcgetattr && c.tcsetattr)) [
        | inr refused ↦ rw refused (refl, inl (refl, refl, refl))
        | inl entered ↦ elim (Bool-cases (c.get_flags && c.set_flags)) [
          | inr refused ↦ rw (entered, refused, modes) (refl, inl (refl, refl, refl))
          | inl set ↦ elim (Bool-cases (c.async_fd && c.sigwinch)) [
            | inr refused ↦
                rw (entered, set, refused, flags, modes, known) (refl, inl (refl, refl, refl))
            | inl ready ↦
                let acts = all_actions T (run session vars redraw no_escape lives).0 in
                rw (entered, set, ready, over, flags, modes)
                  (
                    rw known refl,
                    inr (
                      refl,
                      refl,
                      length-through meanwhile acts (raw t),
                      through-FirstIs meanwhile acts (raw t),
                    ),
                  )
          ]
        ]
      ]
