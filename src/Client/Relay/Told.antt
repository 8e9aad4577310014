-- ===== src/Client/Relay/Told.antt =====
-- The end of a run of the relay of src/client.rs that the server tells.
use ttyleport.Prelude.{ℕ, ℤ, [], ◌∷◌, ◌++◌, some, ok, ◌≡◌, refl}
use ttyleport.Protocol.{exit}
use ttyleport.Client.Relay.{
  World, Stay, going, returned, failed, Round, Relay, Input, frame_in, Events, chain_round,
  relay_round, relay_loop,
}

-- The frame that ends the session.
abbrev pub told_exit : World → ℤ → World × Input
told_exit w code = (w, frame_in (some (ok (exit code))))

chain_round-on :
    (x : Round) (k k' : Relay → Round) (m : ℕ) (end : Stay)
    → ((r : Relay) → (k r).1.1 ≡ going m → (k' r).1 ≡ ((k r).1.0, end))
    → (chain_round x k).1.1 ≡ going m
    → (chain_round x k').1 ≡ ((chain_round x k).1.0, end)
chain_round-on (r, (acts, going n)) k k' m end later on = rw (later r on) refl
chain_round-on (r, (acts, returned code)) k k' m end later on = cc on
chain_round-on (r, (acts, failed)) k k' m end later on = cc on

-- A relay that goes on until the server tells the end of the shell returns the code that it is told,
-- and does nothing more.
pub relay_loop-exit :
    (r : Relay) (front rest : Events) (w : World) (code : ℤ) (m : ℕ)
    → (relay_loop r front).1.1 ≡ going m
    → (relay_loop r (front ++ (told_exit w code ∷ rest))).1
      ≡ ((relay_loop r front).1.0, returned (some code))
unfolding relay_loop relay_round
relay_loop-exit r [] rest w code m on = refl
relay_loop-exit r ((w', input) ∷ front) rest w code m on =
    chain_round-on (relay_round w' r input) (λ r'. relay_loop r' front)
      (λ r'. relay_loop r' (front ++ (told_exit w code ∷ rest))) m (returned (some code))
      (λ r' on'. relay_loop-exit r' front rest w code m on') on
