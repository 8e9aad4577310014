-- ===== src/Connect/Tunnel/Cleanup.antt =====
-- What `run` of src/connect.rs leaves behind, however it ends.
use ttyleport.Prelude.{
  ℕ, ◌≡◌, false, Option, none, some, List, [], ◌∷◌, ◌++◌, Bytes, All, Result, ok, err,
}
use ttyleport.Connect.Tunnel.{
  ConnectError, no_tunnel, socket_timeout, no_signals, TunnelEffect, spawn_ssh, remove_socket,
  cancel, terminate, drop_guard, exit_with, error_with, still_waiting, killed, handles, Tunnel,
}

abbrev pub IsSpawn : TunnelEffect → Type 0
IsSpawn (spawn_ssh args) = Unit
IsSpawn _ = ⊥

abbrev pub IsTerminate : TunnelEffect → Type 0
IsTerminate (terminate pid) = Unit
IsTerminate _ = ⊥

abbrev pub EndsWith : List TunnelEffect → List TunnelEffect → Type 0
EndsWith tail effects = (front : List TunnelEffect) × (effects ≡ front ++ tail)

-- Behind the hand-over to the monitor: the monitor is told to stop, and the socket is removed. The
-- guard terminates no ssh any more.
abbrev pub HandedOver : List TunnelEffect → Type 0
HandedOver effects =
    EndsWith (cancel ∷ remove_socket ∷ []) effects × All (λ e. IsTerminate e → ⊥) effects

-- What was done, for each way in which the command ends.
abbrev pub Cleaned : Option (Option ℕ) → Tunnel → Type 0
Cleaned child (effects, exit_with code) = HandedOver effects
Cleaned child (effects, error_with no_signals) = HandedOver effects
Cleaned child (effects, error_with socket_timeout) =
    (pid : Option ℕ) × (child ≡ some pid) × EndsWith (drop_guard (some pid)) effects
Cleaned child (effects, error_with no_tunnel) =
    (child ≡ none) × ((args : List Bytes) × EndsWith (remove_socket ∷ spawn_ssh args ∷ []) effects)
Cleaned child (effects, error_with _) = All (λ e. IsSpawn e → ⊥) effects
Cleaned child (effects, still_waiting) = Unit
Cleaned child (effects, killed) = handles effects ≡ false

-- An effect that neither starts nor terminates a tunnel, nor handles signals.
abbrev IsNeutral : TunnelEffect → Type 0
IsNeutral e =
    (IsSpawn e → ⊥)
    × (IsTerminate e → ⊥)
    × ((effects : List TunnelEffect) → handles (e ∷ effects) ≡ handles effects)

-- An error of the remote side comes before any tunnel.
abbrev IsEarly : ConnectError → Type 0
IsEarly no_signals = ⊥
IsEarly socket_timeout = ⊥
IsEarly no_tunnel = ⊥
IsEarly _ = Unit

abbrev AllEarly : Result ConnectError Bytes → Type 0
AllEarly (ok path) = Unit
AllEarly (err e) = IsEarly e
