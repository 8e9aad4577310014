-- ===== src/Main/Listed.antt =====
-- `gritty ls` of src/main.rs together with the daemon of src/daemon.rs and the codec of
-- src/protocol.rs between them, over a control socket that loses nothing.
use mathlib.Core.Option.{get_or}
use ttyleport.Prelude.{ℕ, ℤ, ◌≡◌, ◌≢◌, ◌⊎◌, Option, List, [], ◌∷◌, map, Bytes, codes, All}
use ttyleport.Text.Decimal.{to_string}
use ttyleport.Protocol.{SessionEntry}
use ttyleport.Daemon.{SessionState, session_entry, entry_key}
use ttyleport.Daemon.Step.{Daemon}
use ttyleport.Main.Timestamp.{Tm}
use ttyleport.Main.Table.{Widths, or_dash, session_row, heading, table_line}
use ttyleport.Main.Table.Aligned.{IsAligned}

module _ (localtime : ℤ → Option Tm) (now : ℕ) where
  -- The entry of a session is sorted by its id, and its row shows its id, and its name or a dash.
  abbrev pub Shows : ℕ × SessionState → Type 0
  Shows (id, s) =
      let row = session_row localtime now (session_entry (id, s)) in
      (entry_key (session_entry (id, s)) ≡ id)
      × (row.id ≡ to_string id)
      × (row.name ≡ or_dash (get_or s.name []))

  -- What the lines are: that there is no session, or an aligned table with a heading and one row for
  -- each entry, in order.
  abbrev pub IsListing : List SessionEntry → List Bytes → Type 0
  IsListing entries lines =
      ((entries ≡ []) × (lines ≡ codes "no active sessions" ∷ []))
      ⊎ ((entries ≢ [])
          × ((w : Widths) × (lines
                ≡ map (table_line w) (heading ∷ map (session_row localtime now) entries))
              × All (IsAligned w) (heading ∷ map (session_row localtime now) entries)))
