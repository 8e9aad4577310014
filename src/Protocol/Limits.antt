-- ===== src/Protocol/Limits.antt =====
-- Where the encoder of src/protocol.rs writes what the decoder does not read back: a payload above
-- the limit, and a session name with a tab.
use mathlib.Core.List.{filter_map, filter_map-append, filter_map-cons-none, map-append}
use ttyleport.Prelude.{
  ℕ, ◌^◌, ◌<◌, List, [], ◌∷◌, ◌++◌, map, Option, none, Bytes, length, All, All-append, err, ◌≡◌,
  refl, ◌∙◌, arith, Lacks, append_assoc,
}
use ttyleport.Text.Decimal.{to_string}
use ttyleport.Text.Lines.{newline, join, split}
use ttyleport.Text.Lines.Laws.{IsLine, lines-join, split-join}
use ttyleport.Protocol.Encode.{u32, tab, flag, entry_line, info_text, encode}
use ttyleport.Protocol.Decode.{decode, decode_body, decode_entries, entry_of_parts}
use ttyleport.Protocol.Payloads.{All-map, filter_map-map}
use ttyleport.Protocol.Entries.{
  IsGoodEntry, read_entry, entry_line-IsLine, clean-IsLine, to_string-Lacks, flag-Lacks,
}
use ttyleport.Protocol.Shape.{frame_type, payload, encode_append, decode_header}
use ttyleport.Protocol.{Frame, SessionEntry, payload_too_large, max_frame_size}

decode_body_large :
    (ty n : ℕ) (src rest : Bytes)
    → max_frame_size < n
    → decode_body ty n src rest ≡ (src, err (payload_too_large n))
unfolding decode_body
decode_body_large ty n src rest h = ground arith

-- The encoder does not know the limit: a frame with a payload above it is written, and the decoder
-- refuses it, names its length, and leaves it in the buffer.
pub decode-encode_large :
    (f : Frame) (rest : Bytes)
    → max_frame_size < length (payload f)
    → length (payload f) < 2 ^ 32
    → decode (encode f [] ++ rest)
      ≡ (encode f [] ++ rest, err (payload_too_large (length (payload f))))
decode-encode_large f rest large small =
    let e : u32 (length (payload f)) ≡ length (payload f) = omega arith in
    rw (encode_append f rest, e)
      (decode_header (frame_type f) (length (payload f)) (payload f ++ rest) small
        ∙ decode_body_large (frame_type f) (length (payload f)) _ (payload f ++ rest) large)

-- An entry whose name holds one tab, and which is otherwise clean.
pub record IsTabbed (a b : Bytes) (e : SessionEntry) : Type 0 where
  pub name_split : e.name ≡ a ++ tab ∷ b
  pub front_tab : Lacks tab a
  pub back_tab : Lacks tab b
  pub name_newline : Lacks newline e.name
  pub id_tab : Lacks tab e.id
  pub id_newline : Lacks newline e.id
  pub pty_tab : Lacks tab e.pty_path
  pub pty_newline : Lacks newline e.pty_path

module _ (a b : Bytes) (e : SessionEntry) (t : IsTabbed a b e) where
  tabbed_parts : List Bytes
  tabbed_parts =
      e.id
      ∷ a
      ∷ b
      ∷ e.pty_path
      ∷ to_string e.shell_pid
      ∷ to_string e.created_at
      ∷ flag e.attached
      ∷ to_string e.last_heartbeat
      ∷ []

  tabbed_line : entry_line e ≡ join tab tabbed_parts
  unfolding entry_line tabbed_parts join
  tabbed_line = rw (t.name_split, append_assoc)

  tabbed-Lacks :
      (c : ℕ)
      → c < b'0'
      → Lacks c e.id
      → Lacks c a
      → Lacks c b
      → Lacks c e.pty_path
      → All (Lacks c) tabbed_parts
  unfolding tabbed_parts
  tabbed-Lacks c lt id ha hb pty =
      let number = λ (n : ℕ). to_string-Lacks c n lt in
      (
        id,
        (
          ha,
          (
            hb,
            (
              pty,
              (
                number e.shell_pid,
                (number e.created_at, (flag-Lacks c e.attached lt, (number e.last_heartbeat, tt))),
              ),
            ),
          ),
        ),
      )

  tabbed-none : entry_of_parts (split tab (entry_line e)) ≡ none
  tabbed-none =
      let parts = tabbed-Lacks tab (omega arith) t.id_tab t.front_tab t.back_tab t.pty_tab in
      rw (tabbed_line, split-join tab tabbed_parts (unfold tabbed_parts in cc) parts)
        (unfold entry_of_parts tabbed_parts in refl)

  tabbed-IsLine : IsLine (entry_line e)
  tabbed-IsLine = entry_line-IsLine e t.id_newline t.name_newline t.pty_newline

good_lines : (xs : List SessionEntry) → All IsGoodEntry xs → All IsLine (map entry_line xs)
good_lines xs h = All-map IsLine entry_line (λ e g. clean-IsLine e g.1) xs h

entry_of_line : Bytes → Option SessionEntry
entry_of_line line = entry_of_parts (split tab line)

good_entries :
    (xs : List SessionEntry)
    → All IsGoodEntry xs
    → filter_map entry_of_line (map entry_line xs) ≡ xs
unfolding entry_of_line
good_entries = filter_map-map entry_line entry_of_line read_entry

-- A session whose name holds a tab is missing from the list that the other side decodes; the
-- sessions before and behind it are all there.
pub decode_entries_tabbed :
    (xs ys : List SessionEntry) (a b : Bytes) (e : SessionEntry)
    → IsTabbed a b e
    → All IsGoodEntry xs
    → All IsGoodEntry ys
    → decode_entries (info_text (xs ++ e ∷ ys)) ≡ xs ++ ys
unfolding decode_entries info_text entry_of_line
decode_entries_tabbed xs ys a b e t hx hy =
    let all_lines =
      All-append IsLine (map entry_line xs) (map entry_line (e ∷ ys)) (good_lines xs hx) in
    rw
      (
        map-append entry_line xs (e ∷ ys),
        lines-join _ (all_lines (tabbed-IsLine a b e t, good_lines ys hy)),
      )
      (filter_map-append entry_of_line (map entry_line xs) (map entry_line (e ∷ ys))
        ∙ rw (
          good_entries xs hx,
          filter_map-cons-none entry_of_line _ _ (tabbed-none a b e t),
          good_entries ys hy,
        ))
