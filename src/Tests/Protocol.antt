-- ===== src/Tests/Protocol.antt =====
-- The theorems about src/protocol.rs at concrete frames and buffers.
use ttyleport.Prelude.{Bytes}
use ttyleport.Prelude.{
  ◌≤◌, true, [], ◌∷◌, ◌++◌, none, some, length, codes, ok, ◌≡◌, ◌⊎◌, refl, arith,
}
use ttyleport.Text.Utf8.{is_utf8}
use ttyleport.Text.Decimal.{to_string}
use ttyleport.Text.Lines.{join}
use ttyleport.Protocol.Encode.{encode, info_text, entry_line}
use ttyleport.Protocol.Decode.{decode, decode_entries}
use ttyleport.Protocol.Framing.{
  Decodes, encode_all, Untouched, TakesFrame, decode_prefix, decode_takes, Decodes-encode_all,
}
use ttyleport.Protocol.Limits.{IsTabbed, decode_entries_tabbed}
use ttyleport.Protocol.RoundTrip.{decode-encode}
use ttyleport.Protocol.Shape.{IsEntry, IsCleanEntry, payload}
use ttyleport.Protocol.{SessionEntry, session_info, resize, data_frame, ping, max_frame_size}

abbrev work : SessionEntry
work = record {
  id = codes "0";
  name = codes "work";
  pty_path = codes "/dev/pts/4";
  shell_pid = 48291;
  created_at = 1_771_684_327;
  attached = true;
  last_heartbeat = 0;
}

work-IsEntry : IsEntry work
unfolding is_utf8
work-IsEntry = record {
  id_utf8 = refl;
  name_utf8 = refl;
  pty_utf8 = refl;
  pid_u32 = omega arith;
  created_u64 = omega arith;
  heartbeat_u64 = omega arith;
}

work-IsCleanEntry : IsCleanEntry work
work-IsCleanEntry = omega arith

work_list-fits : length (payload (session_info (work ∷ []))) ≤ max_frame_size
unfolding info_text entry_line join to_string
work_list-fits = omega arith

decode-encode_example :
    decode (encode (session_info (work ∷ [])) [] ++ codes "rest")
    ≡ (codes "rest", ok (some (session_info (work ∷ []))))
decode-encode_example =
    decode-encode (session_info (work ∷ [])) (codes "rest") (work-IsEntry, tt)
      (work-IsCleanEntry, tt) work_list-fits

decode_prefix_example : decode (2 ∷ 0 ∷ 0 ∷ 0 ∷ 4 ∷ 0 ∷ []) ≡ (2 ∷ 0 ∷ 0 ∷ 0 ∷ 4 ∷ 0 ∷ [], ok none)
unfolding encode
decode_prefix_example =
    decode_prefix (resize 80 24) (2 ∷ 0 ∷ 0 ∷ 0 ∷ 4 ∷ 0 ∷ []) (80 ∷ 0 ∷ 24 ∷ []) (omega arith) refl
      (omega arith)

-- A frame with two bytes, and one byte behind it.
abbrev one_frame : Bytes
one_frame = 1 ∷ 0 ∷ 0 ∷ 0 ∷ 2 ∷ codes "lsx"

decode_takes_example :
    let (rest, r) = decode one_frame in Untouched one_frame rest r ⊎ TakesFrame one_frame rest r
decode_takes_example = decode_takes one_frame

Decodes-encode_all_example :
    Decodes
      (encode_all (data_frame (codes "ls\n") ∷ ping ∷ []) [] ++ 2 ∷ 0 ∷ 0 ∷ [])
      (data_frame (codes "ls\n") ∷ ping ∷ [])
      (2 ∷ 0 ∷ 0 ∷ [])
unfolding encode
Decodes-encode_all_example =
    Decodes-encode_all (data_frame (codes "ls\n") ∷ ping ∷ []) (resize 80 24) (2 ∷ 0 ∷ 0 ∷ [])
      (0 ∷ 4 ∷ 0 ∷ 80 ∷ 0 ∷ 24 ∷ []) ((tt, tt, omega arith), ((tt, tt, omega arith), tt))
      (omega arith) refl (omega arith)

abbrev tabbed : SessionEntry
tabbed = record work { name = codes "a\tb" }

tabbed-IsTabbed : IsTabbed (codes "a") (codes "b") tabbed
tabbed-IsTabbed = record {
  name_split = refl;
  front_tab = omega arith;
  back_tab = omega arith;
  name_newline = omega arith;
  id_tab = omega arith;
  id_newline = omega arith;
  pty_tab = omega arith;
  pty_newline = omega arith;
}

decode_entries_tabbed_example : decode_entries (info_text (work ∷ tabbed ∷ [])) ≡ work ∷ []
decode_entries_tabbed_example =
    decode_entries_tabbed (work ∷ []) [] (codes "a") (codes "b") tabbed tabbed-IsTabbed
      ((work-IsEntry, work-IsCleanEntry), tt) tt
