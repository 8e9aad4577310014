-- ===== src/Protocol/Decode.antt =====
-- `Decoder::decode` of src/protocol.rs. It changes the buffer, so the result is the buffer left and
-- the outcome. `reserve` changes no byte of it.
use mathlib.Core.List.{filter_map}
use mathlib.Core.Option.{get_or}
use ttyleport.Prelude.{
  ℕ, ◌+◌, ◌-◌, ◌^◌, List, [], ◌∷◌, Option, none, some, Bytes, length, take, drop, ltb, ◌==◌,
  if◌then◌else◌, bytes_eq, codes, Result, ok, err, ◌>>=◌, ◌≡◌, refl,
}
use ttyleport.Text.Decimal.{parse}
use ttyleport.Text.Lines.{lines, split, split_once}
use ttyleport.Text.Utf8.{is_utf8}
use ttyleport.Protocol.Encode.{tab, equals}
use ttyleport.Protocol.Wire.{u16_from_be_bytes, u32_from_be_bytes, i32_of_bits}
use ttyleport.Protocol.{
  Frame, SessionEntry, data_frame, resize, exit, detached, ping, pong, env, new_session, attach,
  list_sessions, kill_session, kill_server, session_created, session_info, ok_frame, error_frame,
  type_data, type_resize, type_exit, type_detached, type_ping, type_pong, type_env,
  type_new_session, type_attach, type_list_sessions, type_kill_session, type_kill_server,
  type_session_created, type_session_info, type_ok, type_error, header_len, max_frame_size,
  DecodeError, payload_too_large, resize_length, exit_length, not_utf8, unknown_type,
}

abbrev pub u32_max : ℕ
u32_max = 2 ^ 32 - 1

abbrev pub u64_max : ℕ
u64_max = 2 ^ 64 - 1

unfoldable pub decode_string : Bytes → Result DecodeError Bytes
decode_string payload = if is_utf8 payload then ok payload else err not_utf8

-- The `filter_map` over the lines drops a line with no equals sign.
unfoldable pub decode_vars : Bytes → List (Bytes × Bytes)
decode_vars text = filter_map (split_once equals) (lines text)

-- A line with other than seven parts is dropped.
unfoldable pub entry_of_parts : List Bytes → Option SessionEntry
entry_of_parts (id ∷ name ∷ pty ∷ pid ∷ created ∷ att ∷ beat ∷ []) = some (record {
  id = id;
  name = name;
  pty_path = pty;
  shell_pid = get_or (parse u32_max pid) 0;
  created_at = get_or (parse u64_max created) 0;
  attached = bytes_eq att (codes "1");
  last_heartbeat = get_or (parse u64_max beat) 0;
})
entry_of_parts _ = none

unfoldable pub decode_entries : Bytes → List SessionEntry
decode_entries text = filter_map (λ line. entry_of_parts (split tab line)) (lines text)

unfoldable pub decode_resize : Bytes → Result DecodeError Frame
decode_resize (a ∷ b ∷ c ∷ d ∷ []) = ok (resize (u16_from_be_bytes a b) (u16_from_be_bytes c d))
decode_resize _ = err resize_length

unfoldable pub decode_exit : Bytes → Result DecodeError Frame
decode_exit (a ∷ b ∷ c ∷ d ∷ []) = ok (exit (i32_of_bits (u32_from_be_bytes a b c d)))
decode_exit _ = err exit_length

-- The `match frame_type`.
unfoldable pub decode_payload : ℕ → Bytes → Result DecodeError Frame
decode_payload ty payload =
    if ty == type_data
    then ok (data_frame payload)
    else if ty == type_resize
    then decode_resize payload
    else if ty == type_exit
    then decode_exit payload
    else if ty == type_detached
    then ok detached
    else if ty == type_ping
    then ok ping
    else if ty == type_pong
    then ok pong
    else if ty == type_env
    then (do text ← decode_string payload; ok (env (decode_vars text)))
    else if ty == type_new_session
    then (do name ← decode_string payload; ok (new_session name))
    else if ty == type_attach
    then (do session ← decode_string payload; ok (attach session))
    else if ty == type_list_sessions
    then ok list_sessions
    else if ty == type_kill_session
    then (do session ← decode_string payload; ok (kill_session session))
    else if ty == type_kill_server
    then ok kill_server
    else if ty == type_session_created
    then (do id ← decode_string payload; ok (session_created id))
    else if ty == type_session_info
    then (do text ← decode_string payload; ok (session_info (decode_entries text)))
    else if ty == type_ok
    then ok ok_frame
    else if ty == type_error
    then (do message ← decode_string payload; ok (error_frame message))
    else err (unknown_type ty)

abbrev pub some_frame : Result DecodeError Frame → Result DecodeError (Option Frame)
some_frame (ok f) = ok (some f)
some_frame (err e) = err e

-- The body behind the header: `rest` is the buffer after its five bytes.
unfoldable pub decode_body : ℕ → ℕ → Bytes → Bytes → Bytes × Result DecodeError (Option Frame)
decode_body ty payload_len src rest =
    if ltb max_frame_size payload_len
    then (src, err (payload_too_large payload_len))
    else if ltb (length src) (header_len + payload_len)
    then (src, ok none)
    else (drop payload_len rest, some_frame (decode_payload ty (take payload_len rest)))

-- The last clause is `src.len() < HEADER_LEN`.
unfoldable pub decode : Bytes → Bytes × Result DecodeError (Option Frame)
unfolding decode_body decode_payload u32_from_be_bytes decode_string decode_vars decode_entries
    decode_resize decode_exit is_utf8 lines split split_once filter_map entry_of_parts parse
    bytes_eq u16_from_be_bytes i32_of_bits
decode (ty ∷ a ∷ b ∷ c ∷ d ∷ rest) =
    decode_body ty (u32_from_be_bytes a b c d) (ty ∷ a ∷ b ∷ c ∷ d ∷ rest) rest
decode src = (src, ok none)

decodes_env :
    decode (7 ∷ 0 ∷ 0 ∷ 0 ∷ 6 ∷ codes "A=x\nB=rest")
    ≡ (codes "rest", ok (some (env ((codes "A", codes "x") ∷ (codes "B", []) ∷ []))))
unfolding decode
decodes_env = refl

decodes_partial : decode (7 ∷ 0 ∷ 0 ∷ 0 ∷ 6 ∷ []) ≡ (7 ∷ 0 ∷ 0 ∷ 0 ∷ 6 ∷ [], ok none)
unfolding decode
decodes_partial = refl

decodes_unknown : decode (9 ∷ 0 ∷ 0 ∷ 0 ∷ 0 ∷ []) ≡ ([], err (unknown_type 9))
unfolding decode
decodes_unknown = refl
