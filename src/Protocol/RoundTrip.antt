-- ===== src/Protocol/RoundTrip.antt =====
-- Encoding and decoding of src/protocol.rs undo one another.
use ttyleport.Prelude.{ℤ, ℕ, ◌^◌, ◌≤◌, ◌<◌, [], ◌++◌, some, Bytes, length, ok, ◌≡◌, refl}
use ttyleport.Protocol.Wire.{
  put_u16, put_u32, IsI32, u16_from_be_bytes-put_u16, u32_from_be_bytes-put_u32, i32_bits,
  i32_bits-lt, i32_of_bits-i32_bits,
}
use ttyleport.Protocol.Encode.{encode}
use ttyleport.Protocol.Decode.{decode_resize, decode_exit, decode_payload, decode}
use ttyleport.Protocol.Shape.{frame_type, payload, IsFrame, IsClean}
use ttyleport.Protocol.{
  Frame, data_frame, resize, exit, env, new_session, attach, kill_session, session_created,
  session_info, error_frame, max_frame_size,
}
use ttyleport.Protocol.Payloads.{decode_string_lem}
use ttyleport.Protocol.Vars.{decode_vars-env_text, env_text-IsUtf8}
use ttyleport.Protocol.Entries.{decode_entries-info_text, info_text-IsUtf8}
use ttyleport.Protocol.Shape.{decode_whole, encode_append}

resize-payload :
    (cols rows : ℕ)
    → cols < 2 ^ 16
    → rows < 2 ^ 16
    → decode_resize (put_u16 cols ++ put_u16 rows) ≡ ok (resize cols rows)
unfolding decode_resize put_u16
resize-payload cols rows hc hr =
    rw (u16_from_be_bytes-put_u16 cols hc, u16_from_be_bytes-put_u16 rows hr)

exit-payload : (code : ℤ) → IsI32 code → decode_exit (put_u32 (i32_bits code)) ≡ ok (exit code)
unfolding decode_exit put_u32
exit-payload code h =
    rw (u32_from_be_bytes-put_u32 _ (i32_bits-lt code h), i32_of_bits-i32_bits code h)

decode_payload-payload :
    (f : Frame) → IsFrame f → IsClean f → decode_payload (frame_type f) (payload f) ≡ ok f
unfolding decode_payload
decode_payload-payload (data_frame p) h c = refl
decode_payload-payload (resize cols rows) h c = resize-payload cols rows h.0 h.1
decode_payload-payload (exit code) h c = exit-payload code h
decode_payload-payload (env vars) h c =
    rw (decode_string_lem _ (env_text-IsUtf8 vars h), decode_vars-env_text vars c)
decode_payload-payload (new_session s) h c = rw (decode_string_lem s h)
decode_payload-payload (attach s) h c = rw (decode_string_lem s h)
decode_payload-payload (kill_session s) h c = rw (decode_string_lem s h)
decode_payload-payload (session_created s) h c = rw (decode_string_lem s h)
decode_payload-payload (session_info es) h c =
    rw (decode_string_lem _ (info_text-IsUtf8 es h), decode_entries-info_text es h c)
decode_payload-payload (error_frame s) h c = rw (decode_string_lem s h)
decode_payload-payload _ h c = refl

-- Every frame of the program whose payload is within the limit, and whose listed texts hold no
-- separator, is decoded to itself, and the bytes behind it stay in the buffer.
pub decode-encode :
    (f : Frame) (rest : Bytes)
    → IsFrame f
    → IsClean f
    → length (payload f) ≤ max_frame_size
    → decode (encode f [] ++ rest) ≡ (rest, ok (some f))
decode-encode f rest h c fits = rw (
  encode_append f rest,
  decode_whole (frame_type f) (payload f) rest fits,
  decode_payload-payload f h c,
)
