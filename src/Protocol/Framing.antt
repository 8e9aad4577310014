-- ===== src/Protocol/Framing.antt =====
-- `decode` of src/protocol.rs on a buffer that is filled bit by bit: what it takes off, what it
-- leaves, and a whole stream of frames.
use ttyleport.Prelude.{
  ℕ, ◌+◌, ◌≤◌, ◌<◌, List, [], ◌∷◌, ◌++◌, Option, none, some, Bytes, length, take, All, ok, err,
  Result, ◌≡◌, ◌≢◌, ◌⊎◌, inl, inr, refl, sym, ap, ◌∙◌, arith, append_assoc, length-append,
  take-append-drop, append-nil, ltb, Bool-cases, length-take,
}
use ttyleport.Protocol.Wire.{put_u32, u32_from_be_bytes}
use ttyleport.Protocol.Encode.{u32, encode}
use ttyleport.Protocol.Decode.{decode, decode_body, decode_payload, some_frame}
use ttyleport.Protocol.RoundTrip.{decode-encode}
use ttyleport.Protocol.Shape.{
  frame_type, payload, IsFrame, IsClean, encode_shape, decode_header, decode_body_part,
  length_header,
}
use ttyleport.Protocol.{Frame, DecodeError, payload_too_large, header_len, max_frame_size}

decode_short : (src : Bytes) → length src < 5 → decode src ≡ (src, ok none)
unfolding decode
decode_short [] h = refl
decode_short (a ∷ []) h = refl
decode_short (a ∷ b ∷ []) h = refl
decode_short (a ∷ b ∷ c ∷ []) h = refl
decode_short (a ∷ b ∷ c ∷ d ∷ []) h = refl
decode_short (a ∷ b ∷ c ∷ d ∷ e ∷ s) h = absurd (omega arith)

-- A header and a part of the payload that it announces.
header_decode :
    (ty n : ℕ) (part : Bytes)
    → n ≤ max_frame_size
    → length part < n
    → decode (ty ∷ (put_u32 n ++ part)) ≡ (ty ∷ (put_u32 n ++ part), ok none)
header_decode ty n part fits short =
    decode_header ty n part (omega arith)
    ∙ decode_body_part ty n _ part fits (omega (arith, length_header ty n part))

prefix_decode :
    (ty n : ℕ) (p front back : Bytes)
    → n ≤ max_frame_size
    → length p ≡ n
    → ty ∷ (put_u32 n ++ p) ≡ front ++ back
    → 0 < length back
    → decode front ≡ (front, ok none)
unfolding put_u32
prefix_decode ty n p (a ∷ b ∷ c ∷ d ∷ e ∷ part) back fits len whole more =
    let header : a ∷ b ∷ c ∷ d ∷ e ∷ part ≡ ty ∷ (put_u32 n ++ part) = cc in
    let split : p ≡ part ++ back = cc in
    rw header (
      header_decode ty n part fits
        (omega (arith, len, ap (length {0} {A = ℕ}) split, length-append part back)))
prefix_decode ty n p [] back fits len whole more = decode_short [] (omega arith)
prefix_decode ty n p front back fits len whole more = decode_short front (omega arith)

-- As long as only a proper prefix of an encoded frame has arrived, `decode` asks for more and takes
-- nothing off the buffer.
pub decode_prefix :
    (f : Frame) (front back : Bytes)
    → length (payload f) ≤ max_frame_size
    → encode f [] ≡ front ++ back
    → 0 < length back
    → decode front ≡ (front, ok none)
decode_prefix f front back fits e more =
    let small : u32 (length (payload f)) ≡ length (payload f) = omega arith in
    prefix_decode (frame_type f) (length (payload f)) (payload f) front back fits refl
      (rw (← small) (sym (encode_shape f []) ∙ e)) more

some_frame-ne-none : (r : Result DecodeError Frame) → some_frame r ≢ ok none
some_frame-ne-none (ok f) = cc
some_frame-ne-none (err e) = cc

-- The length that the header at the front of a buffer announces, if the header is whole.
abbrev pub announced : Bytes → Option ℕ
announced (ty ∷ a ∷ b ∷ c ∷ d ∷ rest) = some (u32_from_be_bytes a b c d)
announced src = none

-- The buffer is left as it was, for want of bytes, or because too much is announced.
abbrev pub Untouched : Bytes → Bytes → Result DecodeError (Option Frame) → Type 0
Untouched src rest r =
    (rest ≡ src)
    × (((r ≡ ok none)
          × ((announced src ≡ none)
              ⊎ ((n : ℕ) × (announced src ≡ some n)
                  × (n ≤ max_frame_size)
                  × (length src < header_len + n))))
        ⊎ ((n : ℕ) × (announced src ≡ some n)
            × (max_frame_size < n)
            × (r ≡ err (payload_too_large n))))

-- A header and exactly the payload that it announces are taken off the front, and the outcome is what
-- the type and that payload decode to.
abbrev pub TakesFrame : Bytes → Bytes → Result DecodeError (Option Frame) → Type 0
TakesFrame src rest r =
    (ty : ℕ) × (a : ℕ) × (b : ℕ) × (c : ℕ) × (d : ℕ) × (body : Bytes) × (src
      ≡ ty ∷ a ∷ b ∷ c ∷ d ∷ (body ++ rest))
    × (length body ≡ u32_from_be_bytes a b c d)
    × (length body ≤ max_frame_size)
    × (r ≡ some_frame (decode_payload ty body))

decode_body_takes :
    (ty a b c d : ℕ) (body : Bytes)
    → let src = ty ∷ a ∷ b ∷ c ∷ d ∷ body in
      let (rest, r) = decode_body ty (u32_from_be_bytes a b c d) src body in
      Untouched src rest r ⊎ TakesFrame src rest r
unfolding decode_body
decode_body_takes ty a b c d body =
    let n = u32_from_be_bytes a b c d in
    let src : Bytes = ty ∷ a ∷ b ∷ c ∷ d ∷ body in
    elim (Bool-cases (ltb max_frame_size n)) [
      | inl e ↦ rw e (inl (refl, inr (n, refl, ground arith, refl)))
      | inr e ↦ elim (Bool-cases (ltb (length src) (header_len + n))) [
        | inl f ↦ rw (e, f) (inl (refl, inl (refl, inr (n, refl, ground arith, ground arith))))
        | inr f ↦
            let enough : n ≤ length body = ground arith in
            let len = length-take n body enough in
            rw (e, f)
              (inr (
                ty,
                a,
                b,
                c,
                d,
                take n body,
                rw (take-append-drop n body) refl,
                len,
                rw len (ground arith),
                refl,
              ))
      ]
    ]

-- On any buffer at all, `decode` does one of three things. It leaves the buffer as it was and asks for
-- more, exactly when the header is not whole or less has arrived than it announces within the limit. It
-- leaves the buffer as it was and refuses an announced length above the limit. Or it takes off the
-- front the header and exactly the payload that it announces, and answers with the frame or the error
-- that the type and the payload come to; every byte behind them stays.
pub decode_takes :
    (src : Bytes) → let (rest, r) = decode src in Untouched src rest r ⊎ TakesFrame src rest r
unfolding decode
decode_takes (ty ∷ a ∷ b ∷ c ∷ d ∷ body) = decode_body_takes ty a b c d body
decode_takes src = inl (refl, inl (refl, inl refl))

-- The frames that one `decode` after the other gives, until it asks for more bytes.
pub data Decodes : Bytes → List Frame → Bytes → Type 0 where
  wait : {src : Bytes} → decode src ≡ (src, ok none) → Decodes src [] src
  frame :
      {src rest end : Bytes} {f : Frame} {fs : List Frame}
      → decode src ≡ (rest, ok (some f))
      → Decodes rest fs end
      → Decodes src (f ∷ fs) end

-- The sender's buffer after it has encoded one frame after the other.
abbrev pub encode_all : List Frame → Bytes → Bytes
encode_all [] dst = dst
encode_all (f ∷ fs) dst = encode_all fs (encode f dst)

abbrev pub IsSendable : Frame → Type 0
IsSendable f = IsFrame f × IsClean f × (length (payload f) ≤ max_frame_size)

encode-dst : (f : Frame) (dst : Bytes) → encode f dst ≡ dst ++ encode f []
encode-dst f dst = encode_shape f dst ∙ ap (λ (s : Bytes). dst ++ s) (sym (encode_shape f []))

pub encode_all-dst : (fs : List Frame) (dst : Bytes) → encode_all fs dst ≡ dst ++ encode_all fs []
encode_all-dst [] dst = sym (append-nil dst)
encode_all-dst (f ∷ fs) dst = rw (
  encode_all-dst fs (encode f dst),
  encode_all-dst fs (encode f []),
  encode-dst f dst,
  append_assoc,
)

-- The frames that were encoded one after the other are decoded in order, each exactly once, when a
-- part of a further frame has arrived behind them; that part stays in the buffer.
pub Decodes-encode_all :
    (fs : List Frame) (next : Frame) (front back : Bytes)
    → All IsSendable fs
    → length (payload next) ≤ max_frame_size
    → encode next [] ≡ front ++ back
    → 0 < length back
    → Decodes (encode_all fs [] ++ front) fs front
Decodes-encode_all [] next front back _ fits e more =
    wait (decode_prefix next front back fits e more)
Decodes-encode_all (f ∷ fs) next front back ((hf, hc, hl), hs) fits e more =
    frame
      (rw (encode_all-dst fs (encode f []), append_assoc)
        (decode-encode f (encode_all fs [] ++ front) hf hc hl))
      (Decodes-encode_all fs next front back hs fits e more)
