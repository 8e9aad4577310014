-- ===== src/Protocol/Arrival.antt =====
-- A stream of src/protocol.rs that arrives in pieces: behind each read the reader decodes what it has,
-- until `decode` asks for more.
use ttyleport.Prelude.{
  ◌<◌, List, [], ◌∷◌, ◌++◌, Option, none, some, Bytes, length, All, ok, Result, ◌≡◌, ◌⊎◌, inl, inr,
  refl, sym, ap, ap₂, subst, ◌∙◌, arith, append_assoc, append-nil,
}
use ttyleport.Protocol.{Frame, DecodeError}
use ttyleport.Protocol.Encode.{encode}
use ttyleport.Protocol.Decode.{decode}
use ttyleport.Protocol.RoundTrip.{decode-encode}
use ttyleport.Protocol.Framing.{encode_all, IsSendable, decode_prefix, encode_all-dst}

-- The frames that the buffer gives, and what is left of it when `decode` asks for more.
pub data Drains : Bytes → List Frame → Bytes → Type 0 where
  dry : {src rest : Bytes} → decode src ≡ (rest, ok none) → Drains src [] rest
  next :
      {src rest end : Bytes} {f : Frame} {fs : List Frame}
      → decode src ≡ (rest, ok (some f))
      → Drains rest fs end
      → Drains src (f ∷ fs) end

-- The frames that a stream gives, piece by piece, to a reader with the given buffer.
pub data Arrives : Bytes → List Bytes → List Frame → Bytes → Type 0 where
  idle : {buffer : Bytes} → Arrives buffer [] [] buffer
  read :
      {buffer piece mid end : Bytes} {pieces : List Bytes} {fs gs : List Frame}
      → Drains (buffer ++ piece) fs mid
      → Arrives mid pieces gs end
      → Arrives buffer (piece ∷ pieces) (fs ++ gs) end

abbrev pub joined : List Bytes → Bytes
joined [] = []
joined (piece ∷ pieces) = piece ++ joined pieces

-- A text that is cut in two ways.
cuts :
    (a b x y : Bytes)
    → a ++ b ≡ x ++ y
    → ((more : Bytes) × (x ≡ a ++ more) × (b ≡ more ++ y))
      ⊎ ((more : Bytes) × (a ≡ x ++ more) × (0 < length more))
cuts [] b x y e = inl (x, refl, e)
cuts (c ∷ a) b [] y e = inr (c ∷ a, refl, omega arith)
cuts (c ∷ a) b (d ∷ x) y e = elim (cuts a b x y (cc e)) [
  | inl (more, h, k) ↦ inl (more, cc (e, h), k)
  | inr (more, h, long) ↦ inr (more, cc (e, h), long)
]

decode_nil : decode [] ≡ ([], ok none)
unfolding decode
decode_nil = refl

-- The buffer holds no whole frame.
abbrev IsDry : Bytes → Type 0
IsDry buffer = decode buffer ≡ (buffer, ok none)

-- What has been read of a stream gives the first frames of the stream, the rest of the stream is still
-- the encoding of the others, and the buffer holds no whole frame of them.
abbrev Ahead : List Frame → List Frame → Bytes → Bytes → Type 0
Ahead fs gs mid y =
    (more : List Frame) × (fs ≡ gs ++ more)
    × (mid ++ y ≡ encode_all more [])
    × All IsSendable more
    × IsDry mid

same_rest :
    (rest rest' : Bytes) (r r' : Result DecodeError (Option Frame))
    → ◌≡◌ {A = Bytes × Result DecodeError (Option Frame)} (rest, r) (rest', r')
    → (rest ≡ rest') × (r ≡ r')
same_rest rest rest' r r' e = (
  ap (λ (p : Bytes × Result DecodeError (Option Frame)). p.0) e,
  ap (λ (p : Bytes × Result DecodeError (Option Frame)). p.1) e,
)

first_frame :
    (f : Frame) (fs : List Frame) (x y : Bytes)
    → IsSendable f
    → x ++ y ≡ encode_all (f ∷ fs) []
    → (decode x ≡ (x, ok none))
      ⊎ ((more : Bytes) × (decode x ≡ (more, ok (some f))) × (more ++ y ≡ encode_all fs []))
first_frame f fs x y (h, c, fits) e =
    elim (cuts (encode f []) (encode_all fs []) x y
      (sym (encode_all-dst fs (encode f [])) ∙ sym e)) [
        | inl (more, whole, rest) ↦
            inr (more, ap decode whole ∙ decode-encode f more h c fits, sym rest)
        | inr (more, part, long) ↦ inl (decode_prefix f x more fits part long)
      ]

nil_left : (x y : Bytes) → x ++ y ≡ [] → x ≡ []
nil_left [] y e = refl
nil_left (c ∷ x) y e = cc e

Drains-Ahead :
    (fs gs : List Frame) (x y mid : Bytes)
    → All IsSendable fs
    → x ++ y ≡ encode_all fs []
    → Drains x gs mid
    → Ahead fs gs mid y
Drains-Ahead [] [] x y mid h e (dry stops) =
    let empty : x ≡ [] = nil_left x y e in
    let (left, _) = same_rest _ _ _ _ (sym decode_nil ∙ ap decode (sym empty) ∙ stops) in
    ([], refl, rw (← left) (rw empty at e), tt, rw (← left) decode_nil)
Drains-Ahead [] (g ∷ gs) x y mid h e (next gives later) =
    let empty : x ≡ [] = nil_left x y e in
    let (_, got) = same_rest _ _ _ _ (sym decode_nil ∙ ap decode (sym empty) ∙ gives) in cc got
Drains-Ahead (f ∷ fs) [] x y mid (h, hs) e (dry stops) = elim (first_frame f fs x y h e) [
  | inl waits ↦
      let (left, _) = same_rest _ _ _ _ (sym waits ∙ stops) in
      (f ∷ fs, refl, rw (← left) e, (h, hs), rw (← left) waits)
  | inr (more, gives, rest) ↦ let (_, got) = same_rest _ _ _ _ (sym gives ∙ stops) in cc got
]
Drains-Ahead (f ∷ fs) (g ∷ gs) x y mid (h, hs) e (next {rest = x'} gives later) =
    elim (first_frame f fs x y h e) [
      | inl waits ↦ let (_, got) = same_rest _ _ _ _ (sym waits ∙ gives) in cc got
      | inr (more, given, rest) ↦
          let (left, got) = same_rest _ _ _ _ (sym given ∙ gives) in
          let (others, frames, tail, sendable, still) =
            Drains-Ahead fs gs x' y mid hs (rw (← left) rest) later in
          (
            others,
            ap₂ (λ (a : Frame) (rs : List Frame). a ∷ rs) (cc got) frames,
            tail,
            sendable,
            still,
          )
    ]

-- A stream that is dry and complete has no frame left.
dry_end :
    (fs : List Frame) (buffer : Bytes)
    → All IsSendable fs
    → buffer ++ [] ≡ encode_all fs []
    → IsDry buffer
    → fs ≡ []
dry_end [] buffer h e still = refl
dry_end (f ∷ fs) buffer ((h, c, fits), hs) e still =
    let whole = decode-encode f (encode_all fs []) h c fits in
    let all : buffer ≡ encode f [] ++ encode_all fs [] =
      sym (append-nil buffer) ∙ e ∙ encode_all-dst fs (encode f []) in
    let (_, got) = same_rest _ _ _ _ (sym still ∙ ap decode all ∙ whole) in cc got

Arrives-from :
    (fs gs : List Frame) (buffer end : Bytes) (pieces : List Bytes)
    → All IsSendable fs
    → IsDry buffer
    → buffer ++ joined pieces ≡ encode_all fs []
    → Arrives buffer pieces gs end
    → gs ≡ fs
Arrives-from fs gs buffer end [] h still e idle = sym (dry_end fs buffer h e still)
Arrives-from fs gs buffer end (piece ∷ pieces) h still e
      (read {mid = mid} {fs = now} {gs = later} drains arrives) =
    let (more, frames, tail, sendable, still') =
      Drains-Ahead fs now (buffer ++ piece) (joined pieces) mid h
        (append_assoc buffer piece (joined pieces) ∙ e) drains in
    rw frames (
      ap (λ (rs : List Frame). now ++ rs)
        (Arrives-from more later mid end pieces sendable still' tail arrives))

-- However the stream of some frames is cut into pieces, the reader gets no other frames than these.
pub Arrives-unique :
    (fs gs : List Frame) (end : Bytes) (pieces : List Bytes)
    → All IsSendable fs
    → joined pieces ≡ encode_all fs []
    → Arrives [] pieces gs end
    → gs ≡ fs
Arrives-unique fs gs end pieces h e arrives =
    Arrives-from fs gs [] end pieces h decode_nil e arrives

Drains-some :
    (fs : List Frame) (x y : Bytes)
    → All IsSendable fs
    → x ++ y ≡ encode_all fs []
    → (gs : List Frame) × (mid : Bytes) × Drains x gs mid
Drains-some [] x y h e =
    let empty : x ≡ [] = nil_left x y e in ([], [], dry (ap decode empty ∙ decode_nil))
Drains-some (f ∷ fs) x y (h, hs) e = elim (first_frame f fs x y h e) [
  | inl waits ↦ ([], x, dry waits)
  | inr (more, gives, rest) ↦
      let (gs, mid, later) = Drains-some fs more y hs rest in (f ∷ gs, mid, next gives later)
]

Arrives-some :
    (fs : List Frame) (buffer : Bytes) (pieces : List Bytes)
    → All IsSendable fs
    → buffer ++ joined pieces ≡ encode_all fs []
    → (gs : List Frame) × (end : Bytes) × Arrives buffer pieces gs end
Arrives-some fs buffer [] h e = ([], buffer, idle)
Arrives-some fs buffer (piece ∷ pieces) h e =
    let whole = append_assoc buffer piece (joined pieces) ∙ e in
    let (now, mid, drains) = Drains-some fs (buffer ++ piece) (joined pieces) h whole in
    let (more, frames, tail, sendable, still) =
      Drains-Ahead fs now (buffer ++ piece) (joined pieces) mid h whole drains in
    let (later, end, arrives) = Arrives-some more mid pieces sendable tail in
    (now ++ later, end, read drains arrives)

-- However the stream of some frames is cut into pieces, the reader gets these frames, in order and once.
pub Arrives-sent :
    (fs : List Frame) (pieces : List Bytes)
    → All IsSendable fs
    → joined pieces ≡ encode_all fs []
    → (end : Bytes) × Arrives [] pieces fs end
Arrives-sent fs pieces h e =
    let (gs, end, arrives) = Arrives-some fs [] pieces h e in
    (
      end,
      subst (λ (rs : List Frame). Arrives [] pieces rs end)
          (Arrives-unique fs gs end pieces h e arrives) arrives,
    )
