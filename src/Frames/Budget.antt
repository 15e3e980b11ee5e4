-- ===== src/Frames/Budget.antt =====
-- The budget that a chunk is cut to is the one that its frame is held to.
use radiobeacon.Common.{
  ℕ, ◌+◌, String, ◌≡◌, arith, Bool, true, false, List, at_least, ltb, inl, inr, Bool-cases,
}
use radiobeacon.Common.Bytes.{concat}
use radiobeacon.Frames.{
  byte_length, header, max_frame_content_bytes, Formatter, safe_format, format_frame, assembled,
  FormattedFrame, Framed, framed, frame_too_long, bounded, minus, ax25_hard_limit_bytes,
}

byte_length-concat : (s t : String) → byte_length (concat s t) ≡ byte_length s + byte_length t
unfolding byte_length
byte_length-concat String.[] t = omega arith
byte_length-concat (String.◌∷◌ c s) t = omega (arith, byte_length-concat s t)

abbrev pub is_framed : Framed → Bool
is_framed (framed f) = true
is_framed (frame_too_long n) = false

fits :
    (f : FormattedFrame) (size overhead : ℕ)
    → f.byte_length ≡ overhead + size
    → is_framed (bounded f) ≡ at_least (minus ax25_hard_limit_bytes overhead) size
fits f size overhead e = elim (Bool-cases (ltb ax25_hard_limit_bytes f.byte_length)) [
  | inl long ↦ ground (arith, e, long)
  | inr short ↦ ground (arith, e, short)
]

-- A chunk is assembled into a frame, rather than dropped as too long, just when its bytes are within
-- what `max_frame_content_bytes` leaves for it under the same call signs and the rendered prefix and
-- suffix.
pub format_frame-budget :
    (vformat : Formatter) (callsign destination prefix suffix chunk_text : String)
    (fields : List (String × String))
    → is_framed (format_frame vformat callsign destination prefix suffix fields chunk_text)
      ≡ at_least
          (max_frame_content_bytes callsign destination
            (safe_format vformat prefix fields)
            (safe_format vformat suffix fields))
          (byte_length chunk_text)
unfolding format_frame max_frame_content_bytes
format_frame-budget vformat callsign destination prefix suffix chunk_text fields =
    let p = safe_format vformat prefix fields in
    let s = safe_format vformat suffix fields in
    let h = header callsign destination in
    fits (assembled callsign destination p s chunk_text) (byte_length chunk_text)
      (byte_length (concat h (concat p s)))
      (omega (
        arith,
        byte_length-concat h (concat p (concat chunk_text s)),
        byte_length-concat p (concat chunk_text s),
        byte_length-concat chunk_text s,
        byte_length-concat h (concat p s),
        byte_length-concat p s,
      ))
