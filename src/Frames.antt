-- ===== src/Frames.antt =====
-- The text of a frame: data-adapters/src/adapters/ax25.py, safe_format of
-- data-adapters/src/adapters/templating.py, and format_frame and format_voice of
-- beacon/src/beacon/formatters.py. The formatter of a template and textwrap.wrap are parameters.
pub mod Budget
use Prim.Native.Char.{code}
use radiobeacon.Common.{
  or_blank, ◌&&◌, ◌==◌, ℕ, ◌+◌, ◌-◌, String, Bool, true, false, Option, none, some, List, [], ◌∷◌,
  ℤ, pos, negsuc, str_eq, ltb, leb, take, if◌then◌else◌,
}
use radiobeacon.Common.Bytes.{concat}
use radiobeacon.Common.Text.{chars}
use radiobeacon.Common.Result.{Result, ok, raised, value_error}

-- `len(s.encode("utf-8"))`
unfoldable pub byte_length : String → ℕ
byte_length String.[] = 0
byte_length (String.◌∷◌ c s) =
    (if ltb (code c) 128
      then 1
      else if ltb (code c) 2048
      then 2
      else if ltb (code c) 65536
      then 3
      else 4)
    + byte_length s

abbrev pub ax25_hard_limit_bytes : ℕ
ax25_hard_limit_bytes = 256

abbrev pub minus : ℕ → ℕ → ℤ
minus a b = if leb b a then pos (a - b) else negsuc (b - a - 1)

abbrev pub header : String → String → String
header callsign destination = concat callsign (concat ">" (concat destination ":"))

-- What is left of the limit for a chunk's text, which may be negative.
unfoldable pub max_frame_content_bytes : String → String → String → String → ℤ
max_frame_content_bytes callsign destination prefix suffix =
    minus ax25_hard_limit_bytes
      (byte_length (concat (header callsign destination) (concat prefix suffix)))

-- `_FORMATTER.vformat(template, (), fields)`: none where it raises.
abbrev pub Formatter : Type 0
Formatter = String → List (String × String) → Option String

-- A template that cannot be rendered counts as empty.
unfoldable pub safe_format : Formatter → String → List (String × String) → String
safe_format vformat template fields =
    let rendered = or_blank (vformat template fields) in if str_eq template "" then "" else rendered

pub record FormattedFrame : Type 0 where
  pub tnc2 : String
  pub content : String
  pub byte_length : ℕ

-- A frame, or the number of bytes that the FrameTooLongError names.
pub data Framed : Type 0 where
  framed : FormattedFrame → Framed
  frame_too_long : ℕ → Framed

abbrev bounded : FormattedFrame → Framed
bounded f =
    if ltb ax25_hard_limit_bytes f.byte_length then frame_too_long f.byte_length else framed f

-- What is sent for a chunk between a rendered prefix and suffix.
abbrev pub assembled : String → String → String → String → String → FormattedFrame
assembled callsign destination prefix suffix chunk_text =
    let content = concat prefix (concat chunk_text suffix) in
    let tnc2 = concat (header callsign destination) content in
    record { tnc2 = tnc2; content = content; byte_length = byte_length tnc2 }

-- `fields` holds `date` and the item's fields.
unfoldable pub format_frame :
    Formatter → String → String → String → String → List (String × String) → String → Framed
format_frame vformat callsign destination prefix suffix fields chunk_text = bounded (
    assembled callsign destination (safe_format vformat prefix fields)
      (safe_format vformat suffix fields) chunk_text)

-- `textwrap.wrap(text, width, break_long_words=False, break_on_hyphens=False)`
abbrev pub Wrap : Type 0
Wrap = String → ℕ → List String

pub record FormattedVoice : Type 0 where
  pub text : String
  pub truncated : Bool

take_chars : ℕ → String → String
take_chars Prim.Native.Nat.zero s = ""
take_chars (Prim.Native.Nat.suc n) String.[] = ""
take_chars (Prim.Native.Nat.suc n) (String.◌∷◌ c s) = String.◌∷◌ c (take_chars n s)

first_or : String → List String → String
first_or default [] = default
first_or default (p ∷ pieces) = p

shortened : Wrap → ℕ → String → String
unfolding first_or take_chars
shortened wrap max_chars text = first_or (take_chars max_chars text) (wrap text max_chars)

-- `fields` holds `date` and the item's fields; the template may also use `callsign` and `text`.
-- textwrap.wrap raises ValueError where the width is 0; the cap is taken not to be negative.
unfoldable pub format_voice :
    Formatter
    → Wrap
    → String
    → String
    → ℕ
    → String
    → String
    → List (String × String)
    → String
    → Result FormattedVoice
unfolding shortened
format_voice vformat wrap callsign template max_chars prefix suffix fields text =
    let truncated = ltb max_chars (chars text) in
    let short = if truncated then shortened wrap max_chars text else text in
    let wrapped =
      concat (safe_format vformat prefix fields)
        (concat short (safe_format vformat suffix fields)) in
    let done = ok (record {
      text = safe_format vformat template (("callsign", callsign) ∷ ("text", wrapped) ∷ fields);
      truncated = truncated;
    }) in
    if truncated && max_chars == 0 then raised value_error else done
