-- ===== src/Beacon/Transmit.antt =====
-- `_transmit_voice_unit`, what it shares with `_transmit_frame_unit`, and what they call, of beacon/src/beacon/__main__.py.
-- Speech, modulation and the hand-over of a clip are parameters, as are the clock and the date formats.
pub mod Calm
pub mod Frame
pub mod Pass
use radiobeacon.Common.{
  or_blank, ℕ, ◌+◌, ◌/◌, String, Bool, true, false, not, Option, none, some, List, [], ◌∷◌, ◌++◌,
  exists, truthy, str_eq, ℤ, pos, negsuc, if◌then◌else◌,
}
use radiobeacon.Common.Bytes.{concat}
use radiobeacon.Common.Text.{int, decimal}
use radiobeacon.Common.Result.{Exception, Result, ok, raised, value_error, other_error, ◌>>=◌}
use radiobeacon.Database.{Db, TxRow, Value, AdapterRow}
use radiobeacon.Database.Audit.{record_audit_event, opt_text}
use radiobeacon.Database.Status.{set_beacon_status}
use radiobeacon.Schedule.{second}
use radiobeacon.Registry.{get_adapter_instance}
use radiobeacon.Dispatcher.Discover.{Parse, Parsed, invalid, naive, aware}
use radiobeacon.Frames.{
  Formatter, Wrap, FormattedFrame, Framed, framed, frame_too_long, FormattedVoice, format_frame,
  format_voice,
}
use radiobeacon.Beacon.Content.{
  resolve_frame_text, resolve_voice_text, resolve_item_fields, source_date_text,
}
use radiobeacon.Beacon.Drain.{Transmit}

-- Whether a clip was handed over, and if not, the error that is known.
pub data Sent : Type 0 where
  sent : Sent
  not_sent : Option String → Sent

-- `replacements` reads an adapter's configuration; `expand` applies the compiled pattern of its
-- abbreviations, none where it does not compile, and raises TypeError where a replacement that it puts
-- in is no text; `local_text` shows an instant in the display time zone in a format, and raises where
-- the zone of the settings is none or has no such date.
pub record Studio : Type 0 where
  pub vformat : Formatter
  pub wrap : Wrap
  pub parse : Parse
  pub local_text : String → ℕ → Db → Result String
  pub replacements : String → List (String × String)
  pub expand : List (String × String) → String → Result (Option String)
  pub speak : String → Bool
  pub modulate : String → Bool
  pub send : String → Sent
  pub isoformat : ℕ → String

-- The settings that a pass read, `ctx`.
pub record Context : Type 0 where
  pub callsign : Option String
  pub destination : String
  pub date_format : String
  pub voice_template : String
  pub voice_max_chars : ℕ
  pub voice_prefix : String
  pub voice_suffix : String
  pub frame_prefix : String
  pub frame_suffix : String

replacements_of : Studio → Option AdapterRow → List (String × String)
replacements_of s none = []
replacements_of s (some a) = s.replacements a.config

unfoldable pub resolve_voice_replacements : Studio → String → Db → List (String × String)
unfolding replacements_of
resolve_voice_replacements s source db = replacements_of s (get_adapter_instance source db)

expanded : Option String → String → String
expanded none text = text
expanded (some t) text = t

abbrev pub has_empty_key : List (String × String) → Bool
has_empty_key rs = exists (λ r. str_eq r.0 "") rs

-- `key[0]` of an empty key is an IndexError, which is an other_error.
unfoldable pub apply_voice_replacements : Studio → String → List (String × String) → Result String
unfolding expanded
apply_voice_replacements s text [] = ok text
apply_voice_replacements s text (r ∷ rs) =
    let substituted = (do t ← s.expand (r ∷ rs) text; ok (expanded t text)) in
    if str_eq text ""
    then ok text
    else if has_empty_key (r ∷ rs)
    then raised other_error
    else substituted

-- `to_display_tz` raises ValueError for a date without a time zone.
shown : Studio → String → Db → Parsed → Result String
shown s format db invalid = raised value_error
shown s format db naive = raised value_error
shown s format db (aware n) = s.local_text format n db

date_text : Studio → String → Db → Option String → Result String
unfolding shown
date_text s format db none = ok ""
date_text s format db (some text) = shown s format db (s.parse text)

-- A date that `datetime.fromisoformat` rejects raises ValueError.
unfoldable pub format_source_date_time : Studio → String → String → String → Db → Result String
unfolding date_text
format_source_date_time s source item_id format db =
    date_text s format db (source_date_text source item_id db)

abbrev audit : ℕ → String → TxRow → List (String × Value) → Db → Db
audit now event r details db =
    record_audit_event (now / second) event "beacon" (some r.source) (some r.item_id) details db

-- The name of the clip's file.
clip : TxRow → String → ℕ → String
clip r middle now = concat r.source (
    concat "-"
      (concat r.item_id (concat middle (concat "-" (concat (decimal (now / second)) ".wav")))))

reason_of : Option String → Value
reason_of none = Value.text "transmitter_failed"
reason_of (some e) = Value.text e

-- `transmit_error or "transmitter_failed"`
reason : Option String → Value
unfolding reason_of
reason e = reason_of (if truthy e then e else none)

voice_sent : Studio → ℕ → TxRow → FormattedVoice → Sent → Db → Db × Result Bool
unfolding clip reason
voice_sent s now r f sent db = (
  set_beacon_status "last_voice_transmit_at" (some (s.isoformat now)) (
      audit now "beacon.voice.transmitted" r
        (("truncated", Value.flag f.truncated) ∷ ("clip", Value.text (clip r "" now)) ∷ []) db),
  ok true,
)
voice_sent s now r f (not_sent e) db =
    (audit now "beacon.voice.transmit_failed" r (("reason", reason e) ∷ []) db, ok false)

spoken : Studio → ℕ → TxRow → FormattedVoice → Db → Db × Result Bool
unfolding voice_sent
spoken s now r f db =
    let done = voice_sent s now r f (s.send f.text) db in
    if s.speak f.text then done else (
      audit now "beacon.voice.transmit_failed" r (("reason", Value.text "tts_failed") ∷ []) db,
      ok false,
    )

abbrev unit_fields : String → TxRow → Db → List (String × String)
unit_fields date r db =
    ("date", date)
    ∷ (resolve_item_fields r.source r.item_id db
        ++ ("source", r.source) ∷ ("item_id", r.item_id) ∷ [])

voiced : Studio → ℕ → TxRow → Result FormattedVoice → Db → Db × Result Bool
unfolding spoken
voiced s now r (raised e) db = (db, raised e)
voiced s now r (ok f) db = spoken s now r f db

voice_dated : Studio → Context → ℕ → TxRow → String → String → Result String → Db → Db × Result Bool
unfolding voiced
voice_dated s ctx now r callsign text (raised e) db = (db, raised e)
voice_dated s ctx now r callsign text (ok date) db =
    voiced s now r
      (format_voice s.vformat s.wrap callsign ctx.voice_template ctx.voice_max_chars
        ctx.voice_prefix ctx.voice_suffix (unit_fields date r db) text)
      db

voice_said : Studio → Context → ℕ → TxRow → String → Result String → Db → Db × Result Bool
unfolding voice_dated
voice_said s ctx now r callsign (raised e) db = (db, raised e)
voice_said s ctx now r callsign (ok text) db =
    voice_dated s ctx now r callsign text
      (format_source_date_time s r.source r.item_id ctx.date_format db) db

unfoldable pub transmit_voice_unit : Studio → Context → ℕ → TxRow → Db → Db × Result Bool
unfolding voice_said
transmit_voice_unit s ctx now r db =
    let text = resolve_voice_text r.source r.item_id db in
    let said =
      apply_voice_replacements s (or_blank text) (resolve_voice_replacements s r.source db) in
    let done = voice_said s ctx now r (or_blank ctx.callsign) said db in
    if not (truthy ctx.callsign)
    then (audit now "beacon.voice.skipped_no_callsign" r [] db, ok false)
    else if not (truthy text)
    then (db, ok false)
    else done

error_of : Result Bool → Option Exception
error_of (raised e) = some e
error_of (ok b) = none

-- The entry of KIND_TRANSMITTERS: the result of a transmission is not used.
unfoldable pub transmitter : (TxRow → Db → Db × Result Bool) → Transmit
unfolding error_of
transmitter unit r db = let (db', end) = unit r db in (db', error_of end)
