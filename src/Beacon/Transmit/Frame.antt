-- ===== src/Beacon/Transmit/Frame.antt =====
-- `_transmit_frame_unit` of beacon/src/beacon/__main__.py.
use radiobeacon.Common.{
  or_blank, ℕ, String, Bool, true, false, Option, none, some, [], ◌∷◌, truthy, ℤ, pos, negsuc,
  if◌then◌else◌,
}
use radiobeacon.Common.Bytes.{concat}
use radiobeacon.Common.Text.{int, decimal}
use radiobeacon.Common.Result.{Result, ok, raised, value_error}
use radiobeacon.Database.{Db, TxRow, Value}
use radiobeacon.Database.Status.{set_beacon_status}
use radiobeacon.Frames.{FormattedFrame, Framed, framed, frame_too_long, format_frame}
use radiobeacon.Beacon.Content.{resolve_frame_text}
use radiobeacon.Beacon.Transmit.{
  Studio, Context, Sent, sent, not_sent, clip, reason, audit, unit_fields, format_source_date_time,
}

frame_sent : Studio → ℕ → TxRow → ℕ → FormattedFrame → Sent → Db → Db × Result Bool
unfolding clip reason
frame_sent s now r chunk_index f sent db = (
  set_beacon_status "last_frame_transmit_at" (some (s.isoformat now)) (
      audit now "beacon.frame.transmitted" r
        (("tnc2", Value.text f.tnc2)
          ∷ ("byte_length", Value.num f.byte_length)
          ∷ ("ref", Value.num chunk_index)
          ∷ ("clip", Value.text (clip r (concat "-" (decimal chunk_index)) now))
          ∷ [])
        db),
  ok true,
)
frame_sent s now r chunk_index f (not_sent e) db =
    (audit now "beacon.frame.transmit_failed" r (("reason", reason e) ∷ []) db, ok false)

-- The text of the FrameTooLongError.
too_long : ℕ → String
too_long n =
    concat "assembled frame is "
      (concat (decimal n) " bytes, exceeds the 256-byte AX.25 UI frame limit")

modulated : Studio → ℕ → TxRow → ℕ → Framed → Db → Db × Result Bool
unfolding frame_sent too_long
modulated s now r chunk_index (frame_too_long n) db = (
  audit now "beacon.frame.dropped_too_long" r (("error", Value.text (too_long n)) ∷ []) db,
  ok false,
)
modulated s now r chunk_index (framed f) db =
    let done = frame_sent s now r chunk_index f (s.send f.tnc2) db in
    if s.modulate f.tnc2 then done else (
      audit now "beacon.frame.transmit_failed" r (("reason", Value.text "gen_packets_failed") ∷ [])
          db,
      ok false,
    )

frame_dated :
    Studio → Context → ℕ → TxRow → String → ℕ → String → Result String → Db → Db × Result Bool
unfolding modulated
frame_dated s ctx now r callsign chunk_index text (raised e) db = (db, raised e)
frame_dated s ctx now r callsign chunk_index text (ok date) db =
    modulated s now r chunk_index
      (format_frame s.vformat callsign ctx.destination ctx.frame_prefix ctx.frame_suffix
        (unit_fields date r db) text)
      db

frame_text : Studio → Context → ℕ → TxRow → String → ℕ → Option String → Db → Db × Result Bool
unfolding frame_dated
frame_text s ctx now r callsign chunk_index none db = (db, ok false)
frame_text s ctx now r callsign chunk_index (some text) db =
    frame_dated s ctx now r callsign chunk_index text
      (format_source_date_time s r.source r.item_id ctx.date_format db) db

-- No chunk has a negative index.
frame_indexed : Studio → Context → ℕ → TxRow → Option ℤ → Db → Db × Result Bool
unfolding frame_text
frame_indexed s ctx now r none db = (db, raised value_error)
frame_indexed s ctx now r (some (negsuc n)) db =
    if truthy ctx.callsign
    then (db, ok false)
    else (audit now "beacon.frame.skipped_no_callsign" r [] db, ok false)
frame_indexed s ctx now r (some (pos n)) db =
    let done =
      frame_text s ctx now r (or_blank ctx.callsign) n (resolve_frame_text r.source r.item_id n db)
        db in
    if truthy ctx.callsign
    then done
    else (audit now "beacon.frame.skipped_no_callsign" r [] db, ok false)

unfoldable pub transmit_frame_unit : Studio → Context → ℕ → TxRow → Db → Db × Result Bool
unfolding frame_indexed
transmit_frame_unit s ctx now r db = frame_indexed s ctx now r (int r.ref) db
