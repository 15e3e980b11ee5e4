-- ===== src/Tests/OnAir.antt =====
-- The voice transmitter of the beacon on small tables.
use radiobeacon.Common.{◌≡◌, refl, true, none, some, [], ◌∷◌, find_row, length}
use radiobeacon.Common.Result.{ok, raised, value_error}
use radiobeacon.Database.{Db, Item}
use radiobeacon.Schedule.{is_unit}
use radiobeacon.Dispatcher.Discover.{Parse, invalid, naive, aware}
use radiobeacon.Beacon.Drain.{drain_kind}
use radiobeacon.Beacon.Drain.Fate.{fate}
use radiobeacon.Beacon.Transmit.{Studio, Context, sent, not_sent, transmit_voice_unit, transmitter}
use radiobeacon.Beacon.Transmit.Calm.{IsDated, IsSpeakable}
use radiobeacon.Beacon.Transmit.Pass.{voice_pass-fate}
use radiobeacon.Tests.Data.{scheduled-HasKeys, world, scheduled_db, voice_row, sched, reads, never}

-- A station where nothing fails; `parse` reads dates.
abbrev station : Parse → Studio
station parse = record {
  vformat = λ template fields. some template;
  wrap = λ text width. text ∷ [];
  parse = parse;
  local_text = λ format n db. ok "12:00";
  replacements = λ config. [];
  expand = λ rs text. ok (some text);
  speak = λ text. true;
  modulate = λ tnc2. true;
  send = λ text. sent;
  isoformat = λ now. "now";
}

abbrev context : Context
context = record {
  callsign = some "CE3ABC";
  destination = "NFO";
  date_format = "%H:%M";
  voice_template = "{text}";
  voice_max_chars = 300;
  voice_prefix = "";
  voice_suffix = "";
  frame_prefix = "";
  frame_suffix = "";
}

abbrev undated : Item
undated = record {
  rowid = 1;
  source = "csn";
  item_id = "1";
  extracted_title = some "M 5.1";
  extracted_contents = none;
  summary = some "Sismo cerca de Arica";
  url = none;
  event_key = none;
  type = none;
  subtype = none;
  policy = none;
  source_date_time = some "soon";
}

abbrev undated_db : Db
undated_db = record scheduled_db { items = undated ∷ [] }

abbrev no_date : Parse
no_date text = invalid

abbrev any_date : Parse
any_date text = aware 0

-- A date without a time zone.
abbrev naive_date : Parse
naive_date text = naive

-- A date that cannot be read, or that has no time zone, lets an exception out of the transmission.
bad_date :
    transmit_voice_unit (station no_date) context 90000000 voice_row undated_db
    ≡ (undated_db, raised value_error)
unfolding transmit_voice_unit radiobeacon.Beacon.Content.resolve_voice_text
    radiobeacon.Beacon.Transmit.format_source_date_time radiobeacon.Beacon.Content.source_date_text
    radiobeacon.Database.Status.set_beacon_status radiobeacon.Frames.format_voice
    radiobeacon.Beacon.Transmit.apply_voice_replacements
    radiobeacon.Beacon.Transmit.resolve_voice_replacements radiobeacon.Registry.get_adapter_instance
bad_date = refl

no_zone :
    transmit_voice_unit (station naive_date) context 90000000 voice_row undated_db
    ≡ (undated_db, raised value_error)
unfolding transmit_voice_unit radiobeacon.Beacon.Content.resolve_voice_text
    radiobeacon.Beacon.Transmit.format_source_date_time radiobeacon.Beacon.Content.source_date_text
    radiobeacon.Database.Status.set_beacon_status radiobeacon.Frames.format_voice
    radiobeacon.Beacon.Transmit.apply_voice_replacements
    radiobeacon.Beacon.Transmit.resolve_voice_replacements radiobeacon.Registry.get_adapter_instance
no_zone = refl

station-IsDated : IsDated (station any_date) scheduled_db
station-IsDated = record {
  parsed = λ source item_id text e. (0, refl);
  shown_as = λ format n d e. ("12:00", refl);
}

station-IsSpeakable : IsSpeakable (station any_date) scheduled_db
unfolding radiobeacon.Beacon.Transmit.resolve_voice_replacements
    radiobeacon.Registry.get_adapter_instance
station-IsSpeakable = record { keyed = λ source. refl; expands = λ source text. (some text, refl) }

voice_pass-fate_example :
    find_row
      (is_unit "csn" "1" "voice" "")
      (drain_kind world
        (transmitter (transmit_voice_unit (station any_date) context 90000000))
        "voice"
        90000000
        never
        scheduled_db).0.beacon_tx_schedule
    ≡ fate world scheduled_db 90000000 (sched none) voice_row
voice_pass-fate_example =
    voice_pass-fate world (station any_date) context 90000000 scheduled_db sched never voice_row
      refl station-IsDated station-IsSpeakable reads (λ k. refl) scheduled-HasKeys refl refl

airs :
    length
      (transmit_voice_unit (station any_date) context 90000000 voice_row undated_db).0.audit_log
    ≡ 1
unfolding transmit_voice_unit radiobeacon.Beacon.Content.resolve_voice_text
    radiobeacon.Beacon.Transmit.format_source_date_time radiobeacon.Beacon.Content.source_date_text
    radiobeacon.Database.Status.set_beacon_status radiobeacon.Frames.format_voice
    radiobeacon.Beacon.Transmit.apply_voice_replacements
    radiobeacon.Beacon.Transmit.resolve_voice_replacements radiobeacon.Registry.get_adapter_instance
airs = refl
