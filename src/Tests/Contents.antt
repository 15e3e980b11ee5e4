-- ===== src/Tests/Contents.antt =====
-- An item is summarised, cut into chunks, and read back for the air.
use radiobeacon.Common.{
  ℕ, String, ◌≡◌, ◌≢◌, refl, arith, Bool, true, false, Option, none, some, List, [], ◌∷◌, at_least,
  length, truthy, find_row, pos,
}
use radiobeacon.Common.Result.{Result, ok}
use radiobeacon.Database.{Db, Item, ChunkRow, empty, Value}
use radiobeacon.Frames.{
  Formatter, Wrap, byte_length, max_frame_content_bytes, safe_format, format_frame,
}
use radiobeacon.Frames.Budget.{is_framed, format_frame-budget}
use radiobeacon.Beacon.Content.{resolve_frame_text, resolve_voice_text}
use radiobeacon.Chunking.{wrap_with_part_markers, store_chunks, chunk_rows}
use radiobeacon.Chunking.Stored.{get_elem?, resolve_frame_text-store_chunks}
use radiobeacon.Handling.{Event, Payload, Action, handle_message}
use radiobeacon.Handling.Once.{handle_message-twice}
use radiobeacon.Summarising.{Outside, AiConfig, Answer, answered, Settled}
use radiobeacon.Summarising.Run.{run_ai}
use radiobeacon.Summarising.Run.Voice.{run_ai-voice}

-- Templates without placeholders.
abbrev literal : Formatter
literal template fields = some template

format_frame-budget_example :
    is_framed (format_frame literal "CE3" "NFO" "[" "]" [] "sismo")
    ≡ at_least
        (max_frame_content_bytes "CE3" "NFO"
          (safe_format literal "[" [])
          (safe_format literal "]" []))
        (byte_length "sismo")
format_frame-budget_example = format_frame-budget literal "CE3" "NFO" "[" "]" "sismo" []

bytes_of_accents : byte_length "año" ≡ 4
unfolding byte_length
bytes_of_accents = refl

-- Every text is cut in two.
abbrev halves : Wrap
halves text width = "una" ∷ "otra" ∷ []

parts : wrap_with_part_markers halves "una otra" 6 ≡ "una 1/2" ∷ "otra 2/2" ∷ []
unfolding wrap_with_part_markers radiobeacon.Common.Text.decimal
parts = refl

abbrev old_chunk : ChunkRow
old_chunk = record { source = "csn"; item_id = "1"; chunk_index = 7; chunk_count = 8; text = "old" }

abbrev chunk_db : Db
chunk_db = record empty { chunks = old_chunk ∷ [] }

resolve_frame_text-store_chunks_example :
    resolve_frame_text "csn" "1" 7
      (store_chunks
        (chunk_rows "csn" "1" 0 (length {A = String} ("una" ∷ "otra" ∷ [])) ("una" ∷ "otra" ∷ []))
        chunk_db).0
    ≡ get_elem? ("una" ∷ "otra" ∷ []) 7
resolve_frame_text-store_chunks_example =
    resolve_frame_text-store_chunks "csn" "1" "una" 7 ("otra" ∷ []) chunk_db

abbrev event : Event
event = record {
  id = some "e1";
  type = some "item.dispatched";
  source = some "csn";
  item_id = some "1";
}

abbrev echo : Action
echo e db = (db, ok ((("source", Value.text "csn") ∷ []) ∷ []))

handle_message-twice_example :
    let done = (handle_message 5 "echo" echo (some "topic") event empty).0 in
    handle_message 9 "echo" echo (some "topic") event done ≡ (done, [])
handle_message-twice_example =
    handle_message-twice 5 9 "echo" "e1" echo (some "topic") event empty empty
      ((("source", Value.text "csn") ∷ []) ∷ []) refl refl refl

publishes_once :
    (handle_message 5 "echo" echo (some "topic") event empty).1
    ≡ (("source", Value.text "csn") ∷ []) ∷ []
unfolding handle_message radiobeacon.Handling.already_processed
publishes_once = refl

abbrev outside : Outside
outside = record {
  environ = λ key. none;
  ai_config = λ text. ok (record {
    ai_prompt = none;
    ai_on_failure = none;
    ai_fallback_to_title = false;
    use_ai = true;
  });
  format_map = λ template fields. ok template;
  other_fields = λ i. [];
  repr = λ o. "None";
  call = λ provider prompt model access. answered "";
}

abbrev bulletin : Item
bulletin = record {
  rowid = 1;
  source = "csn";
  item_id = "1";
  extracted_title = some "M 5.1";
  extracted_contents = some "Sismo cerca de Arica";
  summary = none;
  url = none;
  event_key = none;
  type = none;
  subtype = none;
  policy = none;
  source_date_time = none;
}

abbrev bulletin_db : Db
bulletin_db = record empty { items = bulletin ∷ [] }

abbrev summarised : Db × Result (List Settled)
summarised = run_ai outside 5 (some "csn") (some "1") bulletin_db

said : resolve_voice_text "csn" "1" summarised.0 ≡ some "Sismo cerca de Arica"
unfolding run_ai resolve_voice_text radiobeacon.Summarising.Planning.plan_of
    radiobeacon.Common.Text.int radiobeacon.Database.Settings.get_setting
    radiobeacon.Summarising.resolve_use_ai radiobeacon.Registry.get_adapter_instance
    radiobeacon.Common.Text.lower radiobeacon.Summarising.resolve_ai_on_failure
    radiobeacon.Summarising.Run.act radiobeacon.Summarising.handle_no_summary
    radiobeacon.Summarising.store_summary
said = refl

abbrev settled : List Settled
settled =
    record {
      source = "csn";
      item_id = "1";
      summarized = false;
      reason = some "ACTIONS_AI_ENABLED is not true";
      summary = none;
      provider = none;
      model = none;
      prompt = none;
    }
    ∷ []

run_ai-voice_example : truthy (resolve_voice_text "csn" "1" summarised.0) ≡ true
unfolding run_ai radiobeacon.Summarising.Planning.plan_of radiobeacon.Common.Text.int
    radiobeacon.Database.Settings.get_setting radiobeacon.Summarising.resolve_use_ai
    radiobeacon.Registry.get_adapter_instance radiobeacon.Common.Text.lower
    radiobeacon.Summarising.resolve_ai_on_failure radiobeacon.Summarising.Run.act
    radiobeacon.Summarising.handle_no_summary
run_ai-voice_example =
    run_ai-voice outside 5 "csn" "1" bulletin bulletin_db summarised.0 settled refl refl refl refl
      refl (λ none_out. ground arith)
