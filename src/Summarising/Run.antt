-- ===== src/Summarising/Run.antt =====
-- `AiAction.run` of actions/src/actions/ai.py: its plan for an item, and what it does of it.
pub mod Voice
use radiobeacon.Common.{
  or_blank, ℕ, ◌+◌, String, Bool, true, false, not, ◌&&◌, ◌||◌, Option, none, some, List, [], ◌∷◌,
  ◌++◌, truthy, str_eq, leb, ℤ, pos, negsuc, exists, find_row, update, if◌then◌else◌,
}
use radiobeacon.Common.Bytes.{concat}
use radiobeacon.Common.Text.{chars, strip, lower, int, decimal}
use radiobeacon.Common.Result.{Result, ok, raised, value_error, other_error, or_raise, ◌>>=◌}
use radiobeacon.Database.{Db, Item, AdapterRow, Value, is_item}
use radiobeacon.Database.Audit.{record_audit_event}
use radiobeacon.Database.Settings.{Environ, get_setting}
use radiobeacon.Cron.{text_or}
use radiobeacon.Registry.{get_source_fields, get_adapter_instance}
use radiobeacon.Summarising.{
  Outside, Mode, Plan, fall_back, summarise, Settled, unsummarised, handle_no_summary,
  store_summary,
}
use radiobeacon.Summarising.Planning.{plan_of}

-- A summary that finds no row is not claimed.
unfoldable pub act : ℕ → String → String → Item → Plan → Db → Db × List Settled
act now source item_id i (fall_back mode reason title_ok provider model) db =
    handle_no_summary now source item_id i mode reason title_ok provider model db
act now source item_id i (summarise text provider model prompt) db =
    let (db', matched) = store_summary source item_id text db in
    (
      db',
      (if matched
            then record {
              source = source;
              item_id = item_id;
              summarized = true;
              reason = none;
              summary = some text;
              provider = some provider;
              model = some model;
              prompt = prompt;
            }
            else unsummarised source item_id
                "summary produced but store_summary matched no row (item changed concurrently after summarization)"
                (some provider) (some model) prompt)
          ∷ [],
    )

carried_out : ℕ → String → String → Item → Db → Result Plan → Db × Result (List Settled)
carried_out now source item_id i db (raised e) = (db, raised e)
carried_out now source item_id i db (ok plan) =
    let (db', outputs) = act now source item_id i plan db in (db', ok outputs)

summarise_item : Outside → ℕ → String → String → Option Item → Db → Db × Result (List Settled)
unfolding carried_out
summarise_item o now source item_id none db =
    (db, ok (unsummarised source item_id "item not found in items table" none none none ∷ []))
summarise_item o now source item_id (some i) db =
    let done = carried_out now source item_id i db (plan_of o source i db) in
    if truthy i.extracted_contents
    then done
    else (db, ok (unsummarised source item_id "item has no extracted_contents" none none none ∷ []))

-- `AiAction.run` for the source and item of an event.
unfoldable pub run_ai :
    Outside → ℕ → Option String → Option String → Db → Db × Result (List Settled)
unfolding summarise_item
run_ai o now source item_id db =
    let s = or_blank source in
    let i = or_blank item_id in
    let done = summarise_item o now s i (find_row (is_item s i) db.items) db in
    if truthy source && truthy item_id then done else (db, ok [])
