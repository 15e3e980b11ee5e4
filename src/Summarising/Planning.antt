-- ===== src/Summarising/Planning.antt =====
-- `AiAction.run` of actions/src/actions/ai.py, up to what the item is to go on with.
pub mod Speaks
use radiobeacon.Common.{
  or_blank, ℕ, ◌+◌, String, Bool, true, false, not, ◌&&◌, ◌||◌, Option, none, some, List, [], ◌∷◌,
  ◌++◌, truthy, str_eq, leb, ℤ, pos, negsuc, exists, find_row, update, if◌then◌else◌,
}
use radiobeacon.Common.Bytes.{concat}
use radiobeacon.Common.Text.{chars, strip, lower, int, decimal}
use radiobeacon.Common.Result.{Result, ok, raised, value_error, other_error, or_raise, ◌>>=◌}
use radiobeacon.Database.{Db, Item, AdapterRow, Value, is_item}
use radiobeacon.Database.Audit.{record_audit_event}
use radiobeacon.Database.Settings.{Environ, get_setting}
use radiobeacon.Cron.{text_or}
use radiobeacon.Registry.{get_source_fields, get_adapter_instance}
use radiobeacon.Summarising.{
  Outside, Answer, answered, failed, Mode, continue_with_contents, use_title, abort, Plan,
  fall_back, summarise, resolve_ai_on_failure, resolve_use_ai, resolve_prompt_template,
  render_prompt,
}

int_text : ℤ → String
int_text (pos n) = decimal n
int_text (negsuc n) = concat "-" (decimal (n + 1))

abbrev at_most : ℕ → ℤ → Bool
at_most n (pos k) = leb n k
at_most n (negsuc k) = false

abbrev is_provider : String → Bool
is_provider p = str_eq p "openai" || (str_eq p "claude" || str_eq p "ollama")

abbrev is_true : String → String → Outside → Db → Bool
is_true key default o db =
    str_eq (lower (text_or "" (get_setting o.environ true key (some default) db))) "true"

-- Why the provider is not ask_with.
skip_reason : Bool → Bool → Bool → ℤ → Bool → String → Option String
unfolding int_text
skip_reason ai_disabled adapter_ai_disabled short max_chars no_provider provider =
    if ai_disabled
    then some "ACTIONS_AI_ENABLED is not true"
    else if adapter_ai_disabled
    then some "AI disabled for this adapter (Use AI unchecked)"
    else if short
    then some (
        concat "extracted_contents already <= "
          (concat (int_text max_chars) " chars, nothing to summarize"))
    else if no_provider
    then some (
        concat "ACTIONS_AI_PROVIDER="
          (concat provider " invalid (must be openai, claude, or ollama)"))
    else none

model_of : Outside → String → Db → String
model_of o provider db =
    let setting =
      λ (key default : String). text_or "" (get_setting o.environ true key (some default) db) in
    if str_eq provider "openai"
    then setting "ACTIONS_AI_OPENAI_MODEL" "gpt-4o-mini"
    else if str_eq provider "claude"
    then setting "ACTIONS_AI_CLAUDE_MODEL" "claude-haiku-4-5"
    else setting "ACTIONS_AI_OLLAMA_MODEL" "llama3.2:1b"

access_of : Outside → String → Db → Option String
access_of o provider db =
    if str_eq provider "openai"
    then get_setting o.environ true "OPENAI_API_KEY" none db
    else if str_eq provider "claude"
    then get_setting o.environ true "ANTHROPIC_API_KEY" none db
    else get_setting o.environ true "ACTIONS_AI_OLLAMA_HOST" (some "http://localhost:11434") db

-- A failed call is let out under `continue_with_contents`.
failed_plan : String → String → String → Mode → Result Plan
failed_plan provider model text continue_with_contents = raised other_error
failed_plan provider model text mode = ok (
    fall_back mode (concat "provider call failed (" (concat text ")")) true (some provider)
      (some model))

blank_plan : String → String → Result Mode → Result Plan
blank_plan provider model resolved = do
  mode ← resolved
  ok (
      fall_back mode (concat "provider " (concat provider " returned an empty response")) true
        (some provider) (some model))

answer_plan : Outside → String → String → String → String → Answer → Db → Result Plan
unfolding failed_plan blank_plan
answer_plan o source provider model prompt (failed text) db = do
  mode ← resolve_ai_on_failure o source db
  failed_plan provider model text mode
answer_plan o source provider model prompt (answered text) db =
    let empty = blank_plan provider model (resolve_ai_on_failure o source db) in
    if str_eq (strip text) ""
    then empty
    else ok (
        summarise (strip text) provider model
          (if is_true "ACTIONS_AI_EVENT_INCLUDE_PROMPT" "false" o db then some prompt else none))

-- Every column of the item that a template can name, and its source's display fields.
prompt_fields : Outside → String → Item → Db → List (String × String)
prompt_fields o source i db =
    let (source_name, source_url) = get_source_fields source db in
    ("source", i.source)
    ∷ ("item_id", i.item_id)
    ∷ ("extracted_title", or_blank i.extracted_title)
    ∷ ("extracted_contents", or_blank i.extracted_contents)
    ∷ ("summary", or_blank i.summary)
    ∷ ("url", or_blank i.url)
    ∷ ("event_key", or_blank i.event_key)
    ∷ ("type", or_blank i.type)
    ∷ ("subtype", or_blank i.subtype)
    ∷ ("policy", or_blank i.policy)
    ∷ ("source_date_time", or_blank i.source_date_time)
    ∷ (o.other_fields i ++ ("source_name", source_name) ∷ ("source_url", source_url) ∷ [])

ask_with : Outside → String → String → Item → Db → String → Result Plan
unfolding answer_plan model_of access_of prompt_fields
ask_with o source provider i db template = do
  prompt ← render_prompt o template (prompt_fields o source i db)
  let model = model_of o provider db in
      answer_plan o source provider model prompt
        (o.call provider prompt model (access_of o provider db)) db

ask : Outside → String → String → Item → Db → Result Plan
unfolding ask_with
ask o source provider i db = do
  template ← resolve_prompt_template o source db
  ask_with o source provider i db template

skipped : Outside → String → Bool → Bool → String → Db → Result Plan
skipped o source adapter_ai_disabled title_ok reason db = do
  mode ←
      (if adapter_ai_disabled then ok continue_with_contents else resolve_ai_on_failure o source db)
  ok (fall_back mode reason title_ok none none)

skip_or_ask : Outside → String → Bool → Bool → String → Item → Db → Option String → Result Plan
unfolding skipped ask
skip_or_ask o source adapter_ai_disabled title_ok provider i db (some reason) =
    skipped o source adapter_ai_disabled title_ok reason db
skip_or_ask o source adapter_ai_disabled title_ok provider i db none = ask o source provider i db

planned : Outside → String → Item → Db → ℤ → Bool → Result Plan
unfolding skip_or_ask skip_reason
planned o source i db max_chars use_ai =
    let given = get_setting o.environ true "ACTIONS_AI_PROVIDER" none db in
    let provider = or_blank given in
    let ai_disabled = not (is_true "ACTIONS_AI_ENABLED" "false" o db) in
    let no_provider = not (is_provider provider) in
    skip_or_ask o source (not use_ai) (ai_disabled || no_provider) provider i db (
      skip_reason ai_disabled (not use_ai)
        (at_most (chars (or_blank i.extracted_contents)) max_chars) max_chars no_provider
        (o.repr given))

unfoldable pub plan_of : Outside → String → Item → Db → Result Plan
unfolding planned
plan_of o source i db = do
  max_chars ←
      or_raise value_error
        (int (text_or "" (get_setting o.environ true "ACTIONS_AI_MAX_CHARS" (some "200") db)))
  use_ai ← resolve_use_ai o source db
  planned o source i db max_chars use_ai
