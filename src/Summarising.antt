-- ===== src/Summarising.antt =====
-- actions/src/actions/ai.py, and store_summary of data-adapters/src/adapters/storage.py: the summary
-- that an item goes on air with. The providers, json.loads of an adapter's configuration, str.format_map
-- and repr are parameters.
pub mod Planning
pub mod Run
use radiobeacon.Common.{
  or_blank, ℕ, ◌+◌, String, Bool, true, false, not, ◌&&◌, ◌||◌, Option, none, some, List, [], ◌∷◌,
  ◌++◌, truthy, str_eq, leb, ℤ, pos, negsuc, exists, find_row, update, if◌then◌else◌,
}
use radiobeacon.Common.Bytes.{concat}
use radiobeacon.Common.Text.{chars, strip, lower, int, decimal}
use radiobeacon.Common.Result.{Result, ok, raised, value_error, other_error, or_raise, ◌>>=◌}
use radiobeacon.Database.{Db, Item, AdapterRow, Value, is_item}
use radiobeacon.Database.Audit.{record_audit_event}
use radiobeacon.Database.Settings.{Environ, get_setting}
use radiobeacon.Cron.{text_or}
use radiobeacon.Registry.{get_source_fields, get_adapter_instance}

-- What `json.loads(config) or {}` says on the action's keys.
pub record AiConfig : Type 0 where
  pub ai_prompt : Option String
  pub ai_on_failure : Option String
  pub ai_fallback_to_title : Bool
  pub use_ai : Bool

-- The text that a provider returned, or that of the exception.
pub data Answer : Type 0 where
  answered failed : String → Answer

-- `format_map` raises ValueError or IndexError, both value_error, for a malformed template, and others
-- for a field that a text does not have. A provider is asked with its name, the prompt, the model, and its key or host.
pub record Outside : Type 0 where
  pub environ : Environ
  pub ai_config : String → Result AiConfig
  pub format_map : String → List (String × String) → Result String
  pub other_fields : Item → List (String × String)
  pub repr : Option String → String
  pub call : String → String → String → Option String → Answer

pub data Mode : Type 0 where
  continue_with_contents use_title abort : Mode

abbrev pub ai_prompt_default : String
ai_prompt_default =
    "Resume el siguiente aviso en español, en 2 a 3 oraciones como máximo, claras y completas — sin inventar información que no esté presente, y sin dejar ninguna oración a medias.\n\nTítulo: {extracted_title}\nTipo: {type} / {subtype}\nContenido: {extracted_contents}\nURL: {url}\n\nResumen:"

config_of : Outside → Option AdapterRow → Result (Option AiConfig)
config_of o none = ok none
config_of o (some a) = do c ← o.ai_config a.config; ok (some c)

mode_of : Option AiConfig → Mode
mode_of none = continue_with_contents
mode_of (some c) =
    let mode = or_blank c.ai_on_failure in
    if str_eq mode "continue_with_contents"
    then continue_with_contents
    else if str_eq mode "use_title"
    then use_title
    else if str_eq mode "abort"
    then abort
    else if c.ai_fallback_to_title
    then use_title
    else continue_with_contents

unfoldable pub resolve_ai_on_failure : Outside → String → Db → Result Mode
unfolding config_of mode_of
resolve_ai_on_failure o source db = do
  c ← config_of o (get_adapter_instance source db)
  ok (mode_of c)

uses_ai : Option AiConfig → Bool
uses_ai none = true
uses_ai (some c) = c.use_ai

unfoldable pub resolve_use_ai : Outside → String → Db → Result Bool
unfolding config_of uses_ai
resolve_use_ai o source db = do c ← config_of o (get_adapter_instance source db); ok (uses_ai c)

template_of : Option AiConfig → String → String
template_of none default = default
template_of (some c) default = if truthy c.ai_prompt then or_blank c.ai_prompt else default

unfoldable pub resolve_prompt_template : Outside → String → Db → Result String
unfolding config_of template_of
resolve_prompt_template o source db = do
  c ← config_of o (get_adapter_instance source db)
  ok (
      template_of c
        (text_or "" (get_setting o.environ true "ACTIONS_AI_PROMPT" (some ai_prompt_default) db)))

-- Only a malformed template falls back on the default.
rendered_or : Result String → Result String → Result String
rendered_or default (raised value_error) = default
rendered_or default r = r

unfoldable pub render_prompt : Outside → String → List (String × String) → Result String
unfolding rendered_or
render_prompt o template fields =
    rendered_or (o.format_map ai_prompt_default fields) (o.format_map template fields)

unfoldable pub store_summary : String → String → String → Db → Db × Bool
store_summary source item_id summary db = (
  record db {
    items = update (is_item source item_id) (λ i. record i { summary = some summary }) db.items;
  },
  exists (is_item source item_id) db.items,
)

-- The one payload of the event, with the diagnostic detail that it carries.
pub record Settled : Type 0 where
  pub source : String
  pub item_id : String
  pub summarized : Bool
  pub reason : Option String
  pub summary : Option String
  pub provider : Option String
  pub model : Option String
  pub prompt : Option String

abbrev unsummarised :
    String → String → String → Option String → Option String → Option String → Settled
unsummarised source item_id reason provider model prompt = record {
  source = source;
  item_id = item_id;
  summarized = false;
  reason = some reason;
  summary = none;
  provider = provider;
  model = model;
  prompt = prompt;
}

-- `title or contents`
abbrev title_or : String → String → String
title_or title contents = if str_eq title "" then contents else title

abbrev is_use_title : Mode → Bool
is_use_title use_title = true
is_use_title _ = false

-- What the item of an event is to go on with: its own text under a mode, or a provider's summary.
pub data Plan : Type 0 where
  fall_back : Mode → String → Bool → Option String → Option String → Plan
  summarise : String → String → String → Option String → Plan

fallback_body : Mode → Bool → Item → String
fallback_body mode title_ok i =
    if is_use_title mode && title_ok
    then title_or (or_blank i.extracted_title) (or_blank i.extracted_contents)
    else or_blank i.extracted_contents

-- `_handle_no_summary`
unfoldable pub handle_no_summary :
    ℕ
    → String
    → String
    → Item
    → Mode
    → String
    → Bool
    → Option String
    → Option String
    → Db
    → Db × List Settled
unfolding fallback_body
handle_no_summary now source item_id i abort reason title_ok provider model db = (
  record_audit_event now "item.ai_aborted" "actions.ai" (some source) (some item_id)
      (("reason", Value.text reason) ∷ []) db,
  [],
)
handle_no_summary now source item_id i mode reason title_ok provider model db = (
  (store_summary source item_id (fallback_body mode title_ok i) db).0,
  unsummarised source item_id reason provider model none ∷ [],
)
