-- ===== src/Handling.antt =====
-- actions/src/actions/__main__.py: how a message is handled by an action, which is a parameter, as is
-- the publishing client: what would be published is a list.
pub mod Once
use radiobeacon.Common.{
  ℕ, String, Bool, true, false, not, ◌&&◌, ◌||◌, Option, none, some, List, [], ◌∷◌, ◌++◌, truthy,
  str_eq, exists, length, if◌then◌else◌,
}
use radiobeacon.Common.Bytes.{concat}
use radiobeacon.Common.Result.{Result, ok, raised}
use radiobeacon.Database.{Db, Value, AuditRow}
use radiobeacon.Database.Audit.{record_audit_event, opt_text, has_text}

-- A CloudEvent with the source and the item of its data.
pub record Event : Type 0 where
  pub id : Option String
  pub type : Option String
  pub source : Option String
  pub item_id : Option String

abbrev pub Payload : Type 0
Payload = List (String × Value)

-- `action_class().run(event, conn=conn)`
abbrev pub Action : Type 0
Action = Event → Db → Db × Result (List Payload)

abbrev executed : String → String
executed name = concat "action." (concat name ".executed")

unfoldable pub already_processed : String → Option String → Db → Bool
already_processed name none db = false
already_processed name (some event_id) db =
    not (str_eq event_id "")
    && exists (λ a. str_eq a.event_type (executed name) && has_text "event_id" event_id a.details)
        db.audit_log

-- `output.get(key)` where it is there and not None.
detail : String → Payload → Payload
detail key [] = []
detail key ((k, Value.null) ∷ payload) =
    let rest = detail key payload in if str_eq k key then [] else rest
detail key ((k, v) ∷ payload) =
    let rest = detail key payload in if str_eq k key then (k, v) ∷ [] else rest

details_of : List Payload → Payload
unfolding detail
details_of [] = []
details_of (p ∷ []) =
    detail "reason" p ++ detail "provider" p ++ detail "model" p ++ detail "prompt" p
details_of (p ∷ q ∷ outputs) = []

-- Without a topic the outputs are dropped.
published : Option String → List Payload → List Payload
published topic outputs = if truthy topic then outputs else []

finish : ℕ → String → Event → Option String → Db × Result (List Payload) → Db × List Payload
unfolding details_of published
finish now name event topic (db, raised e) = (db, [])
finish now name event topic (db, ok outputs) = (
  record_audit_event now (executed name) (concat "actions." name) event.source event.item_id
      (("input_type", opt_text event.type)
        ∷ ("output_count", Value.num (length outputs))
        ∷ ("event_id", opt_text event.id)
        ∷ details_of outputs)
      db,
  published topic outputs,
)

-- The handler for one message: an exception is logged, and nothing is published.
unfoldable pub handle_message : ℕ → String → Action → Option String → Event → Db → Db × List Payload
unfolding finish
handle_message now name run output_topic event db =
    let handled = finish now name event output_topic (run event db) in
    if already_processed name event.id db then (db, []) else handled
