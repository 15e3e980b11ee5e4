-- ===== src/Handling/Once.antt =====
-- A message that was handled is not handled again.
use radiobeacon.Common.Exists.{exists-last}
use radiobeacon.Common.{
  ◌&&◌, length, ◌∙◌, ℕ, String, ◌≡◌, refl, sym, subst, arith, Bool, true, false, Option, some, List,
  [], ◌∷◌, str_eq, eq_iff, inl, inr, Bool-cases,
}
use radiobeacon.Common.Result.{ok}
use radiobeacon.Database.{Db, Value}
use radiobeacon.Database.Audit.{has_text, opt_text}
use radiobeacon.Handling.{
  Event, Payload, Action, executed, already_processed, details_of, finish, handle_message,
}

has_text-skip :
    (key v k : String) (w : Value) (details : Payload)
    → str_eq k key ≡ false
    → has_text key v ((k, w) ∷ details) ≡ has_text key v details
unfolding has_text
has_text-skip key v k Value.null details h = refl
has_text-skip key v k (Value.text s) details h = rw h refl
has_text-skip key v k (Value.num n) details h = refl
has_text-skip key v k (Value.int i) details h = refl
has_text-skip key v k (Value.flag b) details h = refl
has_text-skip key v k (Value.counts a b c d) details h = refl

finish-processed :
    (now : ℕ) (name event_id : String) (event : Event) (topic : Option String) (db : Db)
    (outputs : List Payload)
    → event.id ≡ some event_id
    → str_eq event_id "" ≡ false
    → already_processed name (some event_id) (finish now name event topic (db, ok outputs)).0 ≡ true
unfolding already_processed finish has_text
finish-processed now name event_id event topic db outputs e given = rw given (
    exists-last _ db.audit_log _ (both _ _ ((eq_iff (executed name) (executed name)).1 refl) named))
  where
    both : (a b : Bool) → a ≡ true → b ≡ true → (a && b) ≡ true
    both a b x y = ground (arith, x, y)

    named :
        has_text "event_id" event_id (
          ("input_type", opt_text event.type)
          ∷ ("output_count", Value.num (length outputs))
          ∷ ("event_id", opt_text event.id)
          ∷ details_of outputs)
        ≡ true
    named =
        has_text-skip "event_id" event_id "input_type" (opt_text event.type) _ refl
        ∙ rw e (ground (arith, eq_iff event_id event_id))

-- When an event with an id was handled and the action returned, a second delivery of it, at any time,
-- changes nothing and publishes nothing, whatever the action does.
pub handle_message-twice :
    (now later : ℕ) (name event_id : String) (run : Action) (topic : Option String) (event : Event)
    (db db' : Db) (outputs : List Payload)
    → event.id ≡ some event_id
    → str_eq event_id "" ≡ false
    → run event db ≡ (db', ok outputs)
    → let done = (handle_message now name run topic event db).0 in
      handle_message later name run topic event done ≡ (done, [])
unfolding handle_message
handle_message-twice now later name event_id run topic event db db' outputs e given returned =
    elim (Bool-cases (already_processed name event.id db)) [
      | inl seen ↦ rw seen (rw seen refl)
      | inr fresh ↦ rw (fresh, returned) (rw (skipped) refl)
    ]
  where
    skipped :
        already_processed name event.id (finish now name event topic (db', ok outputs)).0 ≡ true
    skipped =
        subst
          (λ id. already_processed name id (finish now name event topic (db', ok outputs)).0 ≡ true)
          (sym e) (finish-processed now name event_id event topic db' outputs e given)
