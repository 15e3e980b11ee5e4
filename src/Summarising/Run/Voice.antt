-- ===== src/Summarising/Run/Voice.antt =====
-- What the beacon has to say of an item that the action has settled.
use radiobeacon.Common.{
  or_blank, ℕ, String, ◌≡◌, ◌≢◌, refl, ap, sym, subst, ◌∙◌, arith, Bool, true, false, ◌&&◌, Option,
  none, some, List, [], ◌∷◌, truthy, str_eq, find_row, update, inl, inr, Bool-cases, if◌then◌else◌,
}
use radiobeacon.Common.Result.{Result, ok, raised}
use radiobeacon.Database.{Db, Item, is_item}
use radiobeacon.Beacon.Content.{resolve_voice_text}
use radiobeacon.Summarising.{
  Outside, Mode, continue_with_contents, use_title, abort, Plan, fall_back, summarise,
  fallback_body, handle_no_summary, store_summary, Settled, title_or, is_use_title,
}
use radiobeacon.Summarising.Planning.{plan_of}
use radiobeacon.Summarising.Planning.Speaks.{Spoken, Speaks, plan-Speaks}
use radiobeacon.Summarising.Run.{act, carried_out, summarise_item, run_ai}

summed : String → Item → Option Item
summed t i = some (record i { summary = some t })

chosen :
    (b : Bool) (j i : Item) (rest : Option Item)
    → b ≡ true
    → (if b then some j else rest) ≡ some i
    → j ≡ i
chosen true j i rest e h = cc
chosen false j i rest e h = absurd (ground arith)

passed :
    (b : Bool) (j i : Item) (rest : Option Item)
    → b ≡ false
    → (if b then some j else rest) ≡ some i
    → rest ≡ some i
passed true j i rest e h = absurd (ground arith)
passed false j i rest e h = h

find_row-summary :
    (source item_id t : String) (items : List Item) (i : Item)
    → find_row (is_item source item_id) items ≡ some i
    → find_row
        (is_item source item_id)
        (update (is_item source item_id) (λ j. record j { summary = some t }) items)
      ≡ some (record i { summary = some t })
unfolding summed
find_row-summary source item_id t [] i h = cc
find_row-summary source item_id t (j ∷ items) i h = elim (Bool-cases (is_item source item_id j)) [
  | inl hit ↦ rw hit (rw hit (ap (summed t) (chosen (is_item source item_id j) j i _ hit h)))
  | inr miss ↦ rw miss (
      rw miss (
        find_row-summary source item_id t items i (passed (is_item source item_id j) j i _ miss h)))
]

-- What is stored is what is read.
voice-stored :
    (source item_id t : String) (db : Db) (i : Item)
    → find_row (is_item source item_id) db.items ≡ some i
    → resolve_voice_text source item_id (store_summary source item_id t db).0 ≡ some t
unfolding resolve_voice_text store_summary
voice-stored source item_id t db i h = rw (find_row-summary source item_id t db.items i h) refl

body-given :
    (mode : Mode) (title_ok : Bool) (i : Item)
    → truthy i.extracted_contents ≡ true
    → str_eq (fallback_body mode title_ok i) "" ≡ false
unfolding fallback_body
body-given mode title_ok i h =
    pick (is_use_title mode && title_ok)
      (title_or (or_blank i.extracted_title) (or_blank i.extracted_contents))
      (or_blank i.extracted_contents)
      (title_given (or_blank i.extracted_title) (or_blank i.extracted_contents) contents) contents
  where
    given_text : (o : Option String) → truthy o ≡ true → str_eq (or_blank o) "" ≡ false
    given_text none e = absurd (ground arith)
    given_text (some t) e = ground arith

    contents : str_eq (or_blank i.extracted_contents) "" ≡ false
    contents = given_text i.extracted_contents h

    pick :
        (b : Bool) (x y : String)
        → str_eq x "" ≡ false
        → str_eq y "" ≡ false
        → str_eq (if b then x else y) "" ≡ false
    pick true x y e f = e
    pick false x y e f = f

    title_given : (title c : String) → str_eq c "" ≡ false → str_eq (title_or title c) "" ≡ false
    title_given title c e = elim (Bool-cases (str_eq title "")) [
      | inl blank ↦ rw blank e
      | inr given ↦ rw given given
    ]

act-voice :
    (now : ℕ) (source item_id : String) (i : Item) (p : Plan) (db : Db)
    → find_row (is_item source item_id) db.items ≡ some i
    → truthy i.extracted_contents ≡ true
    → Spoken p
    → (act now source item_id i p db).1 ≢ []
    → truthy (resolve_voice_text source item_id (act now source item_id i p db).0) ≡ true
unfolding act handle_no_summary
act-voice now source item_id i (fall_back abort reason title_ok provider model) db found given
      ok_plan some_output =
    absurd (some_output refl)
act-voice now source item_id i (fall_back continue_with_contents reason title_ok provider model) db
      found given ok_plan some_output =
    rw
      (
        voice-stored source item_id (fallback_body continue_with_contents title_ok i) db i found,
        body-given continue_with_contents title_ok i given,
      )
      refl
act-voice now source item_id i (fall_back use_title reason title_ok provider model) db found given
      ok_plan some_output =
    rw
      (
        voice-stored source item_id (fallback_body use_title title_ok i) db i found,
        body-given use_title title_ok i given,
      )
      refl
act-voice now source item_id i (summarise text provider model prompt) db found given ok_plan
      some_output =
    rw (voice-stored source item_id text db i found, ok_plan) refl

-- Once the action has returned for an item that has contents, and was not told to abort, the beacon
-- has something to say of the item: `resolve_voice_text` gives a text that is not empty, whether a
-- provider was asked or not, failed or not.
pub run_ai-voice :
    (o : Outside) (now : ℕ) (source item_id : String) (i : Item) (db db' : Db)
    (outputs : List Settled)
    → str_eq source "" ≡ false
    → str_eq item_id "" ≡ false
    → find_row (is_item source item_id) db.items ≡ some i
    → truthy i.extracted_contents ≡ true
    → run_ai o now (some source) (some item_id) db ≡ (db', ok outputs)
    → outputs ≢ []
    → truthy (resolve_voice_text source item_id db') ≡ true
unfolding run_ai summarise_item carried_out
run_ai-voice o now source item_id i db db' outputs e e' found given returned some_output =
    done (plan_of o source i db) (plan-Speaks o source i db) (sym computed ∙ returned) some_output
  where
    computed :
        run_ai o now (some source) (some item_id) db
        ≡ carried_out now source item_id i db (plan_of o source i db)
    computed = rw (e, e', found, given) refl

    parts :
        {a : Db} {b : List Settled}
        → Path (Db × Result (List Settled)) (a, ok b) (db', ok outputs)
        → (a ≡ db') × (b ≡ outputs)
    parts h = (cc, cc)

    done :
        (plan : Result Plan)
        → Speaks plan
        → carried_out now source item_id i db plan ≡ (db', ok outputs)
        → outputs ≢ []
        → truthy (resolve_voice_text source item_id db') ≡ true
    done (raised e) speaks h out = absurd (ground arith)
    done (ok plan) speaks h out =
        let (same, named) = parts h in
        subst (λ d. truthy (resolve_voice_text source item_id d) ≡ true) same
          (act-voice now source item_id i plan db found given speaks
            (λ none_out. out (sym named ∙ none_out)))
