-- ===== src/Summarising/Planning/Speaks.antt =====
-- No plan is to go on with an empty summary.
use radiobeacon.Common.{
  String, ◌≡◌, Bool, true, false, Option, none, some, str_eq, inl, inr, Bool-cases, if◌then◌else◌,
}
use radiobeacon.Common.Text.{strip, int}
use radiobeacon.Cron.{text_or}
use radiobeacon.Database.Settings.{get_setting}
use radiobeacon.Common.Result.{Result, ok, raised, ◌>>=◌, or_raise, value_error}
use radiobeacon.Database.{Db, Item}
use radiobeacon.Summarising.{
  Outside, Mode, continue_with_contents, use_title, abort, Plan, fall_back, summarise, Answer,
  answered, failed, resolve_ai_on_failure, resolve_use_ai, resolve_prompt_template, render_prompt,
}
use radiobeacon.Summarising.Planning.{
  plan_of, planned, skip_or_ask, skipped, ask, ask_with, answer_plan, failed_plan, blank_plan,
  prompt_fields, model_of,
}

-- A plan under which there is something to say.
abbrev pub Spoken : Plan → Type 0
Spoken (fall_back mode reason title_ok provider model) = Unit
Spoken (summarise text provider model prompt) = str_eq text "" ≡ false

abbrev pub Speaks : Result Plan → Type 0
Speaks (raised e) = Unit
Speaks (ok p) = Spoken p

bind-Speaks {ℓ} :
    {A : Type ℓ} (r : Result A) (f : A → Result Plan) → ((a : A) → Speaks (f a)) → Speaks (r >>= f)
bind-Speaks (raised e) f h = tt
bind-Speaks (ok a) f h = h a

answer-Speaks :
    (o : Outside) (source provider model prompt : String) (answer : Answer) (db : Db)
    → Speaks (answer_plan o source provider model prompt answer db)
unfolding answer_plan failed_plan blank_plan
answer-Speaks o source provider model prompt (failed text) db =
    bind-Speaks (resolve_ai_on_failure o source db) _ by_mode
  where
    by_mode : (mode : Mode) → Speaks (failed_plan provider model text mode)
    by_mode continue_with_contents = tt
    by_mode use_title = tt
    by_mode abort = tt
answer-Speaks o source provider model prompt (answered text) db =
    elim (Bool-cases (str_eq (strip text) "")) [
      | inl blank ↦ rw blank (bind-Speaks (resolve_ai_on_failure o source db) _ (λ mode. tt))
      | inr given ↦ rw given given
    ]

skip-Speaks :
    (o : Outside) (source : String) (adapter_ai_disabled title_ok : Bool) (provider : String)
    (i : Item) (db : Db) (reason : Option String)
    → Speaks (skip_or_ask o source adapter_ai_disabled title_ok provider i db reason)
unfolding skip_or_ask skipped ask ask_with
skip-Speaks o source adapter_ai_disabled title_ok provider i db (some reason) =
    bind-Speaks
      (if adapter_ai_disabled then ok continue_with_contents else resolve_ai_on_failure o source db)
      _ (λ mode. tt)
skip-Speaks o source adapter_ai_disabled title_ok provider i db none =
    bind-Speaks (resolve_prompt_template o source db) _ (λ template.
      bind-Speaks (render_prompt o template (prompt_fields o source i db)) _
        (λ prompt. answer-Speaks o source provider (model_of o provider db) prompt _ db))

pub plan-Speaks :
    (o : Outside) (source : String) (i : Item) (db : Db) → Speaks (plan_of o source i db)
unfolding plan_of planned
plan-Speaks o source i db =
    bind-Speaks
      (or_raise value_error
        (int (text_or "" (get_setting o.environ true "ACTIONS_AI_MAX_CHARS" (some "200") db))))
      _
      (λ max_chars.
        bind-Speaks (resolve_use_ai o source db) _ (λ use_ai. skip-Speaks o source _ _ _ i db _))
