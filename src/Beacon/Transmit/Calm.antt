-- ===== src/Beacon/Transmit/Calm.antt =====
-- A transmission touches the audit log and the status table, and nothing else.
use radiobeacon.Common.{
  or_blank, str_eq, Bool-cases, inl, inr, [], ◌∷◌, ◌==◌, ◌&&◌, ℕ, String, ◌≡◌, refl, arith, ap, sym,
  ◌∙◌, Bool, true, false, not, Option, none, some, List, truthy, if◌then◌else◌,
}
use radiobeacon.Common.Result.{Exception, Result, ok}
use radiobeacon.Database.{Db, TxRow, PolicyRow, SettingRow}
use radiobeacon.Registry.{get_adapter_instance}
use radiobeacon.Database.Status.{set_beacon_status}
use radiobeacon.Dispatcher.Discover.{aware}
use radiobeacon.Frames.{Formatter, Wrap, FormattedVoice, format_voice}
use radiobeacon.Beacon.Content.{resolve_voice_text, source_date_text}
use radiobeacon.Beacon.Drain.{Transmit}
use radiobeacon.Beacon.Drain.Same.{content}
use radiobeacon.Beacon.Drain.Fate.{IsCalm}
use radiobeacon.Beacon.Transmit.{
  expanded, resolve_voice_replacements, apply_voice_replacements, has_empty_key, voice_said, Studio,
  Context, Sent, sent, not_sent, shown, date_text, format_source_date_time, voice_sent, spoken,
  voiced, voice_dated, transmit_voice_unit, error_of, transmitter,
}

-- What stays as it was.
record Kept (db : Db) (out : Db × Result Bool) : Type 0 where
  schedule : out.0.beacon_tx_schedule ≡ db.beacon_tx_schedule
  policies : out.0.policies ≡ db.policies
  tables : content out.0 ≡ content db
  silent : error_of out.1 ≡ none

-- Every date of the items is one, has a time zone, and can be shown under the settings.
pub record IsDated (s : Studio) (db : Db) : Type 0 where
  pub parsed :
      (source item_id text : String)
      → source_date_text source item_id db ≡ some text
      → (n : ℕ) × (s.parse text ≡ aware n)
  pub shown_as :
      (format : String) (n : ℕ) (d : Db)
      → d.settings ≡ db.settings
      → (t : String) × (s.local_text format n d ≡ ok t)

-- No replacement of an adapter has an empty key, and each can be put in.
pub record IsSpeakable (s : Studio) (db : Db) : Type 0 where
  pub keyed : (source : String) → has_empty_key (resolve_voice_replacements s source db) ≡ false
  pub expands :
      (source text : String)
      → (t : Option String) × (s.expand (resolve_voice_replacements s source db) text ≡ ok t)

IsDated-same : (s : Studio) (a b : Db) → content a ≡ content b → IsDated s b → IsDated s a
unfolding source_date_text
IsDated-same s a b same dates = record {
  parsed = λ source item_id text e. dates.parsed source item_id text (rw (ap (λ c. c.0) same) at e);
  shown_as = λ format n d e. dates.shown_as format n d (e ∙ ap (λ c. c.2) same);
}

IsSpeakable-same :
    (s : Studio) (a b : Db) → content a ≡ content b → IsSpeakable s b → IsSpeakable s a
unfolding resolve_voice_replacements get_adapter_instance
IsSpeakable-same s a b same says = record {
  keyed = λ source. rw (ap (λ c. c.1) same) (says.keyed source);
  expands = λ source text. rw (ap (λ c. c.1) same) (says.expands source text);
}

choice {ℓ κ} :
    {A : Type ℓ} (P : A → Type κ) (b : Bool) (x y : A) → P x → P y → P (if b then x else y)
choice P true x y h k = h
choice P false x y h k = k

not_both : (a b : Bool) → b ≡ false → (a && b) ≡ false
not_both a b h = ground arith

voice-returns :
    (vformat : Formatter) (wrap : Wrap) (callsign template : String) (max_chars : ℕ)
    (prefix suffix : String) (fields : List (String × String)) (text : String)
    → (max_chars == 0) ≡ false
    → (f : FormattedVoice) × (format_voice vformat wrap callsign template max_chars prefix suffix
          fields text
        ≡ ok f)
unfolding format_voice
voice-returns vformat wrap callsign template max_chars prefix suffix fields text h =
    rw (not_both _ _ h) (_, refl)

module _ (s : Studio) (now : ℕ) (r : TxRow) where
  voice_sent-Kept :
      (f : FormattedVoice) (answer : Sent) (db : Db) → Kept db (voice_sent s now r f answer db)
  unfolding voice_sent set_beacon_status error_of
  voice_sent-Kept f sent db = record {
    schedule = refl;
    policies = refl;
    tables = refl;
    silent = refl;
  }
  voice_sent-Kept f (not_sent e) db = record {
    schedule = refl;
    policies = refl;
    tables = refl;
    silent = refl;
  }

  spoken-Kept : (f : FormattedVoice) (db : Db) → Kept db (spoken s now r f db)
  unfolding spoken error_of
  spoken-Kept f db =
      choice (Kept db) (s.speak f.text) _ _ (voice_sent-Kept f (s.send f.text) db)
        (record { schedule = refl; policies = refl; tables = refl; silent = refl })

  voiced-Kept :
      (v : Result FormattedVoice)
      → (f : FormattedVoice) × (v ≡ ok f)
      → (db : Db) → Kept db (voiced s now r v db)
  unfolding voiced
  voiced-Kept v (f, e) db = rw e (spoken-Kept f db)

  date-returns :
      (db : Db) (dates : IsDated s db) (format source item_id : String) (o : Option String)
      → source_date_text source item_id db ≡ o
      → (t : String) × (date_text s format db o ≡ ok t)
  unfolding date_text shown
  date-returns db dates format source item_id none e = ("", refl)
  date-returns db dates format source item_id (some text) e =
      let (n, is) = dates.parsed source item_id text e in rw is (dates.shown_as format n db refl)

  applied :
      (text : String) (rs : List (String × String))
      → has_empty_key rs ≡ false
      → ((t : Option String) × (s.expand rs text ≡ ok t))
      → (t : String) × (apply_voice_replacements s text rs ≡ ok t)
  unfolding apply_voice_replacements
  applied text [] h e = (text, refl)
  applied text (r ∷ rs) h (t, e) = elim (Bool-cases (str_eq text "")) [
    | inl blank ↦ (text, rw blank refl)
    | inr given ↦ (expanded t text, rw (given, h, e) refl)
  ]

  said-returns :
      (db : Db) (says : IsSpeakable s db) (text source : String)
      → (t : String) × (apply_voice_replacements s text (resolve_voice_replacements s source db)
          ≡ ok t)
  said-returns db says text source = applied text _ (says.keyed source) (says.expands source text)

  voice-Kept :
      (db : Db) (dates : IsDated s db) (says : IsSpeakable s db) (ctx : Context)
      → (ctx.voice_max_chars == 0) ≡ false
      → Kept db (transmit_voice_unit s ctx now r db)
  unfolding transmit_voice_unit voice_said voice_dated format_source_date_time error_of
  voice-Kept db dates says ctx cap =
      let (t, e) = date-returns db dates ctx.date_format r.source r.item_id _ refl in
      let (u, d) =
        said-returns db says (or_blank (resolve_voice_text r.source r.item_id db)) r.source in
      choice (Kept db) (not (truthy ctx.callsign)) _ _
        (record { schedule = refl; policies = refl; tables = refl; silent = refl })
        (choice (Kept db) (not (truthy (resolve_voice_text r.source r.item_id db))) _ _
          (record { schedule = refl; policies = refl; tables = refl; silent = refl })
          (rw (d, e) (voiced-Kept _ (voice-returns _ _ _ _ _ _ _ _ _ cap) db)))

-- A transmission from which what it should leave alone is taken back.
pub calmed : Transmit → Transmit
calmed transmit r db = (
  record (transmit r db).0 {
    beacon_tx_schedule = db.beacon_tx_schedule;
    policies = db.policies;
    settings = db.settings;
  },
  none,
)

restored :
    (out : Db) (rows : List TxRow) (policies : List PolicyRow) (settings : List SettingRow)
    (e : Option Exception)
    → out.beacon_tx_schedule ≡ rows
    → out.policies ≡ policies
    → out.settings ≡ settings
    → e ≡ none
    → Path
        (Db × Option Exception)
        (out, e)
        (record out { beacon_tx_schedule = rows; policies = policies; settings = settings }, none)
restored out rows policies settings e a b c silent = rw (silent, sym a, sym b, sym c) refl

pub calmed-IsCalm : (transmit : Transmit) → IsCalm (calmed transmit)
unfolding calmed
calmed-IsCalm transmit = record {
  silent = λ r db. refl;
  schedule = λ r db. refl;
  config = λ r db. record { policies = refl; settings = refl };
}

module _ (s : Studio) (ctx : Context) (now : ℕ) (cap : (ctx.voice_max_chars == 0) ≡ false)
    (start : Db) (dates : IsDated s start) (says : IsSpeakable s start) where
  voice_at :
      (r : TxRow) (db : Db)
      → content db ≡ content start
      → Kept db (transmit_voice_unit s ctx now r db)
  voice_at r db at =
      voice-Kept s now r db (IsDated-same s db start at dates) (IsSpeakable-same s db start at says)
        ctx cap

  -- There is nothing to take back of a voice unit.
  pub transmitter-same :
      (r : TxRow) (db : Db)
      → content db ≡ content start
      → transmitter (transmit_voice_unit s ctx now) r db
        ≡ calmed (transmitter (transmit_voice_unit s ctx now)) r db
  unfolding transmitter calmed
  transmitter-same r db at =
      let kept = voice_at r db at in
      restored _ _ _ _ _ kept.schedule kept.policies (ap (λ c. c.2) kept.tables) kept.silent

  pub transmitter-content :
      (r : TxRow) (db : Db)
      → content db ≡ content start
      → content (transmitter (transmit_voice_unit s ctx now) r db).0 ≡ content db
  unfolding transmitter
  transmitter-content r db at = (voice_at r db at).tables
