-- ===== src/Transfer/Import/Sections.antt =====
-- Each section of a file: what a dry run does of it, and which tables it leaves alone.
use radiobeacon.Common.{
  ℕ, String, ◌≡◌, refl, ap, ◌∙◌, Bool, true, false, List, [], ◌∷◌, All, exists,
}
use radiobeacon.Json.{Json}
use radiobeacon.Database.{Db}
use radiobeacon.Cron.{World}
use radiobeacon.Policy.{named}
use radiobeacon.Registry.{is_source, is_adapter}
use radiobeacon.Transfer.Fields.{ImportItemResult, PolicyFields, SourceFields, AdapterFields, Entry}
use radiobeacon.Transfer.Records.{
  Outside, import_policy, import_source, import_one_adapter_instance,
}
use radiobeacon.Transfer.Records.Steps.{
  import_setting-true, import_setting-agree, import_policy-true, IsPolicy, import_policy-agree,
  IsSource, IsInstance, import_source-true, import_source-agree, import_adapter-true,
  import_adapter-agree,
}
use radiobeacon.Transfer.Records.Written.{
  tables, import_setting-tables, after_policies, import_policy-after, after_sources,
  import_source-after,
}
use radiobeacon.Transfer.Import.{
  import_each, import_settings, import_policies, import_sources, import_adapter_instances,
}

pub import_each-keeps :
    {E B : Type 0} (π : Db → B) (step : E → Db → Db × ImportItemResult) (es : List E)
    → ((e : E) (db : Db) → π (step e db).0 ≡ π db)
    → (db : Db) → π (import_each step es db).0 ≡ π db
unfolding import_each
import_each-keeps π step [] h db = refl
import_each-keeps π step (e ∷ es) h db = import_each-keeps π step es h (step e db).0 ∙ h e db

import_each-agree :
    {E : Type 0} (P : E → Type 0) (f g : E → Db → Db × ImportItemResult) (es : List E)
    → ((e : E) → P e → (a b : Db) → (f e a).1 ≡ (g e b).1)
    → All P es
    → (a b : Db) → (import_each f es a).1 ≡ (import_each g es b).1
unfolding import_each
import_each-agree P f g [] same h a b = refl
import_each-agree P f g (e ∷ es) same h a b =
    rw (same e h.0 a b, import_each-agree P f g es same h.1 (f e a).0 (g e b).0) refl

-- Two runs of a section that classify by the same table.
import_each-same :
    {E : Type 0} (P : E → Type 0) (step : Bool → (String → Bool) → E → Db → Db × ImportItemResult)
    (es : List E) (x y : String → Bool)
    → x ≡ y
    → ((e : E) → P e → (a b : Db) → (step true y e a).1 ≡ (step false y e b).1)
    → All P es
    → (a b : Db) → (import_each (step true x) es a).1 ≡ (import_each (step false y) es b).1
import_each-same P step es x y e same h a b =
    rw e (import_each-agree P (step true y) (step false y) es same h a b)

abbrev Any : {E : Type 0} → E → Type 0
Any e = Unit

All-Any : {E : Type 0} → (es : List E) → All Any es
All-Any [] = tt
All-Any (e ∷ es) = (tt, All-Any es)

-- A dry run of each section.
pub settings-true :
    (o : Outside) (now : ℕ) (actor : String) (es : List (String × Json)) (db : Db)
    → (import_settings o now actor true es db).0 ≡ db
unfolding import_settings
settings-true o now actor es db =
    import_each-keeps (λ d. d) _ es (import_setting-true o now actor _) db

pub policies-true :
    (w : World) (now : ℕ) (es : List (Entry PolicyFields)) (db : Db)
    → (import_policies w now true es db).0 ≡ db
unfolding import_policies
policies-true w now es db = import_each-keeps (λ d. d) _ es (import_policy-true w now _) db

pub sources-true :
    (now : ℕ) (es : List (Entry SourceFields)) (db : Db) → (import_sources now true es db).0 ≡ db
unfolding import_sources
sources-true now es db = import_each-keeps (λ d. d) _ es (import_source-true now _) db

pub adapters-true :
    (now : ℕ) (allow : Bool) (known : List String) (es : List (Entry AdapterFields)) (db : Db)
    → (import_adapter_instances now allow true known es db).0 ≡ db
unfolding import_adapter_instances
adapters-true now allow known es db =
    import_each-keeps (λ d. d) _ es (import_adapter-true now allow _ known) db

-- The sections that run before leave alone what a section classifies by.
pub settings-tables :
    (o : Outside) (now : ℕ) (actor : String) (dry : Bool) (es : List (String × Json)) (db : Db)
    → tables (import_settings o now actor dry es db).0 ≡ tables db
unfolding import_settings
settings-tables o now actor dry es db =
    import_each-keeps tables _ es (import_setting-tables o now actor dry _) db

pub policies-after :
    (w : World) (now : ℕ) (dry : Bool) (es : List (Entry PolicyFields)) (db : Db)
    → after_policies (import_policies w now dry es db).0 ≡ after_policies db
unfolding import_policies
policies-after w now dry es db =
    import_each-keeps after_policies _ es (import_policy-after w now dry _) db

pub sources-after :
    (now : ℕ) (dry : Bool) (es : List (Entry SourceFields)) (db : Db)
    → after_sources (import_sources now dry es db).0 ≡ after_sources db
unfolding import_sources
sources-after now dry es db =
    import_each-keeps after_sources _ es (import_source-after now dry _) db

-- The results of each section, where it starts with the same table.
pub settings-agree :
    (o : Outside) (now : ℕ) (actor : String) (es : List (String × Json)) (db : Db)
    → (import_settings o now actor true es db).1 ≡ (import_settings o now actor false es db).1
unfolding import_settings
settings-agree o now actor es db =
    import_each-agree Any _ _ es (λ e _. import_setting-agree o now actor _ e) (All-Any es) db db

pub policies-agree :
    (w : World) (now : ℕ) (es : List (Entry PolicyFields)) (a b : Db)
    → All (IsPolicy w) es
    → a.policies ≡ b.policies
    → (import_policies w now true es a).1 ≡ (import_policies w now false es b).1
unfolding import_policies
policies-agree w now es a b h same =
    import_each-same (IsPolicy w) (import_policy w now) es _ _
      (ap (λ rows name. exists (named name) rows) same) (import_policy-agree w now _) h a b

pub sources-agree :
    (now : ℕ) (es : List (Entry SourceFields)) (a b : Db)
    → All IsSource es
    → a.sources ≡ b.sources
    → (import_sources now true es a).1 ≡ (import_sources now false es b).1
unfolding import_sources
sources-agree now es a b fit same =
    import_each-same IsSource (import_source now) es _ _
      (ap (λ rows source. exists (is_source source) rows) same) (import_source-agree now _) fit a b

pub adapters-agree :
    (now : ℕ) (allow : Bool) (k j : List String) (es : List (Entry AdapterFields)) (a b : Db)
    → All IsInstance es
    → k ≡ j
    → a.adapter_instances ≡ b.adapter_instances
    → (import_adapter_instances now allow true k es a).1
      ≡ (import_adapter_instances now allow false j es b).1
unfolding import_adapter_instances
adapters-agree now allow k j es a b fit known same = rw known (
    import_each-same IsInstance
      (λ dry existing. import_one_adapter_instance now allow dry existing j) es _ _
      (ap (λ rows source. exists (is_adapter source) rows) same)
      (import_adapter-agree now allow _ j) fit a b)
