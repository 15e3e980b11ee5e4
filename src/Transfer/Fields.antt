-- ===== src/Transfer/Fields.antt =====
-- The records of a file as they are read, and what is told of each: `ImportItemResult` of
-- data-adapters/src/adapters/config_transfer.py.
use radiobeacon.Common.{String, Bool, Option, none, some, List, [], ℤ, if◌then◌else◌}
use radiobeacon.Common.Result.{Exception}
use radiobeacon.Database.{Kind}

pub data Section : Type 0 where
  settings policies sources adapter_instances : Section

pub data Action : Type 0 where
  created updated skipped : Action

pub data Reason : Type 0 where
  secret_key not_in_catalog not_an_int not_a_float not_a_choice : Reason
  not_an_object missing_key missing_name unknown_type custom_refused config_not_an_object : Reason
  exception : Exception → Reason

-- A warning names the policy that is not found.
pub record ImportItemResult : Type 0 where
  pub section : Section
  pub key : String
  pub action : Action
  pub warnings : List String
  pub reason : Option Reason

abbrev pub skip : Section → String → Reason → ImportItemResult
skip section key reason = record {
  section = section;
  key = key;
  action = skipped;
  warnings = [];
  reason = some reason;
}

abbrev pub done : Section → String → Bool → List String → ImportItemResult
done section key existing warnings = record {
  section = section;
  key = key;
  action = if existing then updated else created;
  warnings = warnings;
  reason = none;
}

-- Each record's `unfit` is what a value of a type that no write takes raises, where the write reads it:
-- `int` of a policy's numbers, or a parameter of sqlite3 that is a list or an object. The field that
-- holds such a value counts as some text or as absent.
pub record PolicyFields : Type 0 where
  pub name : Option String
  pub fetch_kind : Option Kind
  pub fetch_interval_seconds : Option ℤ
  pub fetch_cron : Option String
  pub process_mode : Option String
  pub transmit_kind : Option Kind
  pub transmit_count : Option ℤ
  pub transmit_interval_seconds : Option ℤ
  pub transmit_cron : Option String
  pub description : Option String
  pub unfit : Option Exception

-- An element of a section's list.
pub data Entry (A : Type 0) : Type 0 where
  no_object : Entry A
  entry : A → Entry A

pub record SourceFields : Type 0 where
  pub source : Option String
  pub display_name : Option String
  pub site_url : Option String
  pub unfit : Option Exception

-- A configuration is the text of its object, none where it is no object. Only the names that go to the
-- source can be unfit.
pub record AdapterFields : Type 0 where
  pub source : Option String
  pub adapter_type : Option String
  pub config : Option String
  pub enabled : Option Bool
  pub policy : Option String
  pub display_name : Option String
  pub site_url : Option String
  pub unfit : Option Exception
