-- ===== src/Lib.antt =====
-- The scheduling core of Radio Beacon: what is put on air, how often and when.
--
-- Adapters fetch items into one SQLite database, the dispatcher delivers each new item once to the
-- actions, an action publishes that an item's content is ready, and the beacon schedules the item's
-- units and transmits them under the item's policy. The packages share nothing but the database and
-- the messages, so the model is a record of tables (Database: one list of rows for each table, in
-- rowid order) and each operation a function from a database to a database.
--
--   Common          lists as tables, integers, texts, exceptions as values
--   Database        the tables; Database.Audit and Database.Settings: record_audit_event, get_setting,
--                   get_settings, set_setting, delete_setting of data-adapters/src/adapters/storage.py
--   Schedule        the table beacon_tx_schedule and its operations, in the same file
--   Cron            data-adapters/src/adapters/cron.py
--   Policy          data-adapters/src/adapters/policy.py; Policy.Edits is what writes the table
--   Beacon          beacon/src/beacon/__main__.py: Beacon.Due is _transmit_due, Beacon.Drain is
--                   _drain_kind and _purge_stale_rows, Beacon.Enqueue is _handle_content_ready_event
--                   and what it calls, Beacon.Reconcile is _reconcile_missed_content_ready and
--                   storage.py's schedule_retransmit; Beacon.Content is content.py, and
--                   Beacon.Transmit is _transmit_voice_unit and _transmit_frame_unit; Beacon.Monitor is
--                   tx_monitor.py
--   Dispatcher      dispatcher/src/dispatcher: Dispatcher.Discover, Dispatcher.Sync and
--                   Dispatcher.Deliver are the three steps of watcher.py's poll, Dispatcher.Override is
--                   override.py
--   Manual          an operator's messages: storage.py's *_manual_tx and the beacon's _drain_manual_tx
--   Readiness       actions/src/actions/content_ready.py
--   Accounts        data-adapters/src/adapters/auth.py: Accounts.Password (hash_password and
--                   verify_password), Accounts.Users, Accounts.Sessions; Accounts.Calls runs them in
--                   sequence
--   Registry        storage.py's tables `sources` and `adapter_instances`
--   Readings        store_reading of storage.py: what an adapter fetched becomes items
--   Fetching        data-adapters/src/adapters/__main__.py: when an adapter's loop fetches
--   Frames          the text of a frame and of a voice unit: ax25.py and safe_format of
--                   data-adapters/src/adapters, and beacon/src/beacon/formatters.py
--   Handling        actions/src/actions/__main__.py: one message of an action
--   Summarising     actions/src/actions/ai.py: Summarising.Planning is what the action decides for an
--                   item, Summarising.Run what it does
--   Chunking        actions/src/actions/chunk.py, and store_chunks of storage.py
--   Json            the values that json.loads returns
--   Mapping         data-adapters/src/adapters/api_adapter.py: Mapping.Paths is the paths into a response
--                   and resolve_dotted_path of templating.py beside it, Mapping.Template is
--                   FieldMapping.resolve with the formatter of templating.py, and Mapping.Fetch is
--                   ApiAdapter.fetch
--   Transfer        data-adapters/src/adapters/config_transfer.py: Transfer.Catalog is
--                   settings_registry.py, Transfer.Fields what a file holds, Transfer.Records the
--                   import of one record, Transfer.Import that of a whole file or an adapter's, and
--                   Transfer.Export the export of an adapter (and in Transfer.Export.Whole of
--                   everything); a value of another type than its field's is known by what it raises
--                   where it is written
--   Development     ui/src/ui/dev_ops.py: a developer's writes to `items`
--   Tests           the theorems at work on small databases
--
-- Instants are natural numbers of microseconds; datetime('now') columns hold whole seconds and are
-- passed in as arguments. A call that may raise returns a Result, beside the database where what was
-- committed before the exception stays. Loops are by recursion on the rows that the source reads
-- before its loop, so no fuel is needed, except for str(n) (Common.Text.decimal), whose fuel n + 1 is
-- at least the number of digits.
--
-- Parameters stand for what is not the repository's code: croniter (Cron.Croniter, with its
-- documented behaviour as the hypothesis Cron.Documented) and ZoneInfo (Cron.World), which raise
-- for an expression without an occurrence and for a name of no time zone, so that a pass of the
-- beacon may raise before any transmission; the theorems on what a pass makes of a row ask that
-- each policy's cron can be evaluated (Beacon.Drain.Fate.Reads). They stand for
-- datetime.fromisoformat (Dispatcher.Discover.Parse), the process environment, hashlib's scrypt
-- (Accounts.Password.Scrypt, with its documented behaviour as the hypothesis
-- Accounts.Password.RoundTrip.Documented) and sha256 (Accounts.Sessions.Digest), the random salts
-- and tokens, json.dumps of a fetched item (Readings.Dumps), an adapter's construction
-- (Fetching.Build), the clocks, the dispatcher's handlers, str.format (Frames.Formatter),
-- textwrap.wrap (Frames.Wrap), the providers and json.loads of the AI action
-- (Summarising.Outside), speech synthesis, modulation, the hand-over of a clip, a date in the
-- display time zone and the match of a voice replacement (Beacon.Transmit.Studio), strftime and
-- the decoding of escapes in a chunk's text (Chunking.Outside), the files of SvxLink's log
-- (Beacon.Monitor.Files), string.Formatter's parse, format, strptime, fromisoformat, uuid5 and
-- json.dumps for a mapped item (Mapping.Template.Outside), the response to a request, which
-- Mapping.Fetch.fetch takes as a value or the exception that was raised, str of a number, float of
-- a text and the time zones for an imported setting (Transfer.Records.Outside), and json.loads of
-- a configuration (Transfer.Export.Loads). The loop takes one unit's transmission as an argument
-- (Beacon.Drain.Transmit), of which its theorems ask that it raises nothing and leaves the
-- schedule, the policies and the settings alone; Beacon.Transmit.Calm shows it of the voice
-- transmitter, on tables whose dates can be shown and whose replacements can be put in. A pass
-- writes datetime('now') as the second in which it began. The interval setting that policy.py
-- reads over a connection of its own is read from the same database.
--
-- Not modelled: the audio of a transmission, the watermark and manual transmitters, MQTT clients and
-- publishing, the HTTP requests of adapters and their guard, the preview of a response, the custom and
-- AI-prompted adapters, the dashboard, process supervision, schema migrations, and waits between
-- transmissions.
pub mod Common
pub mod Database
pub mod Schedule
pub mod Cron
pub mod Policy
pub mod Beacon
pub mod Dispatcher
pub mod Manual
pub mod Readiness
pub mod Accounts
pub mod Registry
pub mod Readings
pub mod Fetching
pub mod Frames
pub mod Chunking
pub mod Handling
pub mod Summarising
pub mod Development
pub mod Json
pub mod Mapping
pub mod Transfer
pub mod Tests
