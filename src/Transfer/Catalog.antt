-- ===== src/Transfer/Catalog.antt =====
-- data-adapters/src/adapters/settings_registry.py: the settings that a file can set. The time zones of
-- the standard library are a parameter.
use radiobeacon.Common.{String, Option, none, some, List, [], ◌∷◌, str_eq, if◌then◌else◌}

pub data Spec : Type 0 where
  text_setting int_setting float_setting bool_setting : Spec
  select_setting : List String → Spec

abbrev pub secret_setting_keys : List String
secret_setting_keys = "ANTHROPIC_API_KEY" ∷ "OPENAI_API_KEY" ∷ []

unfoldable pub settings_registry : List String → List (String × Spec)
settings_registry zones =
    ("LOG_LEVEL", select_setting ("DEBUG" ∷ "INFO" ∷ "WARNING" ∷ "ERROR" ∷ []))
    ∷ ("ADAPTERS_DEFAULT_INTERVAL_SECONDS", int_setting)
    ∷ ("DISPATCHER_INTERVAL_SECONDS", int_setting)
    ∷ ("DISPATCHER_CONSUMER_NAME", text_setting)
    ∷ ("DISPATCHER_MQ_HOST", text_setting)
    ∷ ("DISPATCHER_MQ_PORT", int_setting)
    ∷ ("DISPATCHER_MQ_QOS", int_setting)
    ∷ ("DISPATCHER_MQ_CONNECT_TIMEOUT_SECONDS", int_setting)
    ∷ ("ACTIONS_MQ_HOST", text_setting)
    ∷ ("ACTIONS_MQ_PORT", int_setting)
    ∷ ("ACTIONS_MQ_QOS", int_setting)
    ∷ ("ACTIONS_MQ_RECONNECT_BACKOFF_SECONDS", int_setting)
    ∷ ("ACTIONS_CHUNK_SUBSCRIBE_TOPIC", text_setting)
    ∷ ("ACTIONS_CHUNK_OUTPUT_TOPIC", text_setting)
    ∷ ("ACTIONS_CHUNK_OUTPUT_EVENT_TYPE", text_setting)
    ∷ ("ACTIONS_CHUNK_MAX_CHARS", int_setting)
    ∷ ("ACTIONS_AI_ENABLED", bool_setting)
    ∷ ("ACTIONS_AI_SUBSCRIBE_TOPIC", text_setting)
    ∷ ("ACTIONS_AI_OUTPUT_TOPIC", text_setting)
    ∷ ("ACTIONS_AI_OUTPUT_EVENT_TYPE", text_setting)
    ∷ ("ACTIONS_AI_PROVIDER", select_setting ("openai" ∷ "claude" ∷ "ollama" ∷ []))
    ∷ ("ACTIONS_AI_CLAUDE_MODEL", text_setting)
    ∷ ("ACTIONS_AI_OPENAI_MODEL", text_setting)
    ∷ ("ACTIONS_AI_OLLAMA_MODEL", text_setting)
    ∷ ("ACTIONS_AI_OLLAMA_HOST", text_setting)
    ∷ ("ACTIONS_AI_MAX_CHARS", int_setting)
    ∷ ("ACTIONS_AI_PROMPT", text_setting)
    ∷ ("ACTIONS_AI_EVENT_INCLUDE_PROMPT", bool_setting)
    ∷ ("ACTIONS_CONTENT_READY_POLL_INTERVAL_SECONDS", int_setting)
    ∷ ("ACTIONS_CONTENT_READY_OUTPUT_TOPIC", text_setting)
    ∷ ("DISPLAY_TIMEZONE", select_setting zones)
    ∷ ("UI_PAGE_SIZE", int_setting)
    ∷ ("UI_DEV_TOOLS_ENABLED", bool_setting)
    ∷ ("UI_DASHBOARD_REFRESH_SECONDS", int_setting)
    ∷ ("UI_DASHBOARD_TX_STREAM_URL", text_setting)
    ∷ ("UI_DEFAULT_CONSUMER_NAME", text_setting)
    ∷ ("UI_DEFAULT_LOCALE", select_setting ("en" ∷ "es" ∷ []))
    ∷ ("UI_DEFAULT_THEME", select_setting ("system" ∷ "light" ∷ "dark" ∷ []))
    ∷ ("BEACON_CALLSIGN", text_setting)
    ∷ ("BEACON_DESCRIPTION", text_setting)
    ∷ ("BEACON_SHORT_DESCRIPTION", text_setting)
    ∷ ("BEACON_OPERATOR_CONTACT", text_setting)
    ∷ ("BEACON_GRID_LOCATOR", text_setting)
    ∷ ("BEACON_FREQUENCY", text_setting)
    ∷ ("BEACON_ENABLED", bool_setting)
    ∷ ("BEACON_TYPE", select_setting ("voice" ∷ "frame" ∷ []))
    ∷ ("BEACON_TICK_SECONDS", int_setting)
    ∷ ("BEACON_INTER_TX_DELAY_SECONDS", float_setting)
    ∷ ("BEACON_WAV_TRANSMITTER", select_setting ("logging" ∷ "spool" ∷ []))
    ∷ ("BEACON_TXQUEUE_INCOMING_DIR", text_setting)
    ∷ ("BEACON_SVXLINK_CONF_PATH", text_setting)
    ∷ ("BEACON_RF_CONF_EDITOR_ENABLED", bool_setting)
    ∷ ("BEACON_TX_MONITOR_ENABLED", bool_setting)
    ∷ ("BEACON_SVXLINK_LOG_PATH", text_setting)
    ∷ ("BEACON_VOICE_TEMPLATE", text_setting)
    ∷ ("BEACON_VOICE_PREFIX", text_setting)
    ∷ ("BEACON_VOICE_SUFFIX", text_setting)
    ∷ ("BEACON_VOICE_MAX_CHARS", int_setting)
    ∷ ("BEACON_DATE_FORMAT", text_setting)
    ∷ ("BEACON_FRAME_DESTINATION", text_setting)
    ∷ ("BEACON_FRAME_PREFIX", text_setting)
    ∷ ("BEACON_FRAME_SUFFIX", text_setting)
    ∷ ("BEACON_GEN_PACKETS_BINARY", text_setting)
    ∷ ("BEACON_FRAME_LEAD_SILENCE_MS", int_setting)
    ∷ ("BEACON_DIREWOLF_CONF_PATH", text_setting)
    ∷ ("BEACON_TTS_ENGINE", select_setting ("piper" ∷ "espeak" ∷ []))
    ∷ ("BEACON_TTS_VOICE", text_setting)
    ∷ ("BEACON_TTS_PIPER_MODEL", text_setting)
    ∷ ("BEACON_TTS_PIPER_BINARY", text_setting)
    ∷ ("BEACON_TTS_WAV_DIR", text_setting)
    ∷ ("BEACON_TTS_RETENTION_DAYS", int_setting)
    ∷ ("BEACON_MANUAL_VOICE_TEMPLATE", text_setting)
    ∷ ("BEACON_VOICE_ATTENTION_TONE", text_setting)
    ∷ ("BEACON_WATERMARK_ENABLED", bool_setting)
    ∷ ("BEACON_WATERMARK_INTERVAL_SECONDS", int_setting)
    ∷ ("BEACON_WATERMARK_VOICE_TEMPLATE", text_setting)
    ∷ ("BEACON_WATERMARK_FRAME_TEMPLATE", text_setting)
    ∷ ("BEACON_QUEUE_MAX_SIZE", int_setting)
    ∷ ("BEACON_MAX_QUEUED_AGE_SECONDS", int_setting)
    ∷ ("BEACON_CONTENT_READY_RECONCILE_INTERVAL_SECONDS", int_setting)
    ∷ ("BEACON_MQ_HOST", text_setting)
    ∷ ("BEACON_MQ_PORT", int_setting)
    ∷ ("BEACON_MQ_QOS", int_setting)
    ∷ ("BEACON_MQ_RECONNECT_BACKOFF_SECONDS", int_setting)
    ∷ ("BEACON_CONTENT_READY_SUBSCRIBE_TOPIC", text_setting)
    ∷ ("BEACON_NTP_SERVER", text_setting)
    ∷ ("BEACON_NTP_CHECK_INTERVAL_SECONDS", int_setting)
    ∷ ("BEACON_NTP_MAX_OFFSET_SECONDS", float_setting)
    ∷ ("SETUP_WIZARD_COMPLETED", bool_setting)
    ∷ []

unfoldable pub spec_in : String → List (String × Spec) → Option Spec
spec_in key [] = none
spec_in key (s ∷ specs) = let rest = spec_in key specs in if str_eq s.0 key then some s.1 else rest
