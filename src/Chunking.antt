-- ===== src/Chunking.antt =====
-- actions/src/actions/chunk.py, and store_chunks of data-adapters/src/adapters/storage.py: the pieces
-- of an item's text that go on air as frames. textwrap.wrap, strftime and the decoding of \uXXXX
-- escapes by a regular expression are parameters.
pub mod Stored
use radiobeacon.Common.{
  or_blank, ℕ, zero, suc, ◌+◌, ◌-◌, ◌*◌, ◌≤◌, String, Bool, true, false, not, ◌&&◌, ◌||◌, Option,
  none, some, List, [], ◌∷◌, ◌++◌, truthy, str_eq, leb, ◌==◌, ℤ, pos, negsuc, length, exists,
  find_row, delete, if◌then◌else◌,
}
use radiobeacon.Common.Bytes.{concat}
use radiobeacon.Common.Text.{chars, int, decimal}
use radiobeacon.Common.Result.{Result, ok, raised, value_error, integrity_error, or_raise, ◌>>=◌}
use radiobeacon.Database.{Db, Item, ChunkRow, is_item}
use radiobeacon.Database.Settings.{Environ, get_setting}
use radiobeacon.Cron.{text_or}
use radiobeacon.Registry.{get_source_fields}
use radiobeacon.Frames.{Formatter, Wrap, safe_format, max_frame_content_bytes}

abbrev pub of_pair : String → String → ChunkRow → Bool
of_pair source item_id c = str_eq c.source source && str_eq c.item_id item_id

abbrev same_pair : ChunkRow → ChunkRow → Bool
same_pair c d = of_pair d.source d.item_id c

-- Whether no two chunks of a batch have one primary key.
is_distinct : List ChunkRow → Bool
is_distinct [] = true
is_distinct (c ∷ chunks) =
    not (exists (λ d. same_pair c d && c.chunk_index == d.chunk_index) chunks) && is_distinct chunks

-- The rows of every pair in the batch are replaced; on an IntegrityError nothing is committed.
unfoldable pub store_chunks : List ChunkRow → Db → Db × Result ℕ
unfolding is_distinct
store_chunks chunks db =
    if is_distinct chunks
    then (
      record db { chunks = delete (λ c. exists (same_pair c) chunks) db.chunks ++ chunks },
      ok (length chunks),
    )
    else (db, raised integrity_error)

-- " i/n"
marker : ℕ → ℕ → String
marker i n = concat " " (concat (decimal i) (concat "/" (decimal n)))

mark_from : ℕ → ℕ → List String → List String
unfolding marker
mark_from i total [] = []
mark_from i total (p ∷ pieces) = concat p (marker i total) ∷ mark_from (suc i) total pieces

abbrev one_at_least : ℕ → ℕ
one_at_least n = if leb n 1 then 1 else n

-- Pieces that are more than one are numbered.
numbered : List String → List String
unfolding mark_from
numbered pieces = if leb (length pieces) 1 then pieces else mark_from 1 (length pieces) pieces

unfoldable pub wrap_with_part_markers : Wrap → String → ℕ → List String
unfolding numbered
wrap_with_part_markers wrap contents max_chars =
    let unmarked = wrap contents max_chars in
    let width = chars (marker (length unmarked) (length unmarked)) in
    let pieces = numbered (wrap contents (one_at_least (max_chars - width))) in
    if leb (length unmarked) 1 then unmarked else pieces

-- What the action takes from outside: the environment, the formatter, textwrap, `_SAMPLE_DATE` in a
-- date format, and the decoding of escapes.
pub record Outside : Type 0 where
  pub environ : Environ
  pub vformat : Formatter
  pub wrap : Wrap
  pub sample_date : String → String
  pub unescape : String → String

abbrev at_least_one : ℤ → ℤ
at_least_one (pos zero) = pos 1
at_least_one (pos (suc n)) = pos (suc n)
at_least_one (negsuc n) = pos 1

-- `min(a, b)`
min_of : ℤ → ℤ → ℤ
min_of (pos a) (pos b) = pos (if leb a b then a else b)
min_of (pos a) (negsuc b) = negsuc b
min_of (negsuc a) (pos b) = negsuc a
min_of (negsuc a) (negsuc b) = negsuc (if leb a b then b else a)

-- The width is lowered to what fits in a frame, once the beacon has a call sign.
unfoldable pub effective_max_chars : Outside → ℤ → List (String × String) → Db → ℤ
unfolding min_of
effective_max_chars o configured fields db =
    let callsign = get_setting o.environ false "BEACON_CALLSIGN" none db in
    let destination =
      text_or "NFO" (get_setting o.environ true "BEACON_FRAME_DESTINATION" (some "NFO") db) in
    let date_format =
      text_or "%d-%m-%Y %H:%M"
        (get_setting o.environ true "BEACON_DATE_FORMAT" (some "%d-%m-%Y %H:%M") db) in
    let prefix = text_or "" (get_setting o.environ true "BEACON_FRAME_PREFIX" (some "") db) in
    let suffix = text_or "" (get_setting o.environ true "BEACON_FRAME_SUFFIX" (some "") db) in
    let all = ("date", o.sample_date date_format) ∷ fields in
    let available = at_least_one (
      max_frame_content_bytes (text_or "" callsign) destination (safe_format o.vformat prefix all)
        (safe_format o.vformat suffix all)) in
    if truthy callsign then min_of configured available else configured

pub chunk_rows : String → String → ℕ → ℕ → List String → List ChunkRow
chunk_rows source item_id i count [] = []
chunk_rows source item_id i count (p ∷ pieces) =
    record { source = source; item_id = item_id; chunk_index = i; chunk_count = count; text = p }
    ∷ chunk_rows source item_id (suc i) count pieces

-- What the templates of a frame can name of an item, and of its source.
unfoldable pub item_fields : String → String → Item → Db → List (String × String)
item_fields source item_id i db =
    let (source_name, source_url) = get_source_fields source db in
    ("source", source)
    ∷ ("item_id", item_id)
    ∷ ("type", or_blank i.type)
    ∷ ("subtype", or_blank i.subtype)
    ∷ ("extracted_title", or_blank i.extracted_title)
    ∷ ("url", or_blank i.url)
    ∷ ("source_name", source_name)
    ∷ ("source_url", source_url)
    ∷ []

-- The payload of the one event that is published.
pub record Chunked : Type 0 where
  pub source : String
  pub item_id : String
  pub chunk_count : ℕ

stored : String → String → ℕ → Db × Result ℕ → Db × Result (List Chunked)
stored source item_id count (db, raised e) = (db, raised e)
stored source item_id count (db, ok n) =
    (db, ok (record { source = source; item_id = item_id; chunk_count = count } ∷ []))

-- textwrap.wrap raises ValueError where the width is not positive.
split_and_store : Outside → String → String → String → ℤ → Db → Db × Result (List Chunked)
unfolding stored chunk_rows
split_and_store o source item_id contents (negsuc n) db = (db, raised value_error)
split_and_store o source item_id contents (pos zero) db = (db, raised value_error)
split_and_store o source item_id contents (pos (suc n)) db =
    let pieces = wrap_with_part_markers o.wrap contents (suc n) in
    stored source item_id (length pieces)
      (store_chunks (chunk_rows source item_id 0 (length pieces) pieces) db)

with_width : Outside → String → String → String → Item → Db → Result ℤ → Db × Result (List Chunked)
unfolding split_and_store
with_width o source item_id contents i db (raised e) = (db, raised e)
with_width o source item_id contents i db (ok configured) =
    split_and_store o source item_id contents
      (effective_max_chars o configured (item_fields source item_id i db) db) db

-- The summary, or else the contents.
abbrev body : Item → Option String
body i = if truthy i.summary then i.summary else i.extracted_contents

chunk_item : Outside → String → String → Option Item → Db → Db × Result (List Chunked)
unfolding with_width
chunk_item o source item_id none db = (db, ok [])
chunk_item o source item_id (some i) db =
    let width = or_raise value_error (
      int (text_or "200" (get_setting o.environ true "ACTIONS_CHUNK_MAX_CHARS" (some "200") db))) in
    let done = with_width o source item_id (o.unescape (or_blank (body i))) i db width in
    if truthy (body i) then done else (db, ok [])

-- `ChunkAction.run` for the source and item of an event.
unfoldable pub run_chunk : Outside → Option String → Option String → Db → Db × Result (List Chunked)
unfolding chunk_item
run_chunk o source item_id db =
    let s = or_blank source in
    let i = or_blank item_id in
    let done = chunk_item o s i (find_row (is_item s i) db.items) db in
    if truthy source && truthy item_id then done else (db, ok [])
