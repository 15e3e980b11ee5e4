-- ===== src/Beacon/Content.antt =====
-- beacon/src/beacon/content.py: what is read, at transmit time, of an item that is put on air.
use radiobeacon.Common.{
  or_blank, ℕ, String, Bool, Option, none, some, List, [], ◌∷◌, ◌&&◌, str_eq, ◌==◌, find_row,
}
use radiobeacon.Database.{Db, Item, ChunkRow, is_item}
use radiobeacon.Registry.{get_source_fields}

abbrev pub is_chunk : String → String → ℕ → ChunkRow → Bool
is_chunk source item_id chunk_index c =
    str_eq c.source source && (str_eq c.item_id item_id && c.chunk_index == chunk_index)

unfoldable pub chunk_text : Option ChunkRow → Option String
chunk_text none = none
chunk_text (some c) = some c.text

unfoldable pub resolve_frame_text : String → String → ℕ → Db → Option String
unfolding chunk_text
resolve_frame_text source item_id chunk_index db =
    chunk_text (find_row (is_chunk source item_id chunk_index) db.chunks)

unfoldable pub summary_of : Option Item → Option String
summary_of none = none
summary_of (some i) = i.summary

unfoldable pub resolve_voice_text : String → String → Db → Option String
unfolding summary_of
resolve_voice_text source item_id db = summary_of (find_row (is_item source item_id) db.items)

item_texts : Option Item → List (String × String)
item_texts none = ("type", "") ∷ ("subtype", "") ∷ ("extracted_title", "") ∷ ("url", "") ∷ []
item_texts (some i) =
    ("type", or_blank i.type)
    ∷ ("subtype", or_blank i.subtype)
    ∷ ("extracted_title", or_blank i.extracted_title)
    ∷ ("url", or_blank i.url)
    ∷ []

add_source : String × String → List (String × String) → List (String × String)
add_source (name, url) [] = ("source_name", name) ∷ ("source_url", url) ∷ []
add_source source (f ∷ fields) = f ∷ add_source source fields

unfoldable pub resolve_item_fields : String → String → Db → List (String × String)
unfolding item_texts add_source
resolve_item_fields source item_id db =
    add_source (get_source_fields source db)
      (item_texts (find_row (is_item source item_id) db.items))

date_of : Option Item → Option String
date_of none = none
date_of (some i) = i.source_date_time

-- The text that `datetime.fromisoformat` is then given.
unfoldable pub source_date_text : String → String → Db → Option String
unfolding date_of
source_date_text source item_id db = date_of (find_row (is_item source item_id) db.items)
