-- ===== src/Dispatcher/Override/Rearmed.antt =====
-- What an item that was rearmed by a person is delivered.
use radiobeacon.Common.{String, Option, none, some, List, [], ◌∷◌}
use radiobeacon.Database.{Db, Item}
use radiobeacon.Dispatcher.Deliver.{armed_items}

-- The items that a pass delivers, in order.
abbrev pub queue : String → Db → List Item
queue consumer db = armed_items consumer db.items db.trigger_dispatches

abbrev pub one_item : Option Item → List Item
one_item none = []
one_item (some i) = i ∷ []
