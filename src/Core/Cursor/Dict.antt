-- ===== src/Core/Cursor/Dict.antt =====
-- `Cursor.to_dict` and `Cursor.from_dict`: what goes to cursor.json and comes back.
use review_agent_v.Prelude.{Text, false, Option, none, some, List, [], ◌∷◌, map, ◌≡◌, refl, ap}
use review_agent_v.Prelude.Json.{
  Json, null, bool, str, arr, nil, Fields, end, field, get, get_or, truthy, items, of_list,
}
use review_agent_v.Core.Cursor.{Cursor}

abbrev texts : List Text → Json
texts ids = arr (of_list (map str ids))

abbrev optional : Option Text → Json
optional none = null
optional (some s) = str s

-- asdict(self)
unfoldable pub to_dict : Cursor → Fields
to_dict c = field "current_id" (optional c.current_id) (
    field "pending" (texts c.pending) (
      field "deferred" (texts c.deferred)
        (field "done" (texts c.done) (field "regression_rescan" (bool c.regression_rescan) end))))

-- A field's value where the file was written by `to_dict`; other types do not occur there.
abbrev to_text : Json → List Text
to_text (str s) = s ∷ []
to_text _ = []

abbrev texts_of : List Json → List Text
texts_of [] = []
texts_of (str s ∷ vs) = s ∷ texts_of vs
texts_of (v ∷ vs) = texts_of vs

abbrev list_of : Json → List Text
list_of (arr xs) = texts_of (items xs)
list_of _ = []

abbrev optional_of : Json → Option Text
optional_of (str s) = some s
optional_of _ = none

unfoldable pub from_dict : Fields → Cursor
unfolding get_or truthy
from_dict d = record {
  current_id = optional_of (get_or "current_id" null d);
  pending = list_of (get_or "pending" (arr nil) d);
  deferred = list_of (get_or "deferred" (arr nil) d);
  done = list_of (get_or "done" (arr nil) d);
  regression_rescan = truthy (get_or "regression_rescan" (bool false) d);
}

texts_of-texts : (ids : List Text) → texts_of (items (of_list (map str ids))) ≡ ids
texts_of-texts [] = refl
texts_of-texts (s ∷ ids) = ap (λ l. s ∷ l) (texts_of-texts ids)

optional_of-optional : (o : Option Text) → optional_of (optional o) ≡ o
optional_of-optional none = refl
optional_of-optional (some s) = refl

-- A cursor that was saved is loaded as it was, whatever it holds.
pub from_dict-to_dict : (c : Cursor) → from_dict (to_dict c) ≡ c
unfolding from_dict to_dict get_or get
from_dict-to_dict c = rw (
  optional_of-optional c.current_id,
  texts_of-texts c.pending,
  texts_of-texts c.deferred,
  texts_of-texts c.done,
)
