-- ===== src/Core/Storage/Findings.antt =====
-- Storage: annotations.jsonl, cursor.json, conversation.jsonl and dissent.md of one session.
use review_agent_v.Prelude.{
  Text, txt, ℕ, eqb, Bool, true, false, not, ◌||◌, all, any, all-append, Option, none, some, List,
  [], ◌∷◌, ◌++◌, map, if◌then◌else◌, ◌≡◌, refl, arith, is_none,
}
use review_agent_v.Prelude.Json.{
  Json, null, str, arr, obj, Items, nil, cons, Fields, end, field, get, update, is_text,
}
use review_agent_v.Core.Models.{Finding, to_jsonl}
use review_agent_v.Core.Cursor.{Cursor, empty}
use review_agent_v.Core.Cursor.Dict.{to_dict, from_dict, from_dict-to_dict}
use review_agent_v.Core.Storage.Tables.{Dir}

-- A missing file reads as no rows.
abbrev pub rows_of : Option (List Fields) → List Fields
rows_of none = []
rows_of (some rows) = rows

-- str.splitlines ends a line at these; json.dumps with ensure_ascii=False leaves them as they are, and
-- escapes the other ends of lines.
abbrev pub ends_line : ℕ → Bool
ends_line c = eqb c 133 || eqb c 8232 || eqb c 8233

unfoldable mutual
  -- A text in the value holds the end of a line.
  pub breaks : Json → Bool
  breaks (str t) = any ends_line t
  breaks (arr xs) = breaks_items xs
  breaks (obj d) = breaks_fields d
  breaks v = false

  pub breaks_items : Items → Bool
  breaks_items nil = false
  breaks_items (cons v xs) = breaks v || breaks_items xs

  pub breaks_fields : Fields → Bool
  breaks_fields end = false
  breaks_fields (field k v d) = any ends_line (txt k) || breaks v || breaks_fields d

-- The row is read back from one line.
abbrev pub is_one_line : Fields → Bool
is_one_line row = not (breaks_fields row)

-- `none` is the JSONDecodeError of a row that is read from several lines.
unfoldable pub read_rows : List Fields → Option (List Fields)
unfolding breaks_fields
read_rows rows = if all is_one_line rows then some rows else none

unfoldable pub load_findings : Dir → Option (List Fields)
unfolding read_rows
load_findings d = read_rows (rows_of d.annotations)

unfoldable pub append_finding : Finding → Dir → Dir
unfolding to_jsonl
append_finding f d = record d { annotations = some (rows_of d.annotations ++ to_jsonl f ∷ []) }

-- row.get("id") == fid
abbrev pub has_id : Text → Fields → Bool
has_id fid row = is_text fid (get "id" row)

abbrev pub patch_row : Text → Fields → Fields → Fields
patch_row fid patch row = if has_id fid row then update row patch else row

abbrev pub put_rows : Option (List Fields) → Dir → Option Dir
put_rows none d = none
put_rows (some rows) d = some (record d { annotations = some rows })

abbrev pub patch_rows : Text → Fields → Option (List Fields) → Option (List Fields)
patch_rows fid patch none = none
patch_rows fid patch (some rows) = some (map (patch_row fid patch) rows)

-- Every row with this identifier is patched; `none` where the rows cannot be read.
unfoldable pub update_finding_status : Text → Fields → Dir → Option Dir
unfolding load_findings
update_finding_status fid patch d = put_rows (patch_rows fid patch (load_findings d)) d

abbrev cursor_of : Option Fields → Cursor
cursor_of none = empty
cursor_of (some d) = from_dict d

unfoldable pub load_cursor : Dir → Cursor
load_cursor d = cursor_of d.cursor

unfoldable pub save_cursor : Cursor → Dir → Dir
save_cursor c d = record d { cursor = some (to_dict c) }

abbrev optional : Option Text → Json
optional none = null
optional (some t) = str t

unfoldable pub log_conversation : (ts role text : Text) → Option Text → Dir → Dir
log_conversation ts role text intent d = record d {
  conversation =
      d.conversation
      ++ field "ts" (str ts)
          (field "role" (str role) (field "text" (str text) (field "intent" (optional intent) end)))
        ∷ [];
}

-- The block of dissent.md is kept as the finding's row and the reply that it quotes.
unfoldable pub append_dissent : Fields → Text → Dir → Dir
append_dissent finding reply d = record d {
  dissent = d.dissent ++ record { finding = finding; reply = reply } ∷ [];
}

-- What was saved is loaded.
pub load_cursor-save_cursor : (c : Cursor) (d : Dir) → load_cursor (save_cursor c d) ≡ c
unfolding load_cursor save_cursor
load_cursor-save_cursor c d = from_dict-to_dict c

-- Rows that can be read are read as they are.
pub read_rows_same : (rows got : List Fields) → read_rows rows ≡ some got → got ≡ rows
unfolding read_rows
read_rows_same rows got h = ground arith

-- More rows behind those that are there, where each of the new ones is one line.
pub read_rows-append :
    (rows more : List Fields)
    → all is_one_line more ≡ true
    → read_rows (rows ++ more) ≡ (if is_none (read_rows rows) then none else some (rows ++ more))
unfolding read_rows
read_rows-append rows more h = ground (arith, h, all-append is_one_line rows more)

pub load_findings-save_cursor :
    (c : Cursor) (d : Dir) → load_findings (save_cursor c d) ≡ load_findings d
unfolding load_findings save_cursor
load_findings-save_cursor c d = refl
