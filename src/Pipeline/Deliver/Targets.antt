-- ===== src/Pipeline/Deliver/Targets.antt =====
-- `load_targets` of review_agent/pipeline/deliver.py. `config` is what delivery_targets.json holds, where
-- it is there. A name, address or payload that is no text counts as an exception.
use review_agent_v.Prelude.{
  Text, txt, ℕ, zero, suc, ◌-◌, Option, none, some, List, [], ◌∷◌, ◌++◌, length, map, starts_with,
  if◌then◌else◌,
}
use review_agent_v.Prelude.Json.{Json, str, arr, nil, obj, items, of_list, end, field, get, get_or}
use review_agent_v.Pipeline.Deliver.Backends.{Target}

infixl 5 ◌>>=◌
abbrev ◌>>=◌ : {A B : Type 0} → Option A → (A → Option B) → Option B
none >>= f = none
some a >>= f = f a

-- s.replace(old, new) from a place on, after `skip` characters that belong to the last find.
unfoldable pub replace_from : (old new : Text) → (skip : ℕ) → Text → Text
unfolding starts_with
replace_from old new skip [] = []
replace_from old new (suc skip) (c ∷ s) = replace_from old new skip s
replace_from old new zero (c ∷ s) =
    let rest = replace_from old new zero s in
    let after = replace_from old new (length old - 1) s in
    if starts_with (c ∷ s) old then new ++ after else c ∷ rest

-- open_id.replace("{{RESPONDER}}", …).replace("{{REQUESTER}}", …)
unfoldable pub fill : (requester_oid responder_oid : Text) → Text → Text
unfolding replace_from
fill requester_oid responder_oid s =
    replace_from (txt "{{REQUESTER}}") requester_oid 0
      (replace_from (txt "{{RESPONDER}}") responder_oid 0 s)

abbrev texts : List Text → Json
texts ts = arr (of_list (map str ts))

-- The items where there is no file.
unfoldable pub default_items : (fs_root requester_oid responder_oid : Text) → List Json
default_items fs_root requester_oid responder_oid =
    obj (
      field "name" (str (txt "responder-doc")) (
        field "backend" (str (txt "lark_doc")) (
          field "open_id" (str responder_oid) (
            field "payload" (texts (txt "summary" ∷ txt "final" ∷ []))
              (field "role" (str (txt "responder")) end)))))
    ∷ obj (
        field "name" (str (txt "responder-dm")) (
          field "backend" (str (txt "lark_dm")) (
            field "open_id" (str responder_oid) (
              field "payload" (texts (txt "summary" ∷ []))
                (field "role" (str (txt "responder")) end)))))
    ∷ obj (
        field "name" (str (txt "requester-dm")) (
          field "backend" (str (txt "lark_dm")) (
            field "open_id" (str requester_oid) (
              field "payload" (texts (txt "summary" ∷ []))
                (field "role" (str (txt "requester")) end)))))
    ∷ obj (
        field "name" (str (txt "archive-local")) (
          field "backend" (str (txt "local_path")) (
            field "path" (str (fs_root ++ txt "/_archive")) (
              field "payload"
                (texts (
                  txt "summary"
                  ∷ txt "summary_audit"
                  ∷ txt "final"
                  ∷ txt "conversation"
                  ∷ txt "annotations"
                  ∷ txt "dissent"
                  ∷ txt "verdict"
                  ∷ []))
                end))))
    ∷ []

abbrev text_of : Json → Option Text
text_of (str s) = some s
text_of _ = none

abbrev texts_of : List Json → Option (List Text)
texts_of [] = some []
texts_of (v ∷ vs) = do t ← text_of v; ts ← texts_of vs; some (t ∷ ts)

abbrev items_of : Json → Option (List Json)
items_of (arr xs) = some (items xs)
items_of _ = none

-- One DeliveryTarget of the loop.
unfoldable pub target_of : (requester_oid responder_oid : Text) → Json → Option Target
unfolding get get_or fill
target_of requester_oid responder_oid (obj it) = do
  name_value ← get "name" it
  name ← text_of name_value
  backend_value ← get "backend" it
  backend ← text_of backend_value
  open_id ← text_of (get_or "open_id" (str []) it)
  path ← text_of (get_or "path" (str []) it)
  payload_items ← items_of (get_or "payload" (arr nil) it)
  payload ← texts_of payload_items
  role ← text_of (get_or "role" (str []) it)
  some (record {
    name = name;
    backend = backend;
    open_id = fill requester_oid responder_oid open_id;
    path = path;
    payload = payload;
    role = role;
  })
target_of requester_oid responder_oid _ = none

unfoldable pub targets_of : (requester_oid responder_oid : Text) → List Json → Option (List Target)
unfolding target_of
targets_of requester_oid responder_oid [] = some []
targets_of requester_oid responder_oid (it ∷ its) = do
  t ← target_of requester_oid responder_oid it
  ts ← targets_of requester_oid responder_oid its
  some (t ∷ ts)

abbrev on_close : Json → Option (List Json)
on_close (obj raw) = items_of (get_or "on_close" (arr nil) raw)
on_close _ = none

-- load_targets; `none` is the exception.
unfoldable pub load_targets :
    (config : Option Json) → (fs_root requester_oid responder_oid : Text) → Option (List Target)
unfolding targets_of default_items get_or
load_targets none fs_root requester_oid responder_oid =
    targets_of requester_oid responder_oid (default_items fs_root requester_oid responder_oid)
load_targets (some raw) fs_root requester_oid responder_oid = do
  its ← on_close raw
  targets_of requester_oid responder_oid its
