-- ===== src/Core/Storage/Users.antt =====
-- Storage: the table `users`.
use review_agent_v.Prelude.{
  Text, text_eq, text_eq_iff, Bool, not, Option, none, some, List, [], ◌∷◌, filter, find?, any,
  if◌then◌else◌, ◌≡◌, arith,
}
use review_agent_v.Core.Enums.{Role}
use review_agent_v.Core.Models.{User, has_role}
use review_agent_v.Core.Storage.Tables.{Storage}

-- INSERT … ON CONFLICT(open_id) DO UPDATE: `created_at` of an old row stays.
unfoldable pub upsert_row : User → List User → List User
upsert_row u [] = u ∷ []
upsert_row u (v ∷ rows) =
    if text_eq u.open_id v.open_id
    then record u { created_at = v.created_at } ∷ rows
    else v ∷ upsert_row u rows

abbrev stamp_created : Text → Text → Text
stamp_created ts [] = ts
stamp_created ts (c ∷ created_at) = c ∷ created_at

-- `if not user.created_at: user.created_at = ts; user.updated_at = ts`
unfoldable pub stamp : Text → User → User
stamp ts u = record u { created_at = stamp_created ts u.created_at; updated_at = ts }

unfoldable pub upsert_user : Text → User → Storage → Storage
unfolding stamp upsert_row
upsert_user ts u s = record s { users = upsert_row (stamp ts u) s.users }

unfoldable pub get_user : Text → Storage → Option User
get_user oid s = find? (λ u. text_eq oid u.open_id) s.users

-- list_users(role), in the order of the table: the query asks for none.
unfoldable pub list_users : Role → Storage → List User
list_users role s = filter (λ u. has_role u role) s.users

-- The new storage, and whether a row was deleted.
unfoldable pub delete_user : Text → Storage → Storage × Bool
delete_user oid s = (
  record s { users = filter (λ u. not (text_eq oid u.open_id)) s.users },
  any (λ u. text_eq oid u.open_id) s.users,
)

-- `upsert_row` keeps the old time of creation.
abbrev pub kept : User → Option User → User
kept u none = u
kept u (some v) = record u { created_at = v.created_at }

abbrev get_row : Text → List User → Option User
get_row oid rows = find? (λ u. text_eq oid u.open_id) rows

find-upsert_row :
    (oid : Text) (u : User) (rows : List User)
    → get_row oid (upsert_row u rows)
      ≡ (if text_eq oid u.open_id then some (kept u (get_row oid rows)) else get_row oid rows)
unfolding upsert_row
find-upsert_row oid u [] = ground arith
find-upsert_row oid u (v ∷ rows) = ground (
  arith,
  find-upsert_row oid u rows,
  text_eq_iff oid u.open_id,
  text_eq_iff u.open_id v.open_id,
  text_eq_iff oid v.open_id,
)

-- After upsert_user, get_user returns the new user under that key, with the time of creation of
-- the row that was there, and what it returned before under any other key.
pub get_user-upsert_user :
    (ts oid : Text) (u : User) (s : Storage)
    → get_user oid (upsert_user ts u s) ≡ (
        if text_eq oid u.open_id then some (kept (stamp ts u) (get_user oid s)) else get_user oid s)
unfolding get_user upsert_user
get_user-upsert_user ts oid u s = find-upsert_row oid (stamp ts u) s.users
