-- ===== src/Core/Dispatcher/Registration.antt =====
-- review_agent/core/dispatcher.py: `_maybe_auto_register`. The switch of the configuration and the name
-- that `_lookup_display_name` gives are arguments.
pub mod Pairing
use review_agent_v.Prelude.{
  Text, txt, Bool, true, false, Option, none, some, List, [], ◌∷◌, if◌then◌else◌,
}
use review_agent_v.Core.Enums.{Role}
use review_agent_v.Core.Models.{User, has_role}
use review_agent_v.Core.Storage.Users.{upsert_user, stamp, list_users}
use review_agent_v.Core.Dispatcher.World
use review_agent_v.Core.Dispatcher.World.{Env, Act, ◌>>=◌, ◌>>◌, pure, now, gets, store, safe_dm}

abbrev first_or : Text → List User → Text
first_or oid [] = oid
first_or oid (u ∷ us) = u.open_id

-- Whom a new requester is paired with: the admin, if a responder too, or else the first responder, or
-- else the admin.
unfoldable pub responder_for : User → List User → Text
responder_for admin responders =
    if has_role admin Role.responder then admin.open_id else first_or admin.open_id responders

-- `… or "New user"`
abbrev pub named : Option Text → Text
named none = txt "New user"
named (some []) = txt "New user"
named (some (c ∷ name)) = c ∷ name

unfoldable pub new_requester : (oid name responder_oid : Text) → User
new_requester oid name responder_oid = record {
  open_id = oid;
  display_name = name;
  roles = Role.requester ∷ [];
  pairing_responder_oid = some responder_oid;
  created_at = [];
  updated_at = [];
}

module _ (e : Env) where
  -- The part after an admin is found; the user that is returned has the times that were stored.
  unfoldable pub register : (oid name : Text) → User → List User → Act (Option User)
  register oid name admin responders = do
    ts ← now e
    store (upsert_user ts (new_requester oid name (responder_for admin responders)))
    safe_dm oid (World.welcome name)
    safe_dm admin.open_id (World.admin_notice name)
    pure (some (stamp ts (new_requester oid name (responder_for admin responders))))

  abbrev pub register_with : (oid : Text) → Option Text → List User → List User → Act (Option User)
  register_with oid name [] responders = do safe_dm oid World.setup_unfinished; pure none
  register_with oid name (admin ∷ admins) responders = register oid (named name) admin responders

  -- _maybe_auto_register
  unfoldable pub maybe_auto_register : Bool → (oid : Text) → Option Text → Act (Option User)
  unfolding register
  maybe_auto_register false oid name = do safe_dm oid World.registration_off; pure none
  maybe_auto_register true oid name = do
    admins ← gets (λ w. list_users Role.admin w.storage)
    responders ← gets (λ w. list_users Role.responder w.storage)
    register_with oid name admins responders
