-- ===== src/Core/Dispatcher/Registration/Pairing.antt =====
-- Whom a user that registers by a message is paired with.
use review_agent_v.Prelude.{
  Text, Bool, true, false, Option, none, some, List, [], ◌∷◌, ◌++◌, ◌≡◌, ◌⊎◌, refl, text_eq_iff,
  ◌∙◌, ap, inl, inr, filter, Bool-cases,
}
use review_agent_v.Core.Enums.{Role}
use review_agent_v.Core.Models.{User, has_role}
use review_agent_v.Core.Storage.Tables.{Storage}
use review_agent_v.Core.Storage.Users.{
  get_user, kept, get_user-upsert_user, list_users, stamp, upsert_user,
}
use review_agent_v.Core.Dispatcher.World.{Env, World, Outcome, ok, llm_failure, exception}
use review_agent_v.Core.Dispatcher.Registration.{
  maybe_auto_register, register, register_with, named, responder_for, new_requester,
}

-- A row of the table.
abbrev pub IsRow : User → Storage → Type 0
IsRow u s = (before : List User) × (after : List User) × (s.users ≡ before ++ u ∷ after)

-- The user is paired with one of the rows, which is a responder's or an admin's.
abbrev pub IsPaired : User → Storage → Type 0
IsPaired u s =
    (v : User) × (u.pairing_responder_oid ≡ some v.open_id)
    × IsRow v s
    × ((has_role v Role.responder ≡ true) ⊎ (has_role v Role.admin ≡ true))

abbrev Found : (User → Bool) → List User → List User → Type 0
Found p xs [] = Unit
Found p xs (y ∷ ys) =
    (p y ≡ true) × ((before : List User) × (after : List User) × (xs ≡ before ++ y ∷ after))

Found-later : (p : User → Bool) (x : User) (xs ys : List User) → Found p xs ys → Found p (x ∷ xs) ys
Found-later p x xs [] h = tt
Found-later p x xs (y ∷ ys) (h, (before, after, e)) = (h, (x ∷ before, after, ap (λ l. x ∷ l) e))

Found-filter : (p : User → Bool) (xs : List User) → Found p xs (filter p xs)
Found-filter p [] = tt
Found-filter p (x ∷ xs) = elim (Bool-cases (p x)) [
  | inl kept ↦ rw kept (kept, ([], xs, refl))
  | inr dropped ↦ rw dropped (Found-later p x xs (filter p xs) (Found-filter p xs))
]

Found-list_users : (r : Role) (s : Storage) → Found (λ u. has_role u r) s.users (list_users r s)
unfolding list_users
Found-list_users r s = Found-filter (λ u. has_role u r) s.users

paired :
    (s : Storage) (ts oid name : Text) (admin : User) (admins responders : List User)
    → Found (λ u. has_role u Role.admin) s.users (admin ∷ admins)
    → Found (λ u. has_role u Role.responder) s.users responders
    → IsPaired (stamp ts (new_requester oid name (responder_for admin responders))) s
unfolding stamp new_requester responder_for
paired s ts oid name admin admins [] (a, row) r =
    elim (Bool-cases (has_role admin Role.responder)) [
      | inl both ↦ rw both (admin, refl, row, inl both)
      | inr only ↦ rw only (admin, refl, row, inr a)
    ]
paired s ts oid name admin admins (v ∷ vs) (a, row) (b, found) =
    elim (Bool-cases (has_role admin Role.responder)) [
      | inl both ↦ rw both (admin, refl, row, inl both)
      | inr only ↦ rw only (v, refl, found, inl b)
    ]

-- What a registration leaves: nothing new, or a stored requester with a partner.
abbrev pub IsRegistered : (oid : Text) → Bool → World → Outcome (Option User) × World → Type 0
IsRegistered oid enabled w (ok none, w') = w'.storage ≡ w.storage
IsRegistered oid enabled w (ok (some u), w') =
    (enabled ≡ true)
    × (u.roles ≡ Role.requester ∷ [])
    × IsPaired u w.storage
    × (get_user oid w'.storage ≡ some (kept u (get_user oid w.storage)))
IsRegistered oid enabled w (llm_failure, w') = ⊥
IsRegistered oid enabled w (exception, w') = ⊥

stored :
    (ts oid name responder_oid : Text) (s : Storage)
    → get_user oid (upsert_user ts (new_requester oid name responder_oid) s)
      ≡ some (kept (stamp ts (new_requester oid name responder_oid)) (get_user oid s))
unfolding new_requester
stored ts oid name responder_oid s =
    get_user-upsert_user ts oid (new_requester oid name responder_oid) s
    ∙ rw ((text_eq_iff oid oid).1 refl) refl

stamped_roles :
    (ts oid name responder_oid : Text)
    → (stamp ts (new_requester oid name responder_oid)).roles ≡ Role.requester ∷ []
unfolding stamp new_requester
stamped_roles ts oid name responder_oid = refl

register_with-IsRegistered :
    (e : Env) (oid : Text) (name : Option Text) (admins responders : List User) (w : World)
    → Found (λ u. has_role u Role.admin) w.storage.users admins
    → Found (λ u. has_role u Role.responder) w.storage.users responders
    → IsRegistered oid true w (register_with e oid name admins responders w)
unfolding register
register_with-IsRegistered e oid name [] responders w a r = refl
register_with-IsRegistered e oid name (admin ∷ admins) responders w a r = (
  refl,
  stamped_roles (e.clock w.ticks) oid (named name) (responder_for admin responders),
  paired w.storage (e.clock w.ticks) oid (named name) admin admins responders a r,
  stored (e.clock w.ticks) oid (named name) (responder_for admin responders) w.storage,
)

-- The registration by a message always returns. Where it gives no user the storage is as it was;
-- where it gives one, it is switched on, the user has the role of a requester only, is paired
-- with a row that was in the table and is a responder or an admin, and is what get_user then
-- finds, but for the time of creation of a row that was there.
pub maybe_auto_register-IsRegistered :
    (e : Env) (enabled : Bool) (oid : Text) (name : Option Text) (w : World)
    → IsRegistered oid enabled w (maybe_auto_register e enabled oid name w)
unfolding maybe_auto_register
maybe_auto_register-IsRegistered e false oid name w = refl
maybe_auto_register-IsRegistered e true oid name w =
    register_with-IsRegistered e oid name (list_users Role.admin w.storage)
      (list_users Role.responder w.storage) w (Found-list_users Role.admin w.storage)
      (Found-list_users Role.responder w.storage)
