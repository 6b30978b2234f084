-- ===== src/Core/Storage/Sessions/Lookup.antt =====
-- What `get_session` finds after a session is created or updated.
use review_agent_v.Prelude.{
  Text, text_eq, text_eq_iff, Bool, true, false, ◌||◌, none, some, is_none, List, [], ◌∷◌, ◌++◌,
  map, any, find?, if◌then◌else◌, ◌≡◌, ◌≢◌, refl, ap, ◌∙◌, inl, inr, arith, Bool-cases,
}
use review_agent_v.Core.Models.{Session}
use review_agent_v.Core.Storage.Tables.{Storage, Dir}
use review_agent_v.Core.Storage.Users.{get_user}
use review_agent_v.Core.Storage.Sessions.{
  find_dir, put_dir, dir, on_dir, create_session, new_session, new_dir, row_to_session,
  find_session, get_session, update_session,
}
use mathlib.Core.Path.{subst}

find-snoc {ℓ} :
    {A : Type ℓ} (p : A → Bool) (xs : List A) (y : A)
    → any p xs ≡ false
    → p y ≡ true
    → find? p (xs ++ y ∷ []) ≡ some y
find-snoc p [] y n h = rw h refl
find-snoc p (x ∷ xs) y n h = ground (arith, find-snoc p xs y)

find_dir-put_dir :
    (sid key : Text) (d : Dir) (dirs : List (Text × Dir))
    → find_dir sid (put_dir key d dirs) ≡ (if text_eq sid key then d else find_dir sid dirs)
unfolding find_dir put_dir
find_dir-put_dir sid key d [] = ground arith
find_dir-put_dir sid key d ((k, e) ∷ dirs) = ground (
  arith,
  find_dir-put_dir sid key d dirs,
  text_eq_iff sid key,
  text_eq_iff key k,
  text_eq_iff sid k,
)

-- The files of a session after they were changed.
pub dir-on_dir :
    (sid : Text) (f : Dir → Dir) (s : Storage) → dir sid (on_dir sid f s) ≡ f (dir sid s)
unfolding dir on_dir
dir-on_dir sid f s =
    find_dir-put_dir sid sid (f (find_dir sid s.dirs)) s.dirs
    ∙ rw ((text_eq_iff sid sid).1 refl) refl

same : (sid : Text) → text_eq sid sid ≡ true
same sid = (text_eq_iff sid sid).1 refl

none-some : {A : Type 0} (a : A) → none ≢ some a
none-some a h = cc

some_injective : {A : Type 0} (a b : A) → some a ≡ some b → a ≡ b
some_injective a b h = cc

-- The row as it is read, with the configuration that was frozen when it was created.
abbrev pub frozen : (admin_style review_rules profile : Text) → Session → Session
frozen admin_style review_rules profile row = record row {
  admin_style = admin_style;
  review_rules = review_rules;
  responder_profile = profile;
}

row_to_session-new_dir :
    (a b p : Text) (r : Session) (s : Storage)
    → dir r.id s ≡ new_dir a b p
    → row_to_session s r ≡ frozen a b p r
unfolding row_to_session
row_to_session-new_dir a b p r s h = rw h refl

found_created :
    (sid now requester_oid responder_oid a b p : Text) (s s' : Storage)
    → any (λ r. text_eq sid r.id) s.sessions ≡ false
    → s'.sessions ≡ s.sessions ++ new_session sid requester_oid responder_oid now ∷ []
    → s'.dirs ≡ put_dir sid (new_dir a b p) s.dirs
    → get_session sid s' ≡ some (frozen a b p (new_session sid requester_oid responder_oid now))
unfolding get_session find_session dir row_to_session
found_created sid now requester_oid responder_oid a b p s s' n e d =
    let new = new_session sid requester_oid responder_oid now in
    rw (e, find-snoc (λ r. text_eq sid r.id) s.sessions new n (same sid))
      (ap some (
        row_to_session-new_dir a b p new s'
          (rw d (find_dir-put_dir sid sid (new_dir a b p) s.dirs ∙ rw (same sid) refl))))

-- Where create_session gives a session, get_session finds it under its identifier, with the
-- configuration that was frozen when it was created.
pub get_session-create_session :
    (sid now requester_oid responder_oid admin_style review_rules profile : Text) (s : Storage)
    (row : Session)
    → (create_session sid now requester_oid responder_oid admin_style review_rules profile s).1
      ≡ some row
    → get_session sid
        (create_session sid now requester_oid responder_oid admin_style review_rules profile s).0
      ≡ some (frozen admin_style review_rules profile row)
unfolding create_session on_dir
get_session-create_session sid now requester_oid responder_oid admin_style review_rules profile s
      row h =
    elim (Bool-cases (any (λ r. text_eq sid r.id) s.sessions)) [
      | inl taken ↦ absurd (none-some row (rw taken at h))
      | inr unused ↦
          elim (Bool-cases
            (is_none (get_user requester_oid s) || is_none (get_user responder_oid s))) [
              | inl unknown ↦ absurd (none-some row (rw (unused, unknown) at h))
              | inr known ↦
                  let e =
                    some_injective (new_session sid requester_oid responder_oid now) row
                      (rw (unused, known) at h) in
                  rw (unused, known)
                    (found_created sid now requester_oid responder_oid admin_style review_rules
                        profile s _ unused refl refl
                      ∙ ap (λ r. some (frozen admin_style review_rules profile r)) e)
            ]
    ]

find-head {ℓ} :
    {A : Type ℓ} (p : A → Bool) (x : A) (xs : List A) → p x ≡ true → find? p (x ∷ xs) ≡ some x
find-head p x xs h = rw h refl

found_updated :
    (sid : Text) (f : Session → Session) (rows : List Session) (r : Session)
    → ((q : Session) → (f q).id ≡ q.id)
    → find_session sid rows ≡ some r
    → find_session sid (map (λ q. if text_eq sid q.id then f q else q) rows) ≡ some (f r)
unfolding find_session
found_updated sid f [] r keeps h = absurd (none-some r h)
found_updated sid f (q ∷ rows) r keeps h = elim (Bool-cases (text_eq sid q.id)) [
  | inl here ↦ rw here (
      find-head (λ x. text_eq sid x.id) (f q) _ (ap (text_eq sid) (keeps q) ∙ here)
      ∙ ap (λ x. some (f x)) (some_injective q r (rw here at h)))
  | inr there ↦ rw (there, there) (found_updated sid f rows r keeps (rw there at h))
]

-- A row is updated where it stands.
pub find_session-update_session :
    (sid : Text) (f : Session → Session) (s : Storage) (r : Session)
    → ((q : Session) → (f q).id ≡ q.id)
    → find_session sid s.sessions ≡ some r
    → find_session sid (update_session sid f s).sessions ≡ some (f r)
unfolding update_session
find_session-update_session sid f s r keeps h = found_updated sid f s.sessions r keeps h

-- The row that is created has the key that it was asked for, and is found by it.
pub find_session-create_session :
    (sid now requester_oid responder_oid admin_style review_rules profile : Text) (s : Storage)
    (row : Session)
    → (create_session sid now requester_oid responder_oid admin_style review_rules profile s).1
      ≡ some row
    → find_session row.id
        (create_session sid now requester_oid responder_oid admin_style review_rules profile
          s).0.sessions
      ≡ some row
unfolding create_session find_session on_dir
find_session-create_session sid now requester_oid responder_oid admin_style review_rules profile s
      row h =
    elim (Bool-cases (any (λ r. text_eq sid r.id) s.sessions)) [
      | inl taken ↦ absurd (none-some row (rw taken at h))
      | inr unused ↦
          elim (Bool-cases
            (is_none (get_user requester_oid s) || is_none (get_user responder_oid s))) [
              | inl unknown ↦ absurd (none-some row (rw (unused, unknown) at h))
              | inr known ↦
                  let new = new_session sid requester_oid responder_oid now in
                  let e = some_injective new row (rw (unused, known) at h) in
                  rw (unused, known)
                    (subst
                      (λ (q : Session).
                        find? (λ r. text_eq q.id r.id) (s.sessions ++ new ∷ []) ≡ some q)
                      e (find-snoc (λ r. text_eq sid r.id) s.sessions new unused (same sid)))
            ]
    ]

-- The row that is created.
pub created_row :
    (sid now requester_oid responder_oid admin_style review_rules profile : Text) (s : Storage)
    (row : Session)
    → (create_session sid now requester_oid responder_oid admin_style review_rules profile s).1
      ≡ some row
    → new_session sid requester_oid responder_oid now ≡ row
unfolding create_session
created_row sid now requester_oid responder_oid admin_style review_rules profile s row h =
    elim (Bool-cases (
      any (λ r. text_eq sid r.id) s.sessions
      || is_none (get_user requester_oid s)
      || is_none (get_user responder_oid s))) [
        | inl refused ↦ absurd (none-some row (rw refused at h))
        | inr done ↦ some_injective _ row (rw done at h)
      ]
