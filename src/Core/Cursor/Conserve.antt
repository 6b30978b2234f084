-- ===== src/Core/Cursor/Conserve.antt =====
-- No finding is lost: `advance` and `pull_deferred` only move identifiers.
use mathlib.Core.List.{append_assoc, append-nil}
use review_agent_v.Prelude.{
  Text, false, Option, none, some, List, [], ◌∷◌, ◌++◌, ℕ, ◌≡◌, ◌≢◌, refl, arith, drop,
  take-append-drop, text_eq, text_eq_iff, any-append, Bool-cases, inl, inr, ◌||◌,
}
use review_agent_v.Core.Cursor.{Cursor, advance, pull_deferred, done_with, is_in, first}

abbrev pub current : Option Text → List Text
current none = []
current (some fid) = fid ∷ []

-- Every identifier of a cursor: done, asked now, coming next, waiting.
abbrev pub ids : Cursor → List Text
ids c = c.done ++ (current c.current_id ++ (c.pending ++ c.deferred))

-- The finding asked now has a name, and has not been asked before.
abbrev pub IsFresh : Cursor → Type 0
IsFresh c = (fid : Text) → c.current_id ≡ some fid → (fid ≢ []) × (is_in fid c.done ≡ false)

done_with_fresh :
    (o : Option Text) (done : List Text)
    → ((fid : Text) → o ≡ some fid → (fid ≢ []) × (is_in fid done ≡ false))
    → done_with o done ≡ done ++ current o
unfolding done_with
done_with_fresh none done h = rw append-nil
done_with_fresh (some []) done h = absurd ((h [] refl).0 refl)
done_with_fresh (some (c ∷ fid)) done h = rw ((h (c ∷ fid) refl).1)

first-drop :
    (pending rest : List Text)
    → current (first pending) ++ (drop 1 pending ++ rest) ≡ pending ++ rest
first-drop [] rest = refl
first-drop (fid ∷ pending) rest = refl

-- `advance` keeps every identifier, in its order, if the one asked now is named and not yet done.
pub ids-advance : (c : Cursor) → IsFresh c → ids (advance c) ≡ ids c
unfolding advance
ids-advance c h =
    rw (done_with_fresh c.current_id c.done h, first-drop c.pending c.deferred)
      (append_assoc c.done (current c.current_id) (c.pending ++ c.deferred))

-- `pull_deferred` keeps every identifier, in its order.
pub ids-pull_deferred : (n : ℕ) (c : Cursor) → ids (pull_deferred n c).0 ≡ ids c
unfolding pull_deferred
ids-pull_deferred n c = rw (append_assoc, take-append-drop n c.deferred)

pub is_in-append : (x : Text) (xs ys : List Text) → is_in x (xs ++ ys) ≡ (is_in x xs || is_in x ys)
unfolding is_in
is_in-append x xs ys = any-append (text_eq x) xs ys

-- Being in `done` after `advance` is being in `done` before or being the named current one.
is_in-done_with :
    (x : Text) (o : Option Text) (done : List Text)
    → x ≢ []
    → is_in x (done_with o done) ≡ (is_in x done || is_in x (current o))
unfolding done_with
is_in-done_with x none done h = ground arith
is_in-done_with x (some []) done h = ground (arith, text_eq_iff x [])
is_in-done_with x (some (c ∷ fid)) done h = elim (Bool-cases (is_in (c ∷ fid) done)) [
  | inl old ↦ ground (arith, text_eq_iff x (c ∷ fid))
  | inr new ↦ rw new (is_in-append x done ((c ∷ fid) ∷ []))
]

is_in-first :
    (x : Text) (pending : List Text)
    → (is_in x (current (first pending)) || is_in x (drop 1 pending)) ≡ is_in x pending
unfolding is_in
is_in-first x [] = refl
is_in-first x (fid ∷ pending) = ground arith

-- Whatever the cursor, advance neither loses nor invents a named identifier.
pub is_in-ids-advance :
    (x : Text) (c : Cursor) → x ≢ [] → is_in x (ids (advance c)) ≡ is_in x (ids c)
is_in-ids-advance x c h = simp is_in-append (
    unfold advance in
    ground (arith, is_in-done_with x c.current_id c.done h, is_in-first x c.pending))
