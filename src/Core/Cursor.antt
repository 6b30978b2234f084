-- ===== src/Core/Cursor.antt =====
-- `Cursor` of review_agent/core/models.py: which finding is asked now, which come next, which wait
-- and which are done. Identifiers are texts; an empty identifier is falsy, as in Python.
pub mod Conserve
pub mod Dict
use review_agent_v.Prelude.{
  Text, text_eq, Bool, true, false, not, ◌&&◌, ◌||◌, Option, none, some, List, [], ◌∷◌, ◌++◌, ℕ,
  any, take, drop, length, is_none, if◌then◌else◌,
}

pub record Cursor : Type 0 where
  pub current_id : Option Text
  pub pending : List Text
  pub deferred : List Text
  pub done : List Text
  pub regression_rescan : Bool

-- Cursor()
abbrev pub empty : Cursor
empty = record {
  current_id = none;
  pending = [];
  deferred = [];
  done = [];
  regression_rescan = false;
}

-- fid in done
unfoldable pub is_in : Text → List Text → Bool
is_in fid ids = any (text_eq fid) ids

-- The list `done` after `advance` with this `current_id`.
unfoldable pub done_with : Option Text → List Text → List Text
unfolding is_in
done_with none done = done
done_with (some []) done = done
done_with (some (c ∷ fid)) done = if is_in (c ∷ fid) done then done else done ++ (c ∷ fid) ∷ []

-- `pending.pop(0) if pending else None`
abbrev pub first : List Text → Option Text
first [] = none
first (fid ∷ rest) = some fid

unfoldable pub advance : Cursor → Cursor
unfolding done_with
advance c = record c {
  current_id = first c.pending;
  pending = drop 1 c.pending;
  done = done_with c.current_id c.done;
}

-- The cursor, and how many were moved.
unfoldable pub pull_deferred : ℕ → Cursor → Cursor × ℕ
pull_deferred n c = (
  record c { pending = c.pending ++ take n c.deferred; deferred = drop n c.deferred },
  length (take n c.deferred),
)

abbrev pub is_nil {ℓ} : {A : Type ℓ} → List A → Bool
is_nil [] = true
is_nil (x ∷ xs) = false

unfoldable pub is_empty : Cursor → Bool
is_empty c = is_none c.current_id && is_nil c.pending
