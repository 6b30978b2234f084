-- ===== src/Slack/Dedup.antt =====
-- `_MessageDedup` of review_agent/slack/adapter.py. Times are whole numbers of the clock's smallest unit.
pub mod Again
use review_agent_v.Prelude.{
  Text, txt, text_eq, text_eq_iff, text_ne, String, ℕ, zero, suc, ◌+◌, ◌-◌, ◌*◌, ◌/◌, ◌%◌, ◌^◌, ◌≤◌,
  ◌<◌, min, ltb, leb, eqb, Bool, true, false, not, ◌&&◌, ◌||◌, Option, none, some, is_none, List,
  [], ◌∷◌, ◌++◌, length, take, drop, get_elem?, map, filter, any, all, find?, count, All,
  All-append, any-append, length-append, length-take, length-map, take-append-drop, take_all,
  drop_all, length-drop, if◌then◌else◌, is_space, starts_with, ends_with, contains, find_from,
  one_of, strip, lstrip, rstrip, rstrip_if, lstrip_if, ◌≡◌, ◌≢◌, refl, sym, ap, ◌∙◌, ◌⊎◌, ◌↔◌, inl,
  inr, arith, Bool-cases, Option-cases, ltb→lt, lt→ltb, leb→le, eqb_iff,
}

abbrev pub Cache : Type 0
Cache = List (Text × ℕ)

pub record Dedup : Type 0 where
  pub max : ℕ
  pub ttl : ℕ
  pub cache : Cache

-- self._cache[key] > now, where the key is there
unfoldable pub is_fresh : (key : Text) → (now : ℕ) → Cache → Bool
is_fresh key now [] = false
is_fresh key now ((k, expiry) ∷ cache) =
    if text_eq key k then ltb now expiry else is_fresh key now cache

-- self._cache[key] = expiry
unfoldable pub put_expiry : (key : Text) → (expiry : ℕ) → Cache → Cache
put_expiry key expiry [] = (key, expiry) ∷ []
put_expiry key expiry ((k, t) ∷ cache) =
    let rest = put_expiry key expiry cache in
    if text_eq key k then (k, expiry) ∷ cache else (k, t) ∷ rest

unfoldable pub insert_by_expiry : Text × ℕ → Cache → Cache
insert_by_expiry (k, t) [] = (k, t) ∷ []
insert_by_expiry (k, t) ((j, u) ∷ cache) =
    let rest = insert_by_expiry (k, t) cache in
    if ltb u t then (j, u) ∷ rest else (k, t) ∷ (j, u) ∷ cache

-- sorted(self._cache.items(), key=lambda x: x[1])
unfoldable pub sort_by_expiry : Cache → Cache
unfolding insert_by_expiry
sort_by_expiry [] = []
sort_by_expiry (e ∷ cache) = insert_by_expiry e (sort_by_expiry cache)

-- self._cache.pop(k, None)
unfoldable pub pop_key : Text → Cache → Cache
pop_key key [] = []
pop_key key ((k, t) ∷ cache) =
    let rest = pop_key key cache in if text_eq key k then cache else (k, t) ∷ rest

unfoldable pub pop_all : Cache → Cache → Cache
unfolding pop_key
pop_all [] cache = cache
pop_all ((k, t) ∷ oldest) cache = pop_all oldest (pop_key k cache)

-- The eviction of the oldest tenth.
unfoldable pub evict : (max : ℕ) → Cache → Cache
unfolding sort_by_expiry pop_all
evict max cache =
    if ltb max (length cache) then pop_all (take (max / 10) (sort_by_expiry cache)) cache else cache

-- seen
unfoldable pub seen : (key : Text) → (now : ℕ) → Dedup → Bool × Dedup
unfolding is_fresh put_expiry evict
seen key now d =
    if is_fresh key now d.cache
    then (true, d)
    else (false, record d { cache = evict d.max (put_expiry key (now + d.ttl) d.cache) })
