-- ===== src/Slack/Dedup/Again.antt =====
-- A key that comes again.
use review_agent_v.Prelude.{
  Text, text_eq, text_eq_iff, ℕ, suc, ◌+◌, ◌≤◌, ◌<◌, ltb, Bool, true, false, [], ◌∷◌, length,
  if◌then◌else◌, ◌≡◌, refl, ap, ◌∙◌, ◌⊎◌, inl, inr, arith, Bool-cases,
}
use review_agent_v.Slack.Dedup.{Cache, Dedup, is_fresh, put_expiry, evict, seen}

is_fresh-put_expiry :
    (key k : Text) (now expiry : ℕ) (cache : Cache)
    → is_fresh key now (put_expiry k expiry cache)
      ≡ (if text_eq key k then ltb now expiry else is_fresh key now cache)
unfolding is_fresh put_expiry
is_fresh-put_expiry key k now expiry [] = refl
is_fresh-put_expiry key k now expiry ((j, t) ∷ cache) = ground (
  arith,
  is_fresh-put_expiry key k now expiry cache,
  text_eq_iff key k,
  text_eq_iff k j,
  text_eq_iff key j,
)

length-put_expiry :
    (k : Text) (expiry : ℕ) (cache : Cache)
    → length (put_expiry k expiry cache) ≤ suc (length cache)
unfolding put_expiry
length-put_expiry k expiry [] = omega arith
length-put_expiry k expiry ((j, t) ∷ cache) = elim (Bool-cases (text_eq k j)) [
  | inl here ↦ rw here (omega arith)
  | inr there ↦ rw there (omega (arith, length-put_expiry k expiry cache))
]

not_over : (max n : ℕ) → n ≤ max → ltb max n ≡ false
not_over max n h = ground arith

evict_none : (max : ℕ) (cache : Cache) → length cache ≤ max → evict max cache ≡ cache
unfolding evict
evict_none max cache h = rw (not_over max (length cache) h) refl

-- The cache after a look at a key that was not there, with room in it.
seen-put :
    (k : Text) (now : ℕ) (d : Dedup)
    → length d.cache < d.max
    → is_fresh k now d.cache ≡ false
    → seen k now d ≡ (false, record d { cache = put_expiry k (now + d.ttl) d.cache })
unfolding seen
seen-put k now d room new = rw new (
    ap (λ (c : Cache). (false, record d { cache = c }))
      (evict_none d.max (put_expiry k (now + d.ttl) d.cache)
        (omega (arith, length-put_expiry k (now + d.ttl) d.cache))))

pub seen-found :
    (k : Text) (now : ℕ) (d : Dedup) → is_fresh k now d.cache ≡ true → seen k now d ≡ (true, d)
unfolding seen
seen-found k now d h = rw h refl

-- What is remembered stays so while other keys are looked at.
pub is_fresh-seen :
    (key k : Text) (now later : ℕ) (d : Dedup)
    → length d.cache < d.max
    → later < now + d.ttl
    → (text_eq key k ≡ true) ⊎ (is_fresh key later d.cache ≡ true)
    → ((seen k now d).0 ≡ true) ⊎ (is_fresh key later (seen k now d).1.cache ≡ true)
is_fresh-seen key k now later d room h known = elim (Bool-cases (is_fresh k now d.cache)) [
  | inl old ↦ inl (ap (λ (p : Bool × Dedup). p.0) (seen-found k now d old))
  | inr new ↦ inr (
      ap (λ (p : Bool × Dedup). is_fresh key later p.1.cache) (seen-put k now d room new)
      ∙ is_fresh-put_expiry key k later (now + d.ttl) d.cache
      ∙ ground (arith, known, h))
]

-- A look adds one key at most.
pub length-seen :
    (k : Text) (now : ℕ) (d : Dedup)
    → length d.cache < d.max
    → (length (seen k now d).1.cache ≤ suc (length d.cache))
      × ((seen k now d).1.max ≡ d.max)
      × ((seen k now d).1.ttl ≡ d.ttl)
length-seen k now d room = elim (Bool-cases (is_fresh k now d.cache)) [
  | inl old ↦ rw (seen-found k now d old) (omega arith, refl, refl)
  | inr new ↦ rw (seen-put k now d room new) (length-put_expiry k (now + d.ttl) d.cache, refl, refl)
]
