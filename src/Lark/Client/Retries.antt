-- ===== src/Lark/Client/Retries.antt =====
-- How often a request is made, and the end that was thought to be unreachable.
use review_agent_v.Prelude.{
  Text, ℕ, zero, suc, ◌+◌, ◌≤◌, ltb, Bool, true, false, Option, none, some, ◌≡◌, ◌≢◌, refl, inl,
  inr, arith, Bool-cases,
}
use review_agent_v.Lark.Client.{
  Net, Client, Result, raised, unreachable, Judgement, expired, retry, done, fail, judge, get_token,
  cached_or_granted, has_token, granted_token, invalidate, after_answer, send, request_attempts,
  request_with_retry,
}

false≢true : false ≢ true
false≢true h = cc

granted_requests :
    (now : ℕ) (g : Option (Text × ℕ)) (c : Client) → (granted_token now g c).1.requests ≡ c.requests
granted_requests now none c = refl
granted_requests now (some (t, life)) c = refl

cached_requests :
    (net : Net) (known : Bool) (c : Client)
    → (cached_or_granted net known c).1.requests ≡ c.requests
cached_requests net true c = elim (Bool-cases (ltb (net.time c.reads + 600) c.expires_at)) [
  | inl serves ↦ rw serves refl
  | inr ends ↦ rw ends (
      granted_requests _ (net.granted c.grants)
        (record c { reads = suc c.reads; grants = suc c.grants }))
]
cached_requests net false c =
    granted_requests _ (net.granted c.grants) (record c { grants = suc c.grants })

get_token_requests : (net : Net) (c : Client) → (get_token net c).1.requests ≡ c.requests
unfolding get_token
get_token_requests net c = cached_requests net (has_token c.token) c

after_answer_bounded :
    (net : Net) (left : ℕ) (rest : Client → Result × Client) (v : Judgement) (c : Client)
    → ((x : Client) → (rest x).1.requests ≤ x.requests + left)
    → (after_answer net left rest v c).1.requests ≤ c.requests + left
unfolding invalidate
after_answer_bounded net left rest expired c h = h (invalidate c)
after_answer_bounded net left rest (done body) c h = omega arith
after_answer_bounded net left rest (fail f) c h = omega arith
after_answer_bounded net zero rest retry c h = omega arith
after_answer_bounded net (suc left) rest retry c h = h c

send_bounded :
    (net : Net) (left : ℕ) (rest : Client → Result × Client) (p : Bool × Client)
    → ((x : Client) → (rest x).1.requests ≤ x.requests + left)
    → (send net left rest p).1.requests ≤ p.1.requests + suc left
send_bounded net left rest (false, c) h = omega arith
send_bounded net left rest (true, c) h = omega (
  arith,
  after_answer_bounded net left rest (judge (net.response c.requests))
      (record c { requests = suc c.requests }) h,
)

request_attempts_bounded :
    (net : Net) (left : ℕ) (c : Client)
    → (request_attempts net left c).1.requests ≤ c.requests + left
unfolding request_attempts
request_attempts_bounded net zero c = omega arith
request_attempts_bounded net (suc left) c = omega (
  arith,
  send_bounded net left (request_attempts net left) (get_token net c)
      (request_attempts_bounded net left),
  get_token_requests net c,
)

-- A call sends four requests at most, whatever comes back.
pub request_with_retry_bounded :
    (net : Net) (c : Client) → (request_with_retry net c).1.requests ≤ c.requests + 4
unfolding request_with_retry
request_with_retry_bounded net c = request_attempts_bounded net 4 c

cached_granted :
    (net : Net) (known : Bool) (c : Client) (t : Text) (life : ℕ)
    → net.granted c.grants ≡ some (t, life)
    → (cached_or_granted net known c).0 ≡ true
cached_granted net true c t life h = elim (Bool-cases (ltb (net.time c.reads + 600) c.expires_at)) [
  | inl serves ↦ rw serves refl
  | inr ends ↦ rw (ends, h) refl
]
cached_granted net false c t life h = rw h refl

get_token_granted :
    (net : Net) (c : Client) (t : Text) (life : ℕ)
    → net.granted c.grants ≡ some (t, life)
    → (get_token net c).0 ≡ true
unfolding get_token
get_token_granted net c t life h = cached_granted net (has_token c.token) c t life h

send_expired :
    (net : Net) (left : ℕ) (rest : Client → Result × Client) (p : Bool × Client)
    → p.0 ≡ true
    → ((n : ℕ) → judge (net.response n) ≡ expired)
    → ((x : Client) → (rest x).0 ≡ raised unreachable)
    → (send net left rest p).0 ≡ raised unreachable
send_expired net left rest (true, c) t e h =
    rw (e c.requests) (h (invalidate (record c { requests = suc c.requests })))
send_expired net left rest (false, c) t e h = absurd (false≢true t)

request_attempts_expired :
    (net : Net) (left : ℕ) (c : Client)
    → ((n : ℕ) → judge (net.response n) ≡ expired)
    → ((n : ℕ) → (t : Text) × (life : ℕ) × (net.granted n ≡ some (t, life)))
    → (request_attempts net left c).0 ≡ raised unreachable
unfolding request_attempts
request_attempts_expired net zero c e g = refl
request_attempts_expired net (suc left) c e g =
    let (t, life, h) = g c.grants in
    send_expired net left (request_attempts net left) (get_token net c)
      (get_token_granted net c t life h) e λ x. request_attempts_expired net left x e g

-- Where a token is granted each time it is asked for, and every answer says that the token has
-- expired, a request ends with the exception behind the loop.
pub expired_tokens_reach_the_end :
    (net : Net) (c : Client)
    → ((n : ℕ) → judge (net.response n) ≡ expired)
    → ((n : ℕ) → (t : Text) × (life : ℕ) × (net.granted n ≡ some (t, life)))
    → (request_with_retry net c).0 ≡ raised unreachable
unfolding request_with_retry
expired_tokens_reach_the_end net c e g = request_attempts_expired net 4 c e g
