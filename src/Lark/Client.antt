-- ===== src/Lark/Client.antt =====
-- review_agent/lark/token.py and `_request_with_retry` of review_agent/lark/client.py. Times are in seconds.
pub mod Retries
use review_agent_v.Prelude.{
  Text, txt, text_eq, text_eq_iff, text_ne, String, ℕ, zero, suc, ◌+◌, ◌-◌, ◌*◌, ◌/◌, ◌%◌, ◌^◌, ◌≤◌,
  ◌<◌, min, ltb, leb, eqb, Bool, true, false, not, ◌&&◌, ◌||◌, Option, none, some, is_none, List,
  [], ◌∷◌, ◌++◌, length, take, drop, get_elem?, map, filter, any, all, find?, count, All,
  All-append, any-append, length-append, length-take, length-map, take-append-drop, take_all,
  drop_all, length-drop, if◌then◌else◌, is_space, starts_with, ends_with, contains, find_from,
  one_of, strip, lstrip, rstrip, rstrip_if, lstrip_if, ◌≡◌, ◌≢◌, refl, sym, ap, ◌∙◌, ◌⊎◌, ◌↔◌, inl,
  inr, arith, Bool-cases, Option-cases, ltb→lt, lt→ltb, leb→le, eqb_iff,
}
use review_agent_v.Prelude.Json.{ℤ, pos, Json, num, Fields, get}

-- What a body holds.
pub data Body : Type 0 where
  no_json other_json : Body
  dict : Fields → Body

-- An answer of the network: none, or a status and a body.
pub data Response : Type 0 where
  no_answer : Response
  answer : (status : ℕ) → (body : Body) → Response

-- The clock, the tokens that are granted with their seconds of life, and the answers, by number.
pub record Net : Type 0 where
  pub time : ℕ → ℕ
  pub granted : ℕ → Option (Text × ℕ)
  pub response : ℕ → Response

-- TenantTokenCache, and how often the clock was read and requests were made.
pub record Client : Type 0 where
  pub token : Option Text
  pub expires_at : ℕ
  pub reads : ℕ
  pub grants : ℕ
  pub requests : ℕ

pub data Failure : Type 0 where
  token_failed transport_error invalid_json no_get http_error unreachable : Failure

pub data Result : Type 0 where
  returned : Body → Result
  raised : Failure → Result

-- invalidate
unfoldable pub invalidate : Client → Client
invalidate c = record c { token = none; expires_at = 0 }

-- self._token, as a condition
abbrev pub has_token : Option Text → Bool
has_token (some (c ∷ t)) = true
has_token _ = false

abbrev pub granted_token : ℕ → Option (Text × ℕ) → Client → Bool × Client
granted_token now none c = (false, c)
granted_token now (some (t, life)) c =
    (true, record c { token = some t; expires_at = now + life; reads = suc c.reads })

-- The clock is read where a token is there.
abbrev pub read_clock : Bool → Client → Client
read_clock known c = if known then record c { reads = suc c.reads } else c

-- The cached token, or one that is granted.
abbrev pub cached_or_granted : Net → (known : Bool) → Client → Bool × Client
cached_or_granted net known c =
    let c1 = read_clock known c in
    let new =
      granted_token (net.time c1.reads) (net.granted c.grants)
        (record c1 { grants = suc c.grants }) in
    if known && ltb (net.time c.reads + 600) c.expires_at then (true, c1) else new

-- TenantTokenCache.get: whether there is a token, which is then in the cache. The cached one serves until
-- ten minutes before its end.
unfoldable pub get_token : Net → Client → Bool × Client
get_token net c = cached_or_granted net (has_token c.token) c

-- body.get("code") == _TOKEN_EXPIRED
unfoldable pub has_expired_code : Fields → Bool
unfolding get
has_expired_code body = elim (get "code" body) [ some (num (pos n)) ↦ eqb n 99991663 | _ ↦ false ]

abbrev pub is_success : ℕ → Bool
is_success status = leb 200 status && ltb status 300

-- What an answer asks for.
pub data Judgement : Type 0 where
  expired retry : Judgement
  done : Body → Judgement
  fail : Failure → Judgement

-- The tests by the status alone.
abbrev by_status : ℕ → Body → Judgement
by_status status body =
    if is_success status
    then done body
    else if not (eqb status 429) && leb 400 status && ltb status 500
    then fail http_error
    else retry

-- The tests after the request, in their order. The body is asked for its code at status 200 only, and one
-- that is no dict has no `get`.
unfoldable pub judge : Response → Judgement
unfolding has_expired_code
judge no_answer = fail transport_error
judge (answer status no_json) = fail invalid_json
judge (answer status other_json) =
    if eqb status 200 then fail no_get else by_status status other_json
judge (answer status (dict body)) =
    if eqb status 200 && has_expired_code body then expired else by_status status (dict body)

module _ (net : Net) where
  -- What follows an answer, with the attempts that are left and the rest of the loop.
  abbrev pub after_answer :
      (left : ℕ) → (Client → Result × Client) → Judgement → Client → Result × Client
  after_answer left rest expired c = rest (invalidate c)
  after_answer left rest (done body) c = (returned body, c)
  after_answer left rest (fail f) c = (raised f, c)
  after_answer zero rest retry c = (raised http_error, c)
  after_answer (suc left) rest retry c = rest c

  abbrev pub send : (left : ℕ) → (Client → Result × Client) → Bool × Client → Result × Client
  send left rest (false, c) = (raised token_failed, c)
  send left rest (true, c) =
      after_answer left rest (judge (net.response c.requests))
        (record c { requests = suc c.requests })

  -- The loop, by the attempts that are left.
  unfoldable pub request_attempts : (left : ℕ) → Client → Result × Client
  unfolding judge get_token invalidate
  request_attempts zero c = (raised unreachable, c)
  request_attempts (suc left) c = send left (request_attempts left) (get_token net c)

  -- _request_with_retry, with _MAX_ATTEMPTS
  unfoldable pub request_with_retry : Client → Result × Client
  unfolding request_attempts
  request_with_retry c = request_attempts 4 c
