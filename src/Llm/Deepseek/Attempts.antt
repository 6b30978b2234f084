-- ===== src/Llm/Deepseek/Attempts.antt =====
-- How the loop of attempts ends.
use review_agent_v.Prelude.{ℕ, suc, ◌≤◌, ◌<◌, ◌≡◌}
use review_agent_v.Llm.Deepseek.{
  Response, Chat, content, caught, uncaught, returned, terminal_failure, other_exception, try_once,
}

-- All attempts from `n` on before `m` failed in a way that is caught.
abbrev pub AllCaught : (response : ℕ → Response) → (n m : ℕ) → Type 0
AllCaught response n m = (i : ℕ) → n ≤ i → i < m → try_once (response i) ≡ caught

-- The end with so many requests in all: the last one decided it, or none was left.
abbrev pub IsChatEnd : (response : ℕ → Response) → (n limit : ℕ) → Chat × ℕ → Type 0
IsChatEnd response n limit (returned t, m) =
    (k : ℕ) × (m ≡ suc k)
    × (k < limit)
    × AllCaught response n k
    × (try_once (response k) ≡ content t)
IsChatEnd response n limit (terminal_failure, m) = (m ≡ limit) × AllCaught response n limit
IsChatEnd response n limit (other_exception, m) =
    (k : ℕ) × (m ≡ suc k)
    × (k < limit)
    × AllCaught response n k
    × (try_once (response k) ≡ uncaught)
