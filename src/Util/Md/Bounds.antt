-- ===== src/Util/Md/Bounds.antt =====
-- A quoted range of lines is short.
use review_agent_v.Prelude.{
  Text, ℕ, ◌-◌, ◌≤◌, ◌<◌, length, take, length-append, length-take, txt, arith,
}
use review_agent_v.Util.Md.{shorten}

pub length-shorten-le : (n : ℕ) (chunk : Text) → 0 < n → length (shorten n chunk) ≤ n
unfolding shorten
length-shorten-le n chunk h =
    ground (arith, length-append (take (n - 1) chunk) (txt "…"), length-take (n - 1) chunk)
