-- ===== src/Pipeline/Ingest/Result.antt =====
-- How the reading of material ends, as review_agent/pipeline/ingest_backends/base.py has it.
use review_agent_v.Prelude.{Text}

-- With a value, with IngestRejected and its `user_message`, or with another exception.
pub data Ingest {ℓ} (A : Type ℓ) : Type ℓ where
  accepted : A → Ingest A
  rejected : (user_message : Text) → Ingest A
  raised : (message : Text) → Ingest A

module _ {ℓ κ} {A : Type ℓ} {B : Type κ} where
  infixl 5 ◌>>=◌ ◌>>◌
  abbrev pub ◌>>=◌ : Ingest A → (A → Ingest B) → Ingest B
  accepted a >>= f = f a
  rejected m >>= f = rejected m
  raised m >>= f = raised m

  abbrev pub ◌>>◌ : Ingest A → Ingest B → Ingest B
  m >> n = m >>= λ _. n
