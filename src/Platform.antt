-- ===== src/Platform.antt =====
-- What the kernel takes from outside its own sources: random identities and the digest function.
-- The time of each call is an argument of the operations.
use terminal_agent.Base.{ℕ, String, ◌≡◌}
use terminal_agent.Value.{Value}

pub record Platform : Type 0 where
  -- the n-th answer of `str(uuid.uuid4())` in one log
  pub uuid4 : ℕ → String
  pub uuid4_inj : (m n : ℕ) → uuid4 m ≡ uuid4 n → m ≡ n
  -- the n-th answer of `secrets.token_urlsafe(32)` in one broker
  pub token_urlsafe : ℕ → String
  pub token_urlsafe_inj : (m n : ℕ) → token_urlsafe m ≡ token_urlsafe n → m ≡ n
  -- the n-th answer of `uuid.uuid4().hex[:8]` in one coordinator; nothing says that two differ
  pub uuid4_hex8 : ℕ → String
  -- `hashlib.sha256(text.encode()).hexdigest()[:8]`
  pub sha256_hex8 : String → String
  -- `len(json.dumps(v, default=str))`
  pub json_size : Value → ℕ
