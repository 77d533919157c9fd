-- ===== src/Tests/ClusterTests.antt =====
-- The settings of the cluster finder on registers that keep their values.
use alice_hlt_librorc.Base.{ℕ}

-- The value of a register.
abbrev keeps : ℕ → (ℕ → ℕ) → ℕ
keeps a w = w a
