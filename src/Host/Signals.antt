-- ===== src/Host/Signals.antt =====
-- src/signal.rs: the signals that are ignored, and the calls that do it.
use hello_old.Base.{ℕ, List, [], ◌∷◌, ◌++◌}

pub data Call : Type 0 where
  sigaction_ignore : ℕ → Call
  signal_ignore : ℕ → Call

-- SIGINT, SIGTERM, SIGHUP, SIGQUIT and SIGTSTP; SIGPIPE.
abbrev pub user_signals : List ℕ
user_signals = 2 ∷ 15 ∷ 1 ∷ 3 ∷ 20 ∷ []

abbrev pub sigpipe : ℕ
sigpipe = 13

abbrev pub sigactions : List ℕ → List Call
sigactions [] = []
sigactions (sig ∷ signals) = sigaction_ignore sig ∷ sigactions signals

unfoldable pub ignore : List Call
ignore = sigactions user_signals ++ signal_ignore sigpipe ∷ []
