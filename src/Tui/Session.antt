-- ===== src/Tui/Session.antt =====
-- src/main.rs: the screens at the end of a run, from `fx.finish` on, and those of `refuse`. The seeds of
-- the generators that are made on the way are arguments.
use hello_old.Base.{ℕ, List, Bool, true, false, Option, none, some}
use hello_old.Tui.Screen.{Draw, pure, ◌>>=◌, ◌>>◌, feed, show_cursor}
use hello_old.Tui.Panel.{F32, finish}
use hello_old.Tui.Prompts.{success_sequence}
use hello_old.Tui.Show.{Press, show}
use hello_old.Tui.Burning.{burn_with_progress}

-- How the run ends: `burned` goes on to the deletion of the executable.
pub data Ended : Type 0 where
  burned : Ended
  left_open : Ended
  reading : Ended

module _ (f : F32) where
  unfoldable pub after_show : ℕ → ℕ → Option Bool → Draw Ended
  after_show width height none = pure reading
  after_show width height (some true) = do burn_with_progress f width height; pure burned
  after_show width height (some false) = do show_cursor; pure left_open

  unfoldable pub last_screens : ℕ → ℕ → Bool → List (List ℕ) → List ℕ → List Press → Draw Ended
  last_screens width height is_tty lines unlock_time presses = do
    finish
    success_sequence width height
    feed
    burn ← show width height is_tty lines unlock_time presses
    after_show width height burn

  -- The burning follows whatever the user has chosen.
  unfoldable pub after_refusal : ℕ → ℕ → Option Bool → Draw Ended
  after_refusal width height none = pure reading
  after_refusal width height (some burn) = do burn_with_progress f width height; pure burned

  unfoldable pub refusal_screens : ℕ → ℕ → Bool → List (List ℕ) → List ℕ → List Press → Draw Ended
  refusal_screens width height is_tty lines unlock_time presses = do
    shown ← show width height is_tty lines unlock_time presses
    after_refusal width height shown
