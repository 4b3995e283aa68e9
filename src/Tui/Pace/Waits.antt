-- ===== src/Tui/Pace/Waits.antt =====
-- The pace of the waits for a key in src/tui.rs, `nav_wait` and `confirm_burn`.
use hello_old.Base.{ℕ, ◌+◌, ◌≤◌, arith, List, [], ◌∷◌, Option, none, some}
use hello_old.Tui.Keys.{Poll, ready, closed, quiet, failed, NavKey, decode}
use hello_old.Tui.Screen.{Draw, pure, ◌>>◌, sleep}
use hello_old.Tui.Dialog.{wait_confirm}
use hello_old.Tui.Show.{Press, or_later, wait_key}
use hello_old.Tui.Pace.{Paced, ◌▹◌, pure-Paced, sleep-Paced, feed-Paced, relax}

-- What is asked of the rest of a wait, unless the key has come.
abbrev pub UnlessKey : Option NavKey → Type 0 → Type 0
UnlessKey none Rest = Rest
UnlessKey (some key) Rest = Unit

-- From `lag` milliseconds after a heartbeat, at most `most` pass until the next, or the end of the
-- wait: a byte that is no key sends none, nor does the wait for the rest of an escape sequence.
unfoldable pub Timely : ℕ → ℕ → List Poll → Type 0
Timely most lag [] = Unit
Timely most lag (ready ms b seq ∷ polls) =
    (lag + ms ≤ most) × UnlessKey (decode b seq) (Timely most (lag + ms) polls)
Timely most lag (closed ms ∷ polls) = lag + ms ≤ most
Timely most lag (quiet ∷ polls) = (lag + 100 ≤ most) × Timely most 0 polls
Timely most lag (failed ms ∷ polls) = lag + ms ≤ most

-- The same of the wait for the letter of a burn, which any byte ends.
unfoldable pub TimelyAnswer : ℕ → ℕ → List Poll → Type 0
TimelyAnswer most lag [] = Unit
TimelyAnswer most lag (ready ms b seq ∷ polls) = lag + ms ≤ most
TimelyAnswer most lag (closed ms ∷ polls) = lag + ms ≤ most
TimelyAnswer most lag (quiet ∷ polls) = (lag + 100 ≤ most) × TimelyAnswer most 0 polls
TimelyAnswer most lag (failed ms ∷ polls) = lag + ms ≤ most

abbrev pub TimelyPress : ℕ → Press → Type 0
TimelyPress most press = Timely most 0 press.polls × TimelyAnswer most 0 press.answer

module _ {limit : ℕ} (most : ℕ) (fits : most ≤ limit) where
  -- Some time that is waited, with nothing to draw after it.
  waited :
      {A : Type 0} (a : A) (lag ms : ℕ)
      → lag + ms ≤ most
      → Paced limit lag (sleep ms >> pure a) most
  waited a lag ms less = relax most (sleep-Paced ms (omega arith) ▹ pure-Paced _) less fits

  pub wait_confirm-Paced :
      (lag target : ℕ) (polls : List Poll)
      → lag ≤ most
      → TimelyAnswer most lag polls
      → Paced limit lag (wait_confirm target polls) most
  unfolding wait_confirm TimelyAnswer
  wait_confirm-Paced lag target [] now h = relax most (pure-Paced _) now fits
  wait_confirm-Paced lag target (ready ms b seq ∷ polls) now h = waited _ lag ms h
  wait_confirm-Paced lag target (closed ms ∷ polls) now h = waited _ lag ms h
  wait_confirm-Paced lag target (quiet ∷ polls) now (soon, h) =
      sleep-Paced 100 (omega arith) ▹ feed-Paced ▹ wait_confirm-Paced 0 target polls (omega arith) h
  wait_confirm-Paced lag target (failed ms ∷ polls) now h = waited _ lag ms h

  or_later-Paced :
      (lag : ℕ) (key : Option NavKey) {Rest : Type 0} {later : Draw (Option NavKey)}
      → lag ≤ most
      → (Rest → Paced limit lag later most)
      → UnlessKey key Rest
      → Paced limit lag (or_later key later) most
  or_later-Paced lag none now p h = p h
  or_later-Paced lag (some key) now p h = relax most (pure-Paced _) now fits

  pub wait_key-Paced :
      (lag : ℕ) (polls : List Poll)
      → lag ≤ most
      → Timely most lag polls
      → Paced limit lag (wait_key polls) most
  unfolding wait_key Timely
  wait_key-Paced lag [] now h = relax most (pure-Paced _) now fits
  wait_key-Paced lag (ready ms b seq ∷ polls) now (soon, h) =
      sleep-Paced ms (omega arith)
      ▹ or_later-Paced (lag + ms) (decode b seq) soon
          (λ rest. wait_key-Paced (lag + ms) polls soon rest) h
  wait_key-Paced lag (closed ms ∷ polls) now h = waited _ lag ms h
  wait_key-Paced lag (quiet ∷ polls) now (soon, h) =
      sleep-Paced 100 (omega arith) ▹ feed-Paced ▹ wait_key-Paced 0 polls (omega arith) h
  wait_key-Paced lag (failed ms ∷ polls) now h = waited _ lag ms h
