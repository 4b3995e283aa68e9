-- ===== src/Tui/Pace/Heartbeat.antt =====
-- The screens of Session, and what the watchdog of src/watchdog.rs makes of their heartbeats.
use hello_old.Base.{
  ℕ, ◌/◌, ◌≤◌, ◌≡◌, refl, inr, arith, List, [], ◌∷◌, Bool, true, false, Option, none, some, All,
}
use hello_old.Tui.Screen.{Draw, pure, ◌>>◌}
use hello_old.Tui.Burning.{burn_with_progress}
use hello_old.Tui.Pace.Waits.{TimelyPress}
use hello_old.Tui.Show.{Press}
use hello_old.Tui.Pace.{Paced, unfed_times, ◌▹◌, bind-Paced, pure-Paced, feed-Paced, relax, sooner}
use hello_old.Tui.Panel.{F32}
use hello_old.Tui.Session.{Ended, burned, after_show, last_screens, after_refusal, refusal_screens}
use hello_old.Tui.Pace.Reading.{show-Paced}
use hello_old.Tui.Pace.Sequences.{finish-Paced, success_sequence-Paced}
use hello_old.Tui.Pace.Burn.{burn_with_progress-Paced}
use hello_old.Host.Watchdog.{Round, Healthy, watch, watching, watch-Healthy}
use hello_old.Tui.Pace.Screens.{show_cursor-Paced}

module _ (f : F32) where
  burned-Paced :
      (width height : ℕ) (ended : Ended)
      → Paced 60400 60000 (burn_with_progress f width height >> pure ended) 60000
  burned-Paced width height ended =
      burn_with_progress-Paced f (omega arith) (omega arith) width height
      ▹ relax 60000 (pure-Paced _) (omega arith) (omega arith)

  after_show-Paced :
      (width height : ℕ) (burn : Option Bool)
      → Paced 60400 60000 (after_show f width height burn) 60000
  unfolding after_show
  after_show-Paced width height none = pure-Paced _
  after_show-Paced width height (some true) = burned-Paced width height burned
  after_show-Paced width height (some false) = show_cursor-Paced ▹ pure-Paced _

  after_refusal-Paced :
      (width height : ℕ) (burn : Option Bool)
      → Paced 60400 60000 (after_refusal f width height burn) 60000
  unfolding after_refusal
  after_refusal-Paced width height none = pure-Paced _
  after_refusal-Paced width height (some burn) = burned-Paced width height burned

  module _ (width height : ℕ) (is_tty : Bool) (lines : List (List ℕ)) (unlock_time : List ℕ)
      (presses : List Press) (timely : All (TimelyPress 60000) presses) where
    last_screens-Paced :
        Paced 60400 50 (last_screens f width height is_tty lines unlock_time presses) 60000
    unfolding last_screens
    last_screens-Paced =
        finish-Paced (omega arith)
        ▹ sooner 50 (success_sequence-Paced width height (omega arith)) (omega arith) (omega arith)
        ▹ feed-Paced
        ▹ bind-Paced
            (show-Paced 60000 (omega arith) width height is_tty lines unlock_time presses
              (omega arith) timely)
            (after_show-Paced width height)

    refusal_screens-Paced :
        Paced 60400 0 (refusal_screens f width height is_tty lines unlock_time presses) 60000
    unfolding refusal_screens
    refusal_screens-Paced =
        bind-Paced
          (show-Paced 60000 (omega arith) width height is_tty lines unlock_time presses
            (omega arith) timely)
          (after_refusal-Paced width height)

-- What the watchdog sees `t` milliseconds after a heartbeat, when nothing else is wrong.
abbrev pub seen : List ℕ → List ℕ → ℕ → Round
seen exe_sha expected t = record {
  running = true;
  elapsed = t / 1000;
  tracer_pid = 0;
  exe_sha = some exe_sha;
  key_sha = expected;
}

-- One reading_round of the watchdog for each of the times.
unfoldable pub rounds_at : List ℕ → List ℕ → List ℕ → List Round
rounds_at exe_sha expected [] = []
rounds_at exe_sha expected (t ∷ times) = seen exe_sha expected t ∷ rounds_at exe_sha expected times

rounds_at-Healthy :
    (exe_sha expected : List ℕ) (times : List ℕ)
    → All (λ t. t ≤ 60400) times
    → All (λ r. (r.running ≡ true) × Healthy exe_sha expected r) (rounds_at exe_sha expected times)
unfolding rounds_at
rounds_at-Healthy exe_sha expected [] h = tt
rounds_at-Healthy exe_sha expected (t ∷ times) h = (
  (
    refl,
    record { fed = omega (arith, h.0); untraced = refl; same_exe = inr refl; same_key = refl },
  ),
  rounds_at-Healthy exe_sha expected times h.1,
)

module _ (f : F32) (exe_sha expected : List ℕ) (key_len width height : ℕ) (is_tty : Bool)
    (lines : List (List ℕ)) (unlock_time : List ℕ) (presses : List Press) (seed : ℕ) where
  watched :
      {A : Type 0} (t u : ℕ) (m : Draw A)
      → Paced 60400 t m u
      → t ≤ 60400
      → key_len ≤ 64
      → watch exe_sha expected key_len (rounds_at exe_sha expected (unfed_times t (m seed).0))
        ≡ watching
  watched t u m p inside fits =
      (watch-Healthy exe_sha expected key_len _ fits).1
        (rounds_at-Healthy exe_sha expected _ (p.runs t seed (omega arith) inside).0)

  -- The screens of the end of a run, begun at most 50 ms after a heartbeat, and those of a refusal,
  -- begun just after one, do not let the watchdog fire, whatever is shown, if no wait for a key leaves it
  -- without a heartbeat for more than 60 seconds: at every event of the drawing the last heartbeat is
  -- recent enough. A wait sends one after 100 ms in which nothing comes; it sends none for a byte that is
  -- no key, and none while it waits for the rest of an escape sequence. The time that counts is what is
  -- slept and what is waited. Nothing else is wrong, and the key buffer has at most 64 bytes.
  pub screens-watched :
      (t : ℕ)
      → All (TimelyPress 60000) presses
      → t ≤ 50
      → key_len ≤ 64
      → (watch exe_sha expected key_len (
            rounds_at exe_sha expected
              (unfed_times t (last_screens f width height is_tty lines unlock_time presses seed).0))
          ≡ watching)
        × (watch exe_sha expected key_len (
              rounds_at exe_sha expected (
                unfed_times 0
                  (refusal_screens f width height is_tty lines unlock_time presses seed).0))
            ≡ watching)
  screens-watched t timely soon fits = (
    watched t 60000 _
        (sooner 50 (last_screens-Paced f width height is_tty lines unlock_time presses timely) soon
          (omega arith))
        (omega arith) fits,
    watched 0 60000 _ (refusal_screens-Paced f width height is_tty lines unlock_time presses timely)
        (omega arith) fits,
  )
