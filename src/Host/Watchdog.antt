-- ===== src/Host/Watchdog.antt =====
-- src/watchdog.rs, the thread of `start`, as a function of what it sees in each of its rounds.
use hello_old.Base.{
  ℕ, ◌≤◌, ◌≡◌, refl, ◌↔◌, ◌⊎◌, Bool, true, false, inl, inr, not, ◌||◌, List, [], ◌∷◌, ltb, ltb→le,
  le→ltb, if◌then◌else◌, Option, none, some, All, arith,
}
use hello_old.Siv.Cipher.{eq_bytes}
use hello_old.Siv.Authentic.{eq_bytes_self, eq_of_eq_bytes}

-- One round: whether `stop` was called before it, the seconds since the last heartbeat, the tracer,
-- the hash of the executable (`none` if it cannot be looked up) and the hash of the key buffer.
pub record Round : Type 0 where
  pub running : Bool
  pub elapsed : ℕ
  pub tracer_pid : ℕ
  pub exe_sha : Option (List ℕ)
  pub key_sha : List ℕ

-- `destroyed` has called `self_destruct`; `stopped` has left the loop; `watching` goes on.
pub data Watch : Type 0 where
  destroyed : Watch
  stopped : Watch
  watching : Watch

abbrev pub exe_changed : List ℕ → Option (List ℕ) → Bool
exe_changed exe_sha none = false
exe_changed exe_sha (some now) = not (eq_bytes now exe_sha)

-- The checks of a round, in the order of the source.
unfoldable pub alarm : List ℕ → List ℕ → ℕ → Round → Bool
alarm exe_sha expected key_len r =
    (ltb 60 r.elapsed || ltb 0 r.tracer_pid)
    || (exe_changed exe_sha r.exe_sha || (ltb 64 key_len || not (eq_bytes r.key_sha expected)))

unfoldable pub watch : List ℕ → List ℕ → ℕ → List Round → Watch
watch exe_sha expected key_len [] = watching
watch exe_sha expected key_len (r ∷ rounds) =
    if r.running
    then (if alarm exe_sha expected key_len r
        then destroyed
        else watch exe_sha expected key_len rounds)
    else stopped

-- A round in which nothing is wrong.
pub record Healthy (exe_sha expected : List ℕ) (r : Round) : Type 0 where
  pub fed : r.elapsed ≤ 60
  pub untraced : r.tracer_pid ≡ 0
  pub same_exe : (r.exe_sha ≡ none) ⊎ (r.exe_sha ≡ some exe_sha)
  pub same_key : r.key_sha ≡ expected

or_false : (a b : Bool) → (a || b) ≡ false → (a ≡ false) × (b ≡ false)
or_false true b h = cc
or_false false b h = (refl, h)

not-false : (b : Bool) → not b ≡ false → b ≡ true
not-false true h = refl
not-false false h = cc

exe_same :
    (exe_sha : List ℕ) (seen : Option (List ℕ))
    → exe_changed exe_sha seen ≡ false
    → (seen ≡ none) ⊎ (seen ≡ some exe_sha)
exe_same exe_sha none h = inl refl
exe_same exe_sha (some now) h =
    let same = eq_of_eq_bytes now exe_sha (not-false _ h) in inr (rw same refl)

-- No alarm means that the round is healthy.
alarm-Healthy :
    (exe_sha expected : List ℕ) (key_len : ℕ) (r : Round)
    → alarm exe_sha expected key_len r ≡ false
    → Healthy exe_sha expected r
unfolding alarm
alarm-Healthy exe_sha expected key_len r h =
    let (first, h1) = or_false (ltb 60 r.elapsed || ltb 0 r.tracer_pid) _ h in
    let (fed, traced) = or_false (ltb 60 r.elapsed) _ first in
    let (exe, h2) = or_false (exe_changed exe_sha r.exe_sha) _ h1 in
    let (_, key) = or_false (ltb 64 key_len) _ h2 in
    record {
      fed = ltb→le 60 r.elapsed fed;
      untraced = zero_of_le (ltb→le 0 r.tracer_pid traced);
      same_exe = exe_same exe_sha r.exe_sha exe;
      same_key = eq_of_eq_bytes r.key_sha expected (not-false _ key);
    }
  where
    zero_of_le : {n : ℕ} → n ≤ 0 → n ≡ 0
    zero_of_le h = omega arith

exe_kept :
    (exe_sha : List ℕ) (seen : Option (List ℕ))
    → (seen ≡ none) ⊎ (seen ≡ some exe_sha)
    → exe_changed exe_sha seen ≡ false
exe_kept exe_sha seen (inl gone) = rw gone refl
exe_kept exe_sha seen (inr same) = rw (same, eq_bytes_self exe_sha) refl

-- A healthy round raises no alarm.
Healthy-alarm :
    (exe_sha expected : List ℕ) (key_len : ℕ) (r : Round)
    → key_len ≤ 64
    → Healthy exe_sha expected r
    → alarm exe_sha expected key_len r ≡ false
unfolding alarm
Healthy-alarm exe_sha expected key_len r fits h =
    rw
      (
        le→ltb 60 r.elapsed h.fed,
        h.untraced,
        exe_kept exe_sha r.exe_sha h.same_exe,
        le→ltb 64 key_len fits,
        h.same_key,
        eq_bytes_self expected,
      )
      refl

passes :
    (running alarm : Bool) (rest : Watch)
    → (if running then (if alarm then destroyed else rest) else stopped) ≡ watching
    → (running ≡ true) × (alarm ≡ false) × (rest ≡ watching)
passes false alarm rest h = cc
passes true true rest h = cc
passes true false rest h = (refl, refl, h)

-- The watchdog goes on exactly as long as every round was healthy and `stop` was not called: the
-- heartbeat came within 60 seconds, no tracer was attached, and the executable, where it could be
-- looked up, and the keys were what they were at the start. This is so for a buffer of at most 64
-- bytes.
pub watch-Healthy :
    (exe_sha expected : List ℕ) (key_len : ℕ) (rounds : List Round)
    → key_len ≤ 64
    → (watch exe_sha expected key_len rounds ≡ watching)
      ↔ All (λ r. (r.running ≡ true) × Healthy exe_sha expected r) rounds
unfolding watch
watch-Healthy exe_sha expected key_len [] fits = (λ h. tt, λ h. refl)
watch-Healthy exe_sha expected key_len (r ∷ rounds) fits =
    let (all, on) = watch-Healthy exe_sha expected key_len rounds fits in
    (
      λ h.
          let (running, quiet, rest) =
            passes r.running (alarm exe_sha expected key_len r)
              (watch exe_sha expected key_len rounds) h in
          ((running, alarm-Healthy exe_sha expected key_len r quiet), all rest),
      λ h. rw (watch, Healthy-alarm exe_sha expected key_len r fits h.0.1, h.0.0) (on h.1),
    )
