-- ===== src/Clock/Servers.antt =====
-- src/ntp.rs, `sync_all`: the loop and the threads that ask the servers, as a step relation. Times are in
-- milliseconds. A server has what its `query` gives; a thread that is not spawned yet, or that has
-- panicked in `query`, is one that has not moved or that gives nothing.
mod Invariant
pub mod Safety
pub mod Answers
pub mod Returns
mod Schedules
use hello_old.Base.{
  ℕ, ◌+◌, ◌≤◌, ◌≡◌, ◌||◌, List, [], ◌∷◌, ◌++◌, Option, none, some, length, ◌==◌, leb, if◌then◌else◌,
}
use hello_old.Clock.Ntp.{F64, Answer, push_answer}

-- The thread of a server: in `query`, with what that will give; after the push; or at its end.
pub data Server (f : F64) : Type 0 where
  asking : Option (Answer f) → Server f
  pushed : Server f
  finished : Server f

-- Where `sync_all` is. `counted` keeps how many threads were finished, `asleep` when the sleep began,
-- and `returned` what was returned.
pub data SyncAt (f : F64) : Type 0 where
  spawning : SyncAt f
  polling : SyncAt f
  counted : ℕ → SyncAt f
  asleep : ℕ → SyncAt f
  leaving : SyncAt f
  returned : List (Answer f) → SyncAt f

-- `shown` is what `on_poll` was called with so far, the last call first.
pub record Sync (f : F64) : Type 0 where
  pub now : ℕ
  pub deadline : ℕ
  pub servers : List (Server f)
  pub results : List (Answer f)
  pub shown : List ℕ
  pub stage : SyncAt f

-- A thread of the list moves on and pushes some answers, one at most.
pub data Advances {f : F64} : List (Server f) → List (Server f) → List (Answer f) → Type 0 where
  fails : (rest : List (Server f)) → Advances (asking none ∷ rest) (finished ∷ rest) []
  pushes :
      (a : Answer f) (rest : List (Server f))
      → Advances (asking (some a) ∷ rest) (pushed ∷ rest) (a ∷ [])
  ends : (rest : List (Server f)) → Advances (pushed ∷ rest) (finished ∷ rest) []
  other :
      (s : Server f) {before after : List (Server f)} {new : List (Answer f)}
      → Advances before after new
      → Advances (s ∷ before) (s ∷ after) new

module _ (f : F64) where
  -- The threads before any of them has moved, for what the queries give.
  unfoldable pub asked : List (Option (Answer f)) → List (Server f)
  asked [] = []
  asked (o ∷ outcomes) = asking o ∷ asked outcomes

  -- The answers among what the queries give.
  unfoldable pub answers_of : List (Option (Answer f)) → List (Answer f)
  answers_of [] = []
  answers_of (o ∷ outcomes) = push_answer f o (answers_of outcomes)

  abbrev pub called : List (Option (Answer f)) → ℕ → Sync f
  called outcomes now = record {
    now = now;
    deadline = now;
    servers = asked outcomes;
    results = [];
    shown = [];
    stage = spawning;
  }

  abbrev pub one_if_finished : Server f → ℕ
  one_if_finished (asking o) = 0
  one_if_finished pushed = 0
  one_if_finished finished = 1

  -- `handles.iter().filter(|h| h.is_finished()).count()`.
  unfoldable pub done : List (Server f) → ℕ
  done [] = 0
  done (s ∷ servers) = one_if_finished s + done servers

  -- The test after `on_poll`.
  unfoldable pub tested : ℕ → ℕ → ℕ → ℕ → SyncAt f
  tested n total deadline now = if n == total || leb deadline now then leaving else asleep now

  -- A thread or the loop moves, or time passes. `polls` counts at one instant: the source looks at one
  -- thread after the other, and as threads only ever become finished, one at a time, what it counts is
  -- the count of some instant in between.
  pub data Turn : Sync f → Sync f → Type 0 where
    passes : (w : Sync f) (ms : ℕ) → Turn w (record w { now = w.now + ms })
    advances :
        (w : Sync f) (after : List (Server f)) (new : List (Answer f))
        → Advances w.servers after new
        → Turn w (record w { servers = after; results = w.results ++ new })
    starts :
        (w : Sync f)
        → w.stage ≡ spawning
        → Turn w (record w { deadline = w.now + 4000; stage = polling })
    polls :
        (w : Sync f)
        → w.stage ≡ polling
        → Turn w (record w { shown = done w.servers ∷ w.shown; stage = counted (done w.servers) })
    tests :
        (w : Sync f) (n : ℕ)
        → w.stage ≡ counted n
        → Turn w (record w { stage = tested n (length w.servers) w.deadline w.now })
    wakes :
        (w : Sync f) (since : ℕ)
        → w.stage ≡ asleep since
        → since + 100 ≤ w.now
        → Turn w (record w { stage = polling })
    returns : (w : Sync f) → w.stage ≡ leaving → Turn w (record w { stage = returned w.results })

  pub data Turns (s : Sync f) : Sync f → Type 0 where
    here : Turns s s
    next : {t u : Sync f} → Turns s t → Turn t u → Turns s u
