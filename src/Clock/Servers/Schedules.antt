-- ===== src/Clock/Servers/Schedules.antt =====
-- Some runs of `sync_all` of src/ntp.rs, with natural numbers in place of f64.
use hello_old.Base.{
  ◌+◌, ◌≤◌, ◌≡◌, ◌⊎◌, refl, arith, false, List, [], ◌∷◌, ◌++◌, Option, none, some, length,
}
use mathlib.Core.List.{Permᴰ}
use hello_old.Clock.Ntp.{Answer}
use hello_old.Clock.Toy.{naturals, naturals-Orders}
use hello_old.Clock.Consensus.{consensus}
use hello_old.Clock.Sorting.{less}
use hello_old.Clock.Servers.{
  asking, pushed, finished, asleep, returned, Sync, fails, pushes, ends, other, asked, answers_of,
  called, done, tested, passes, advances, starts, polls, tests, returns, Turns, here, next,
}
use hello_old.Clock.Servers.Safety.{sync_all-Permᴰ, sync_all-agrees}
use hello_old.Clock.Servers.Returns.{sync_all-returns}

abbrev near : Answer naturals
near = record { now = 1000; drift = 2 }

-- The first server answers, and the second does not.
abbrev outcomes : List (Option (Answer naturals))
outcomes = some near ∷ none ∷ []

-- Both threads are at their end before the first poll.
abbrev at_once : Sync naturals
at_once = record {
  now = 0;
  deadline = 4000;
  servers = finished ∷ finished ∷ [];
  results = near ∷ [];
  shown = 2 ∷ [];
  stage = returned (near ∷ []);
}

both_end : Turns naturals (called naturals outcomes 0) at_once
unfolding asked done tested
both_end =
    next
      (next
        (next
          (next
            (next (next (next here (starts _ refl)) (advances _ _ _ (pushes near _)))
              (advances _ _ _ (other pushed (fails []))))
            (advances _ _ _ (ends _)))
          (polls _ refl))
        (tests _ 2 refl))
      (returns _ refl)

-- No thread ends, and the deadline passes.
abbrev too_late : Sync naturals
too_late = record {
  now = 4000;
  deadline = 4000;
  servers = asking (some near) ∷ asking none ∷ [];
  results = [];
  shown = 0 ∷ [];
  stage = returned [];
}

none_ends : Turns naturals (called naturals outcomes 0) too_late
unfolding asked done tested
none_ends =
    next
      (next (next (next (next here (starts _ refl)) (polls _ refl)) (passes _ 4000))
        (tests _ 0 refl))
      (returns _ refl)

-- The first poll is over, and both threads are in `query`.
abbrev waiting : Sync naturals
waiting = record {
  now = 0;
  deadline = 4000;
  servers = asking (some near) ∷ asking none ∷ [];
  results = [];
  shown = 0 ∷ [];
  stage = asleep 0;
}

first_poll : Turns naturals (called naturals outcomes 0) waiting
unfolding asked done tested
first_poll = next (next (next here (starts _ refl)) (polls _ refl)) (tests _ 0 refl)

sync_all-Permᴰ_example :
    (length at_once.shown ≤ 41)
    × (Permᴰ (near ∷ []) (answers_of naturals outcomes)
        ⊎ ((4000 ≤ 0)
            × ((late : List (Answer naturals)) × Permᴰ
                  (near ∷ [] ++ late)
                  (answers_of naturals outcomes))))
sync_all-Permᴰ_example = sync_all-Permᴰ naturals outcomes 0 at_once (near ∷ []) both_end refl

sync_all-agrees_example :
    ((consensus naturals (near ∷ []) ≡ none)
      × (consensus naturals (answers_of naturals outcomes) ≡ none))
    ⊎ ((x : Answer naturals) × (y : Answer naturals) × (consensus naturals (near ∷ []) ≡ some x)
        × (consensus naturals (answers_of naturals outcomes) ≡ some y)
        × (less naturals x y ≡ false)
        × (less naturals y x ≡ false))
sync_all-agrees_example =
    sync_all-agrees naturals naturals-Orders outcomes 0 at_once (near ∷ []) both_end refl
      (omega arith)

sync_all-returns_example :
    (v : Sync naturals) × (results : List (Answer naturals)) × Turns naturals waiting v
    × (v.stage ≡ returned results)
    × (v.servers ≡ waiting.servers)
    × (v.now ≤ waiting.now + 4100)
sync_all-returns_example = sync_all-returns naturals outcomes 0 waiting first_poll
