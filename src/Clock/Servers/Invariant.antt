-- ===== src/Clock/Servers/Invariant.antt =====
-- src/ntp.rs, `sync_all`: what every step of the loop and of its threads keeps.
use hello_old.Base.{
  ℕ, ◌+◌, ◌*◌, ◌≤◌, ◌<◌, ◌≡◌, refl, arith, ◌⊎◌, inl, inr, Bool-cases, true, false, List, [], ◌∷◌,
  ◌++◌, Option, none, some, length, append_assoc, ◌==◌, leb, leb→le,
}
use mathlib.Core.List.Permᴰ
use mathlib.Core.List.{Permᴰ}
use hello_old.Clock.Ntp.{F64, Answer, push_answer}
use hello_old.Clock.Servers.{
  Server, asking, pushed, finished, SyncAt, spawning, polling, counted, asleep, leaving, returned,
  Sync, Advances, fails, pushes, ends, other, asked, answers_of, called, done, tested, Turn, passes,
  advances, starts, polls, tests, wakes, returns, Turns, here, next,
}

module _ (f : F64) where
  -- The answers that are not pushed yet.
  unfoldable pub left : List (Server f) → List (Answer f)
  left [] = []
  left (asking o ∷ servers) = push_answer f o (left servers)
  left (pushed ∷ servers) = left servers
  left (finished ∷ servers) = left servers

  -- What holds where the loop is: the deadline bounds the calls of `on_poll`, and the loop is left when
  -- every thread is finished or at the deadline.
  unfoldable pub StageOk : List (Answer f) → Sync f → SyncAt f → Type 0
  StageOk all w spawning = w.shown ≡ []
  StageOk all w polling = (length w.shown * 100 + w.deadline ≤ w.now + 4000) × (length w.shown ≤ 40)
  StageOk all w (counted n) =
      (length w.shown * 100 + w.deadline ≤ w.now + 4100)
      × (length w.shown ≤ 41)
      × (n ≤ done f w.servers)
  StageOk all w (asleep since) =
      (length w.shown * 100 + w.deadline ≤ since + 4100) × (since < w.deadline) × (since ≤ w.now)
  StageOk all w leaving =
      (length w.shown ≤ 41) × ((length w.servers ≤ done f w.servers) ⊎ (w.deadline ≤ w.now))
  StageOk all w (returned results) =
      (length w.shown ≤ 41)
      × (Permᴰ results all
          ⊎ ((w.deadline ≤ w.now) × ((late : List (Answer f)) × Permᴰ (results ++ late) all)))

  pub record Inv (all : List (Answer f)) (w : Sync f) : Type 0 where
    pub kept : Permᴰ (w.results ++ left w.servers) all
    pub stage_ok : StageOk all w w.stage

  Advances-length :
      {before after : List (Server f)} {new : List (Answer f)}
      → Advances before after new
      → length after ≡ length before
  Advances-length (fails rest) = refl
  Advances-length (pushes a rest) = refl
  Advances-length (ends rest) = refl
  Advances-length (other s h) = let same = Advances-length h in omega arith

  Advances-done :
      {before after : List (Server f)} {new : List (Answer f)}
      → Advances before after new
      → done f before ≤ done f after
  unfolding done
  Advances-done (fails rest) = omega arith
  Advances-done (pushes a rest) = omega arith
  Advances-done (ends rest) = omega arith
  Advances-done (other s h) = let more = Advances-done h in omega arith

  -- An answer leaves a thread for the list.
  Advances-left :
      {before after : List (Server f)} {new : List (Answer f)}
      → Advances before after new
      → Permᴰ (new ++ left after) (left before)
  unfolding left
  Advances-left (fails rest) = Permᴰ.refl (left rest)
  Advances-left (pushes a rest) = Permᴰ.refl (a ∷ left rest)
  Advances-left (ends rest) = Permᴰ.refl (left rest)
  Advances-left (other (asking none) h) = Advances-left h
  Advances-left (other (asking (some b)) {before} {after} {new} h) =
      Permᴰ.trans (Permᴰ.middle b new (left after)) (Permᴰ.cons refl (Advances-left h))
  Advances-left (other pushed h) = Advances-left h
  Advances-left (other finished h) = Advances-left h

  -- At most as many threads are finished as there are, and when all are then no answer is left.
  done-bound : (servers : List (Server f)) → done f servers ≤ length servers
  unfolding done
  done-bound [] = omega arith
  done-bound (asking o ∷ servers) = let fits = done-bound servers in omega arith
  done-bound (pushed ∷ servers) = let fits = done-bound servers in omega arith
  done-bound (finished ∷ servers) = let fits = done-bound servers in omega arith

  left-done : (servers : List (Server f)) → length servers ≤ done f servers → left servers ≡ []
  unfolding left done
  left-done [] h = refl
  left-done (asking o ∷ servers) h = let fits = done-bound servers in absurd (omega arith)
  left-done (pushed ∷ servers) h = let fits = done-bound servers in absurd (omega arith)
  left-done (finished ∷ servers) h = left-done servers (omega arith)

  left-asked :
      (outcomes : List (Option (Answer f))) → left (asked f outcomes) ≡ answers_of f outcomes
  unfolding left asked answers_of
  left-asked [] = refl
  left-asked (none ∷ outcomes) = left-asked outcomes
  left-asked (some a ∷ outcomes) = rw (left-asked outcomes) refl

  StageOk-later :
      (all : List (Answer f)) (w : Sync f) (ms : ℕ) (stage : SyncAt f)
      → StageOk all w stage
      → StageOk all (record w { now = w.now + ms }) stage
  unfolding StageOk
  StageOk-later all w ms spawning h = h
  StageOk-later all w ms polling h = (omega (arith, h.0), h.1)
  StageOk-later all w ms (counted n) (soon, few, seen) = (omega (arith, soon), few, seen)
  StageOk-later all w ms (asleep since) (soon, before, past) = (soon, before, omega (arith, past))
  StageOk-later all w ms leaving (few, inl over) = (few, inl over)
  StageOk-later all w ms leaving (few, inr late) = (few, inr (omega (arith, late)))
  StageOk-later all w ms (returned results) (few, inl same) = (few, inl same)
  StageOk-later all w ms (returned results) (few, inr (late, some_left)) =
      (few, inr (omega (arith, late), some_left))

  StageOk-advanced :
      (all : List (Answer f)) (w : Sync f) (after : List (Server f)) (new : List (Answer f))
      (stage : SyncAt f)
      → Advances w.servers after new
      → StageOk all w stage
      → StageOk all (record w { servers = after; results = w.results ++ new }) stage
  unfolding StageOk
  StageOk-advanced all w after new spawning h ok = ok
  StageOk-advanced all w after new polling h ok = ok
  StageOk-advanced all w after new (counted n) h (soon, few, seen) =
      (soon, few, omega (arith, seen, Advances-done h))
  StageOk-advanced all w after new (asleep since) h ok = ok
  StageOk-advanced all w after new leaving h (few, inl over) =
      (few, inl (omega (arith, over, Advances-done h, Advances-length h)))
  StageOk-advanced all w after new leaving h (few, inr late) = (few, inr late)
  StageOk-advanced all w after new (returned results) h ok = ok

  tested_lem :
      (all : List (Answer f)) (w : Sync f) (n : ℕ) (stage : SyncAt f)
      → StageOk all w (counted n)
      → StageOk all (record w { stage = stage }) (tested f n (length w.servers) w.deadline w.now)
  unfolding StageOk tested
  tested_lem all w n stage (soon, few, seen) = elim (Bool-cases (n == length w.servers)) [
    | inl every ↦ rw every (few, inl (all_done every))
    | inr some_left ↦ elim (Bool-cases (leb w.deadline w.now)) [
      | inl late ↦ rw (some_left, late) (few, inr (leb→le w.deadline w.now late))
      | inr early ↦ rw (some_left, early) (soon, not_yet early, omega arith)
    ]
  ]
    where
      all_done : (n == length w.servers) ≡ true → length w.servers ≤ done f w.servers
      all_done e = ground arith

      not_yet : leb w.deadline w.now ≡ false → w.now < w.deadline
      not_yet e = ground arith

  returned_lem :
      (all : List (Answer f)) (w : Sync f)
      → Permᴰ (w.results ++ left w.servers) all
      → StageOk all w leaving
      → StageOk all (record w { stage = returned w.results }) (returned w.results)
  unfolding StageOk
  returned_lem all w kept (few, inl over) =
      let all_pushed = rw (left-done w.servers over) at kept in
      (few, inl (Permᴰ.trans (Permᴰ.symm (Permᴰ.append-nil w.results)) all_pushed))
  returned_lem all w kept (few, inr late) = (few, inr (late, (left w.servers, kept)))

  pushed_lem :
      (all : List (Answer f)) (w : Sync f) (after : List (Server f)) (new : List (Answer f))
      → Advances w.servers after new
      → Permᴰ (w.results ++ left w.servers) all
      → Permᴰ (w.results ++ new ++ left after) all
  pushed_lem all w after new h kept =
      rw (append_assoc w.results new (left after))
        (Permᴰ.trans (Permᴰ.append_left w.results (Advances-left h)) kept)

  Turn-Inv : (all : List (Answer f)) {v w : Sync f} → Turn f v w → Inv all v → Inv all w
  unfolding StageOk
  Turn-Inv all (passes w ms) inv = record {
    kept = inv.kept;
    stage_ok = StageOk-later all w ms w.stage inv.stage_ok;
  }
  Turn-Inv all (advances w after new h) inv = record {
    kept = pushed_lem all w after new h inv.kept;
    stage_ok = StageOk-advanced all w after new w.stage h inv.stage_ok;
  }
  Turn-Inv all (starts w e) inv =
      let ok = inv.stage_ok in
      let none_shown = rw e at ok in
      record { kept = inv.kept; stage_ok = rw none_shown (omega arith, omega arith) }
  Turn-Inv all (polls w e) inv =
      let ok = inv.stage_ok in
      let (soon, few) = rw e at ok in
      record { kept = inv.kept; stage_ok = (omega arith, omega arith, omega arith) }
  Turn-Inv all (tests w n e) inv =
      let ok = inv.stage_ok in
      let after = tested f n (length w.servers) w.deadline w.now in
      record { kept = inv.kept; stage_ok = tested_lem all w n after (rw e at ok) }
  Turn-Inv all (wakes w since e slept) inv =
      let ok = inv.stage_ok in
      let (soon, before, past) = rw e at ok in
      record { kept = inv.kept; stage_ok = (omega arith, omega arith) }
  Turn-Inv all (returns w e) inv =
      let ok = inv.stage_ok in
      record { kept = inv.kept; stage_ok = returned_lem all w inv.kept (rw e at ok) }

  called-Inv :
      (outcomes : List (Option (Answer f))) (now : ℕ)
      → Inv (answers_of f outcomes) (called f outcomes now)
  unfolding StageOk
  called-Inv outcomes now = record {
    kept = rw (left-asked outcomes) (Permᴰ.refl (answers_of f outcomes));
    stage_ok = refl;
  }

  pub Turns-Inv :
      (outcomes : List (Option (Answer f))) (now : ℕ) {w : Sync f}
      → Turns f (called f outcomes now) w
      → Inv (answers_of f outcomes) w
  Turns-Inv outcomes now here = called-Inv outcomes now
  Turns-Inv outcomes now (next r t) = Turn-Inv (answers_of f outcomes) t (Turns-Inv outcomes now r)
