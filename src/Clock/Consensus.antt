-- ===== src/Clock/Consensus.antt =====
-- src/main.rs, `consensus`: the drift in the middle of those that are small enough. The sorting of the standard library, which is stable, is by insertion.
use hello_old.Clock.Ntp.{F64, Answer}
use hello_old.Base.{◌/◌, Bool, List, [], ◌∷◌, Option, none, length, get_elem?, ◌==◌, if◌then◌else◌}

module _ (f : F64) where
  abbrev pub size : Answer f → F64.Number f
  size a = F64.abs f a.drift

  abbrev pub is_good : Answer f → Bool
  is_good a = F64.lt f (size a) (F64.limit f)

  unfoldable pub good : List (Answer f) → List (Answer f)
  good [] = []
  good (a ∷ results) = let rest = good results in if is_good a then a ∷ rest else rest

  -- An answer goes before the first that is not smaller.
  unfoldable pub insert : Answer f → List (Answer f) → List (Answer f)
  insert a [] = a ∷ []
  insert a (b ∷ answers) =
      let later = b ∷ insert a answers in
      if F64.lt f (size b) (size a) then later else a ∷ b ∷ answers

  unfoldable pub sort : List (Answer f) → List (Answer f)
  sort [] = []
  sort (a ∷ answers) = insert a (sort answers)

  unfoldable pub consensus : List (Answer f) → Option (Answer f)
  consensus results =
      let small = good results in
      if length small == 0 then none else get_elem? (sort small) (length small / 2)
