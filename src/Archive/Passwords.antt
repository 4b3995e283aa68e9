-- ===== src/Archive/Passwords.antt =====
-- src/main.rs, `main`: which entries the password loop accepts.
use hello_old.Base.{
  ℕ, suc, ◌≡◌, refl, ap, ◌⊎◌, inl, inr, Bool, true, false, List, [], ◌∷◌, ◌++◌, All, get_elem?,
  Option, none, some,
}
use hello_old.Crypto.Suite.{Suite}
use hello_old.Crypto.Wrap.{decrypt}
use hello_old.Archive.Artifacts.{Artifacts, boot_key}
use hello_old.Archive.Flow.{destroyed, Flow, stop, next}
use hello_old.Archive.Unlock.{nonempty, accept_or, opened_by, read_program}

-- A result is the program, or what comes after asking again.
accepted :
    (again : Flow (List ℕ)) (r : Option (List ℕ)) (prog : List ℕ)
    → accept_or again r ≡ next prog
    → (r ≡ some prog) ⊎ (again ≡ next prog)
accepted again none prog h = inr h
accepted again (some x) prog h = inl cc

module _ (c : Suite) (a : Artifacts) where
  opened :
      (entry : Option (List ℕ)) (prog : List ℕ)
      → opened_by c a (nonempty entry) ≡ some prog
      → (p : List ℕ) × (entry ≡ some p) × (decrypt c (boot_key c p a.salt) a.vmprog ≡ some prog)
  opened none prog h = cc
  opened (some []) prog h = cc
  opened (some (x ∷ p)) prog h = (x ∷ p, refl, h)

  -- The program came from one of the entries: the loop accepts only a password under which the
  -- wrapped program decrypts, and away from a terminal only the first entry counts.
  pub read_program-next :
      (tty : Bool) (passwords : List (Option (List ℕ))) (prog : List ℕ)
      → read_program c a tty passwords ≡ next prog
      → (i : ℕ) × (p : List ℕ) × (get_elem? passwords i ≡ some (some p))
        × (decrypt c (boot_key c p a.salt) a.vmprog ≡ some prog)
        × ((tty ≡ true) ⊎ (i ≡ 0))
  unfolding read_program
  read_program-next tty [] prog h = cc
  read_program-next true (entry ∷ rest) prog h = elim (accepted _ _ prog h) [
    | inl e ↦ let (p, q, o) = opened entry prog e in (0, p, ap some q, o, inl refl)
    | inr again ↦
        let (i, p, at, o, first) = read_program-next true rest prog again in
        (suc i, p, at, o, inl refl)
  ]
  read_program-next false (entry ∷ rest) prog h = elim (accepted _ _ prog h) [
    | inl e ↦ let (p, q, o) = opened entry prog e in (0, p, ap some q, o, inr refl)
    | inr again ↦ cc
  ]

  -- Entries that open nothing, and empty ones, change nothing at a terminal, however many there
  -- are; anywhere else one of them destroys the program.
  pub read_program-wrong :
      (wrong rest : List (Option (List ℕ)))
      → All (λ entry. opened_by c a (nonempty entry) ≡ none) wrong
      → (read_program c a true (wrong ++ rest) ≡ read_program c a true rest)
        × ((wrong ≡ []) ⊎ (read_program c a false (wrong ++ rest) ≡ stop destroyed))
  unfolding read_program
  read_program-wrong [] rest h = (refl, inl refl)
  read_program-wrong (entry ∷ wrong) rest (e, h) =
      (rw e (read_program-wrong wrong rest h).0, inr (rw e refl))
