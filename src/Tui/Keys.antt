-- ===== src/Tui/Keys.antt =====
-- src/tui.rs, `nav_wait` and `confirm_burn`: what is made of the polls of the terminal.
use hello_old.Base.{
  ℕ, zero, suc, replicate, ap, ◌+◌, ◌≤◌, ◌≡◌, ◌≢◌, ◌⊎◌, inl, inr, arith, Bool, true, false,
  Bool-cases, ◌&&◌, ◌||◌, List, [], ◌∷◌, ◌++◌, ◌==◌, leb, if◌then◌else◌, Option, none, some,
}

-- One poll of at most 100 ms: a byte was read, with the bytes that a further read gives after an
-- escape; the input was closed; nothing came for 100 ms; or the poll failed. The first number is the
-- time that passed, in milliseconds: that of the poll, and after an escape that of the further read,
-- which waits for as long as nothing comes.
pub data Poll : Type 0 where
  ready : ℕ → ℕ → List ℕ → Poll
  closed : ℕ → Poll
  quiet : Poll
  failed : ℕ → Poll

-- The keys that `nav_wait` returns; the letter of a burn is asked for after it.
pub data NavKey : Type 0 where
  go_next : NavKey
  go_prev : NavKey
  go_burn : NavKey

-- An arrow key is ESC [ C or ESC [ D; every other sequence is taken for Next.
abbrev pub sequence_key : List ℕ → NavKey
sequence_key (a ∷ b ∷ []) = if a == 0x5b && b == 0x44 then go_prev else go_next
sequence_key seq = go_next

-- `none` for a byte that is no key.
unfoldable pub decode : ℕ → List ℕ → Option NavKey
decode b seq =
    if b == 0x20 || (b == 0x0a || b == 0x0d)
    then some go_next
    else if b == 0x70 || b == 0x50
    then some go_prev
    else if b == 0x71 || b == 0x51
    then some go_burn
    else if b == 0x1b
    then some (sequence_key seq)
    else none

abbrev pub or_wait : Option NavKey → Option NavKey → Option NavKey
or_wait none later = later
or_wait (some key) later = some key

-- The loop; `none` is a call that still waits.
unfoldable pub nav_wait : Bool → List Poll → Option NavKey
nav_wait false polls = some go_next
nav_wait true [] = none
nav_wait true (ready ms b seq ∷ polls) = or_wait (decode b seq) (nav_wait true polls)
nav_wait true (closed ms ∷ polls) = some go_next
nav_wait true (quiet ∷ polls) = nav_wait true polls
nav_wait true (failed ms ∷ polls) = some go_next

-- `eq_ignore_ascii_case`.
abbrev pub lower : ℕ → ℕ
lower c = if leb 65 c && leb c 90 then c + 32 else c

unfoldable pub confirm_burn : Bool → ℕ → List Poll → Option Bool
confirm_burn false target polls = some true
confirm_burn true target [] = none
confirm_burn true target (ready ms b seq ∷ polls) = some (lower b == lower target)
confirm_burn true target (closed ms ∷ polls) = some false
confirm_burn true target (quiet ∷ polls) = confirm_burn true target polls
confirm_burn true target (failed ms ∷ polls) = some false

-- A poll that reads the key of a burn.
pub data Asks : List Poll → Type 0 where
  here :
      {ms : ℕ} {seq : List ℕ} {polls : List Poll} (b : ℕ)
      → (b ≡ 0x71) ⊎ (b ≡ 0x51)
      → Asks (ready ms b seq ∷ polls)
  later : {p : Poll} {polls : List Poll} → Asks polls → Asks (p ∷ polls)

sequence-burn : (seq : List ℕ) → sequence_key seq ≢ go_burn
sequence-burn [] e = cc
sequence-burn (a ∷ []) e = cc
sequence-burn (a ∷ b ∷ []) e = elim (Bool-cases (a == 0x5b && b == 0x44)) [
  | inl t ↦ not_prev (rw t at e)
  | inr t ↦ not_next (rw t at e)
]
  where
    not_prev : go_prev ≢ go_burn
    not_prev e = cc

    not_next : go_next ≢ go_burn
    not_next e = cc
sequence-burn (a ∷ b ∷ x ∷ seq) e = cc

some-NavKey : (x y : NavKey) → some x ≡ some y → x ≡ y
some-NavKey x y e = cc

decode-burn : (b : ℕ) (seq : List ℕ) → decode b seq ≡ some go_burn → (b ≡ 0x71) ⊎ (b ≡ 0x51)
unfolding decode
decode-burn b seq e = elim (Bool-cases (b == 0x20 || (b == 0x0a || b == 0x0d))) [
  | inl n ↦ absurd (differ go_next (λ d. cc) (rw n at e))
  | inr n ↦ elim (Bool-cases (b == 0x70 || b == 0x50)) [
    | inl p ↦ absurd (differ go_prev (λ d. cc) (rw (n, p) at e))
    | inr p ↦ elim (Bool-cases (b == 0x71 || b == 0x51)) [
      | inl q ↦ letter b q
      | inr q ↦ elim (Bool-cases (b == 0x1b)) [
        | inl s ↦ absurd (sequence-burn seq (some-NavKey _ go_burn (rw (n, p, q, s) at e)))
        | inr s ↦ nothing (rw (n, p, q, s) at e)
      ]
    ]
  ]
]
  where
    differ : (k : NavKey) → k ≢ go_burn → some k ≢ some go_burn
    differ k d e = d (some-NavKey k go_burn e)

    letter : (b : ℕ) → (b == 0x71 || b == 0x51) ≡ true → (b ≡ 0x71) ⊎ (b ≡ 0x51)
    letter b q = ground arith

    nothing : none ≡ some go_burn → (b ≡ 0x71) ⊎ (b ≡ 0x51)
    nothing e = cc

-- A burn is asked for only by q or Q: nothing else that is read, no closed or failing input and no
-- escape sequence opens the dialog.
pub nav_wait-burn :
    (tty : Bool) (polls : List Poll) → nav_wait tty polls ≡ some go_burn → Asks polls
unfolding nav_wait
nav_wait-burn false polls e = cc
nav_wait-burn true [] e = cc
nav_wait-burn true (ready ms b seq ∷ polls) e =
    on_key (λ h. nav_wait-burn true polls h) (decode b seq) (decode-burn b seq) e
  where
    on_key :
        (nav_wait true polls ≡ some go_burn → Asks polls)
        → (r : Option NavKey) → (r ≡ some go_burn → (b ≡ 0x71) ⊎ (b ≡ 0x51))
        → or_wait r (nav_wait true polls) ≡ some go_burn
        → Asks (ready ms b seq ∷ polls)
    on_key go none f e = later (go e)
    on_key go (some k) f e = here b (f e)
nav_wait-burn true (closed ms ∷ polls) e = cc
nav_wait-burn true (quiet ∷ polls) e = later (nav_wait-burn true polls e)
nav_wait-burn true (failed ms ∷ polls) e = cc

same_letter :
    (b target : ℕ)
    → 65 ≤ target
    → target ≤ 90
    → (lower b == lower target) ≡ (b == target || b == target + 32)
same_letter b target low high = ground arith

-- For an upper-case target, the first key that is pressed decides the burn, however long it takes: it
-- is confirmed by the letter in either case, and by no other byte.
pub confirm_burn-first :
    (n ms b target : ℕ) (seq : List ℕ) (polls : List Poll)
    → 65 ≤ target
    → target ≤ 90
    → confirm_burn true target (replicate n quiet ++ ready ms b seq ∷ polls)
      ≡ some (b == target || b == target + 32)
unfolding confirm_burn
confirm_burn-first zero ms b target seq polls low high = ap some (same_letter b target low high)
confirm_burn-first (suc n) ms b target seq polls low high =
    confirm_burn-first n ms b target seq polls low high
