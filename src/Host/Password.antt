-- ===== src/Host/Password.antt =====
-- src/pass.rs, `read_password`: at a terminal without echo, or by line. A read gives bytes, or none when
-- the input is closed or fails.
use hello_old.Base.{
  All-append, ℕ, ◌≡◌, refl, sym, ap, ◌∙◌, Bool, true, Bool-cases, inl, inr, ◌&&◌, ◌||◌, List, [],
  ◌∷◌, ◌++◌, ◌==◌, leb, if◌then◌else◌, Option, none, some, All,
}
use mathlib.Core.Path.{subst}
use hello_old.Host.Status.{read_password_line}

abbrev pub is_end : ℕ → Bool
is_end b = b == 0x0a || b == 0x0d

abbrev pub is_erase : ℕ → Bool
is_erase b = b == 0x7f || b == 0x08

abbrev pub is_printable : ℕ → Bool
is_printable b = leb 0x20 b && leb b 0x7e

-- `buf.pop()`, if there is something to take.
unfoldable pub pop : List ℕ → List ℕ
pop [] = []
pop (x ∷ []) = []
pop (x ∷ y ∷ buf) = x ∷ pop (y ∷ buf)

pub data Typed : Type 0 where
  entered : List ℕ → Typed
  more : List ℕ → Typed

-- The loop over the bytes of one read.
unfoldable pub type_bytes : List ℕ → List ℕ → Typed
type_bytes buf [] = more buf
type_bytes buf (b ∷ bytes) =
    if is_end b
    then entered buf
    else if is_erase b
    then type_bytes (pop buf) bytes
    else if is_printable b
    then type_bytes (buf ++ b ∷ []) bytes
    else type_bytes buf bytes

abbrev pub unless_entered : Typed → (List ℕ → Option (List ℕ)) → Option (List ℕ)
unless_entered (entered buf) next = some buf
unless_entered (more buf) next = next buf

-- The loop over the reads; `none` is a prompt that still waits.
unfoldable pub type_reads : List ℕ → List (List ℕ) → Option (List ℕ)
type_reads buf [] = none
type_reads buf ([] ∷ reads) = some buf
type_reads buf ((b ∷ bytes) ∷ reads) =
    unless_entered (type_bytes buf (b ∷ bytes)) (λ buf'. type_reads buf' reads)

abbrev pub some_once : Option (List ℕ) → Option (Option (List ℕ))
some_once none = none
some_once (some buf) = some (some buf)

-- The whole function: whether the input is a terminal, whether `tcgetattr` and `tcsetattr` work, the
-- reads of the loop, and the line that is read in all other cases.
unfoldable pub read_password :
    Bool → Bool → Bool → List (List ℕ) → Option (List ℕ) → Option (Option (List ℕ))
unfolding type_reads
read_password is_terminal got_attr set_attr reads line =
    if is_terminal && got_attr && set_attr
    then some_once (type_reads [] reads)
    else some (read_password_line line)

abbrev pub typed_then : Typed → List ℕ → Typed
typed_then (entered buf) bytes = entered buf
typed_then (more buf) bytes = type_bytes buf bytes

abbrev pub Printable : ℕ → Type 0
Printable b = is_printable b ≡ true

some-injective : {x y : List ℕ} → some x ≡ some y → x ≡ y
some-injective e = cc

-- Bytes that come in two reads are typed as if they came in one.
type_bytes-append :
    (buf xs ys : List ℕ) → type_bytes buf (xs ++ ys) ≡ typed_then (type_bytes buf xs) ys
unfolding type_bytes
type_bytes-append buf [] ys = refl
type_bytes-append buf (b ∷ xs) ys = elim (Bool-cases (is_end b)) [
  | inl e ↦ rw e refl
  | inr e ↦ elim (Bool-cases (is_erase b)) [
    | inl r ↦ rw (e, r) (type_bytes-append (pop buf) xs ys)
    | inr r ↦ elim (Bool-cases (is_printable b)) [
      | inl p ↦ rw (e, r, p) (type_bytes-append (buf ++ b ∷ []) xs ys)
      | inr p ↦ rw (e, r, p) (type_bytes-append buf xs ys)
    ]
  ]
]

-- How the terminal splits the input does not matter: two reads that are not empty give the same
-- password as one read of all their bytes.
type_reads-append :
    (buf : List ℕ) (x : ℕ) (xs : List ℕ) (y : ℕ) (ys : List ℕ) (reads : List (List ℕ))
    → type_reads buf ((x ∷ xs) ∷ (y ∷ ys) ∷ reads) ≡ type_reads buf ((x ∷ xs ++ y ∷ ys) ∷ reads)
unfolding type_reads
type_reads-append buf x xs y ys reads =
    after (type_bytes buf (x ∷ xs))
    ∙ ap (λ t. unless_entered t (λ b. type_reads b reads))
        (sym (type_bytes-append buf (x ∷ xs) (y ∷ ys)))
  where
    after :
        (t : Typed)
        → unless_entered t (λ b. type_reads b ((y ∷ ys) ∷ reads))
          ≡ unless_entered (typed_then t (y ∷ ys)) (λ b. type_reads b reads)
    after (entered b) = refl
    after (more b) = refl

-- What is entered is printable.
All-pop : (buf : List ℕ) → All Printable buf → All Printable (pop buf)
unfolding pop
All-pop [] h = tt
All-pop (x ∷ []) h = tt
All-pop (x ∷ y ∷ buf) (p, h) = (p, All-pop (y ∷ buf) h)

abbrev pub buffer : Typed → List ℕ
buffer (entered buf) = buf
buffer (more buf) = buf

type_bytes-Printable :
    (buf bytes : List ℕ) → All Printable buf → All Printable (buffer (type_bytes buf bytes))
unfolding type_bytes
type_bytes-Printable buf [] h = h
type_bytes-Printable buf (b ∷ bytes) h = elim (Bool-cases (is_end b)) [
  | inl e ↦ rw (type_bytes, e) h
  | inr e ↦ elim (Bool-cases (is_erase b)) [
    | inl r ↦ rw (type_bytes, e, r) (type_bytes-Printable (pop buf) bytes (All-pop buf h))
    | inr r ↦ elim (Bool-cases (is_printable b)) [
      | inl p ↦
          rw (type_bytes, e, r, p)
            (type_bytes-Printable (buf ++ b ∷ []) bytes
              (All-append Printable buf (b ∷ []) h (p, tt)))
      | inr p ↦ rw (type_bytes, e, r, p) (type_bytes-Printable buf bytes h)
    ]
  ]
]

type_reads-Printable :
    (reads : List (List ℕ)) (buf password : List ℕ)
    → All Printable buf
    → type_reads buf reads ≡ some password
    → All Printable password
unfolding type_reads
type_reads-Printable [] buf password h e = cc
type_reads-Printable ([] ∷ reads) buf password h e = subst (All Printable) (some-injective e) h
type_reads-Printable ((b ∷ bytes) ∷ reads) buf password h e =
    after (λ b h e. type_reads-Printable reads b password h e) (type_bytes buf (b ∷ bytes))
      (type_bytes-Printable buf (b ∷ bytes) h) e
  where
    after :
        ((b : List ℕ)
          → All Printable b
          → type_reads b reads ≡ some password
          → All Printable password)
        → (t : Typed) → All Printable (buffer t)
        → unless_entered t (λ b. type_reads b reads) ≡ some password
        → All Printable password
    after go (entered b) h e = subst (All Printable) (some-injective e) h
    after go (more b) h e = go b h e

some_once-some :
    (r : Option (List ℕ)) (password : List ℕ)
    → some_once r ≡ some (some password)
    → r ≡ some password
some_once-some none password e = cc
some_once-some (some buf) password e = cc

-- A password that is entered at a terminal, whose settings can be read and changed, has printable ASCII
-- characters only, whatever was typed.
pub read_password-Printable :
    (reads : List (List ℕ)) (line : Option (List ℕ)) (password : List ℕ)
    → read_password true true true reads line ≡ some (some password)
    → All Printable password
unfolding read_password
read_password-Printable reads line password e =
    type_reads-Printable reads [] password tt (some_once-some (type_reads [] reads) password e)
