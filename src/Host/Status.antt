-- ===== src/Host/Status.antt =====
-- src/watchdog.rs, `tracer_pid` on the text of /proc/self/status, `self_destruct`, and the line of
-- `read_password` in src/pass.rs for an input that is no terminal.
use hello_old.Base.{
  ℕ, ◌^◌, Bool, false, List, [], ◌∷◌, Option, none, some, ◌==◌, ◌||◌, codes, ltb, not,
  if◌then◌else◌,
}
use hello_old.Meta.Text.{trim, trim_end, strip_prefix, parse_u64}
use hello_old.Host.Lines.{lines}

-- `parse::<u32>().ok()`.
abbrev pub fits_u32 : Option ℕ → Option ℕ
fits_u32 none = none
fits_u32 (some v) = if ltb v (2 ^ 32) then some v else none

-- The number of a line with the key.
abbrev pub tracer_of : Option (List ℕ) → Option ℕ
tracer_of none = none
tracer_of (some rest) = fits_u32 (parse_u64 (trim rest))

abbrev pub or_next : Option ℕ → ℕ → ℕ
or_next none later = later
or_next (some v) later = v

unfoldable pub first_tracer : List (List ℕ) → ℕ
first_tracer [] = 0
first_tracer (line ∷ rest) =
    or_next (tracer_of (strip_prefix (codes "TracerPid:") line)) (first_tracer rest)

-- `none` is a file that cannot be read.
unfoldable pub tracer_pid : Option (List ℕ) → ℕ
tracer_pid none = 0
tracer_pid (some status) = first_tracer (lines status)

-- How `self_destruct` ends the process: by exit for debugging, or by a signal.
pub data Destruction : Type 0 where
  exited : ℕ → Destruction
  killed : Destruction

unfoldable pub self_destruct : Bool → Destruction
self_destruct no_self_destruct = if no_self_destruct then exited 1 else killed

-- The line without the line feeds and carriage returns at its end; `none` if it cannot be read.
unfoldable pub read_password_line : Option (List ℕ) → Option (List ℕ)
read_password_line none = none
read_password_line (some line) = some (trim_end (λ c. c == 13 || c == 10) line)

-- `anti_debug_checks` of src/main.rs, for the tracer and the nanoseconds that the check of the clock
-- takes.
unfoldable pub anti_debug_checks : Option (List ℕ) → ℕ → Bool
anti_debug_checks status elapsed =
    if ltb 0 (tracer_pid status) then false else not (ltb 5000000 elapsed)
