-- ===== src/Host/Tests.antt =====
-- Texts of /proc, and instances of the theorems about src/pass.rs, src/watchdog.rs and src/harden.rs.
use hello_old.Base.{
  ℕ, List, ◌==◌, codes, false, ◌≡◌, ◌↔◌, refl, arith, true, [], ◌∷◌, none, some, All, replicate,
}
use hello_old.Host.Password.{Printable, pop, type_bytes, read_password, read_password-Printable}
use hello_old.Meta.Text.{
  is_whitespace, trim, trim_start, trim_end, split, strip_prefix, parse_u64, digits_from,
}
use hello_old.Meta.Parts.{none_is-Free}
use hello_old.Host.Lines.{lines, strip_cr, contains_char}
use hello_old.Host.Status.{first_tracer, tracer_pid}
use hello_old.Host.Harden.{maps_rwx_clean}
use hello_old.Host.Regions.{Region, IsRegion, maps_text, none_rwx, is_rwx, maps_rwx_clean-maps_text}
use hello_old.Host.Watchdog.{Round, watch, watching, Healthy, watch-Healthy}

-- "a", "b", erased, "c", Enter.
edited :
    read_password true true true ((97 ∷ 98 ∷ []) ∷ (0x7f ∷ 99 ∷ 0x0d ∷ []) ∷ []) none
    ≡ some (some (97 ∷ 99 ∷ []))
unfolding read_password type_bytes pop
edited = refl

read_password-Printable_example : All Printable (97 ∷ 99 ∷ [])
unfolding read_password type_bytes pop
read_password-Printable_example =
    read_password-Printable ((97 ∷ 98 ∷ []) ∷ (0x7f ∷ 99 ∷ 0x0d ∷ []) ∷ []) none (97 ∷ 99 ∷ []) refl

abbrev quiet_round : Round
quiet_round = record {
  running = true;
  elapsed = 1;
  tracer_pid = 0;
  exe_sha = none;
  key_sha = replicate 32 5;
}

watch-Healthy_example :
    (watch [] (replicate 32 5) 64 (quiet_round ∷ []) ≡ watching)
    ↔ All (λ r. (r.running ≡ true) × Healthy [] (replicate 32 5) r) (quiet_round ∷ [])
watch-Healthy_example = watch-Healthy [] (replicate 32 5) 64 (quiet_round ∷ []) (omega arith)

traced : tracer_pid (some (codes "Name:\tx\nTracerPid:\t42\nUid:\t0\n")) ≡ 42
unfolding tracer_pid first_tracer lines strip_cr split strip_prefix trim trim_start trim_end
    is_whitespace parse_u64 digits_from
traced = refl

abbrev region : List ℕ → Region
region perms = record { addresses = codes "7f00-7f01"; perms = perms; rest = codes "00000 08:01 5" }

region-IsRegion : IsRegion (region (codes "rwxp"))
unfolding is_whitespace
region-IsRegion = record {
  addresses_word = none_is-Free is_whitespace (codes "7f00-7f01") refl;
  addresses_some = λ e. cc;
  perms_word = none_is-Free is_whitespace (codes "rwxp") refl;
  perms_some = λ e. cc;
  rest_line = none_is-Free (λ c. c == 10) (codes "00000 08:01 5") refl;
}

abbrev regions : List Region
regions = region (codes "rwxp") ∷ region (codes "rwxp") ∷ []

maps_rwx_clean-maps_text_example : maps_rwx_clean (some (maps_text regions)) ≡ false
unfolding none_rwx is_rwx contains_char
maps_rwx_clean-maps_text_example =
    maps_rwx_clean-maps_text regions (region-IsRegion, (region-IsRegion, tt))
