-- ===== src/Archive/Observe.antt =====
-- src/main.rs, `main`: what its checks make of what they read of the host and of the network.
use hello_old.Base.{ℕ, Bool, true, false, List, Option, none, some, length, if◌then◌else◌}
use hello_old.Clock.Ntp.{F64, Answer, Exchange, query}
use hello_old.Clock.Consensus.{is_good, consensus}
use hello_old.Clock.Anchor
use hello_old.Clock.Anchor.{ClockAnchor, sane}
use hello_old.Host.Status.{anti_debug_checks}
use hello_old.Host.Harden.{check_injection}
use hello_old.Seccomp.Filter.{Prctl, install}
use hello_old.Archive.Artifacts.{Artifacts, key_len}
use hello_old.Archive.Memory
use hello_old.Archive.Memory.{SecBuf}
use hello_old.Archive.Unlock.{Observed, CustomNtp, unreachable, drifted, agreed}

-- A file or a variable that cannot be read is `none`. A look at the clocks is the steady one and the
-- other, each in seconds and nanoseconds. A mapping is where `mmap` maps, and whether `mlock` works.
-- `servers` is what the threads of `sync_all` meet, and `results` what it returns.
pub record Readings (f : F64) : Type 0 where
  pub status : Option (List ℕ)
  pub check_nanos : ℕ
  pub ld_preload : Option (List ℕ)
  pub ld_library_path : Option (List ℕ)
  pub maps : Option (List ℕ)
  pub key_mapping : Option ℕ × Bool
  pub content_mapping : Option ℕ × Bool
  pub is_terminal : Bool
  pub passwords : List (Option (List ℕ))
  pub clocks_at_start : (ℕ × ℕ) × (ℕ × ℕ)
  pub clocks_before : (ℕ × ℕ) × (ℕ × ℕ)
  pub prctl : Prctl → Bool
  pub local_now : ℕ
  pub servers : List (Exchange f)
  pub results : List (Answer f)
  pub custom_host : Exchange f
  pub clocks_after : (ℕ × ℕ) × (ℕ × ℕ)

abbrev pub is_made : Option SecBuf → Bool
is_made none = false
is_made (some b) = true

module _ (f : F64) where
  abbrev pub anchor : Readings f → ClockAnchor f
  anchor r = Anchor.new f r.clocks_at_start.0 r.clocks_at_start.1

  -- `ntp_now.floor() as u64`.
  abbrev pub whole_seconds : Option (Answer f) → Option ℕ
  whole_seconds none = none
  whole_seconds (some a) = some (F64.floor_u64 f a.now)

  -- The `match` on `query` of the host that the user names.
  abbrev pub custom_answer : Option (Answer f) → CustomNtp
  custom_answer none = unreachable
  custom_answer (some a) = if is_good f a then agreed (F64.floor_u64 f a.now) else drifted

  unfoldable pub observe : Artifacts → Readings f → Observed
  observe a r = record {
    untraced = anti_debug_checks r.status r.check_nanos;
    uninjected = check_injection r.ld_preload r.ld_library_path r.maps;
    key_buffer = is_made (Memory.new key_len r.key_mapping.0 r.key_mapping.1).1;
    content_buffer =
        is_made (Memory.new (length a.payload) r.content_mapping.0 r.content_mapping.1).1;
    is_terminal = r.is_terminal;
    passwords = r.passwords;
    anchor_sane = sane f (anchor r) r.clocks_before.0 r.clocks_before.1;
    seccomp_installed = (install r.prctl).1;
    local_now = r.local_now;
    consensus = whole_seconds (consensus f r.results);
    custom = custom_answer (query f r.custom_host);
    anchor_still_sane = sane f (anchor r) r.clocks_after.0 r.clocks_after.1;
  }
