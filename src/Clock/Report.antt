-- ===== src/Clock/Report.antt =====
-- src/main.rs, `hacker_ntp_report`: the lines about the servers. How a drift is printed is an argument.
use hello_old.Base.{ℕ, ◌-◌, List, [], ◌∷◌, ◌++◌, codes, length, replicate, if◌then◌else◌}
use hello_old.Tui.Screen.{repeat, c_reset, c_green, c_red, c_bright_white}
use hello_old.Clock.Ntp.{F64}

-- `{:<24}`.
abbrev pub pad_right : ℕ → List ℕ → List ℕ
pad_right n text = text ++ replicate (n - length text) b' '

module _ (f : F64) (signed_milli : F64.Number f → List ℕ) where
  unfoldable pub status_of : F64.Number f → List ℕ
  status_of d =
      if F64.lt f (F64.abs f d) (F64.limit f)
      then c_green
        ++ c_bright_white
        ++ codes "✓ VALID"
        ++ c_reset
        ++ codes "  drift "
        ++ signed_milli d
        ++ codes "s"
      else c_red
        ++ c_bright_white
        ++ codes "✗ REJECTED"
        ++ c_reset
        ++ codes "  drift "
        ++ signed_milli d
        ++ codes "s"

  unfoldable pub server_lines : List (List ℕ × F64.Number f) → List (List ℕ)
  server_lines [] = []
  server_lines ((host, d) ∷ results) =
      (codes "  [" ++ pad_right 24 host ++ codes "] " ++ status_of d) ∷ server_lines results

  unfoldable pub hacker_ntp_report : ℕ → List (List ℕ × F64.Number f) → List (List ℕ)
  hacker_ntp_report width results =
      let sep = repeat 0x2550 width in
      sep ∷ codes "  █ NTP CONSENSUS SCAN █" ∷ sep ∷ [] ∷ server_lines results ++ [] ∷ []
