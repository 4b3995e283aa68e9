-- ===== src/Crypto/Tests.antt =====
-- Flushes of src/crypto.rs, and an instance of the theorem.
use hello_old.Base.{ℕ, ◌/◌, ◌≡◌, refl, arith, [], ◌∷◌}
use mathlib.Core.List.{Memᴰ}
use hello_old.Crypto.Flush.{flush_loop, flush_mem, flush_mem-line}

-- Ten bytes from 60 lie in two lines, and only the first is flushed.
second_line_kept : flush_mem 60 10 ≡ 60 ∷ []
unfolding flush_mem flush_loop
second_line_kept = refl

flush_mem-line_example : (x : ℕ) × Memᴰ x (flush_mem 4096 64) × (x / 64 ≡ 4100 / 64)
flush_mem-line_example =
    flush_mem-line 4096 64 4100 (omega arith) refl (omega arith) (omega arith) (omega arith)
