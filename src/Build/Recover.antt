-- ===== src/Build/Recover.antt =====
-- build.rs, `gen_vm_program`, against src/rustyvm.rs, `run`: the emitted program rebuilds the keys.
use hello_old.Base.{
  ℕ, zero, suc, ◌+◌, ◌≤◌, ◌<◌, ◌≡◌, refl, ◌∙◌, arith, List, [], ◌∷◌, ◌++◌, length, get_or, set,
  drop, bit_xor, u8, length-set, length-append, set-append, xor_cancel, All, IsByte,
}
use mathlib.Core.List.{append_assoc}
use native.Mathlib.Nat.{mod-eq_of_lt}
use hello_old.Vm.Reaches.{Reaches, Reaches-trans, Reaches-refl, drop-after, get_or-drop}
use hello_old.Build.Rng.{Rng, choice, next_u8}
use hello_old.Build.Program.{noise, half, write_key}
use hello_old.Build.Steps.{state, noise_step, write_key_steps}

-- The bytes `ks` written one after another from index `i` on.
abbrev pub write_all : ℕ → List ℕ → List ℕ → List ℕ
write_all i [] out = out
write_all i (k ∷ ks) out = write_all (suc i) ks (set out i k)

pub length-write_all :
    (ks : List ℕ) (i : ℕ) (out : List ℕ) → length (write_all i ks out) ≡ length out
length-write_all [] i out = refl
length-write_all (k ∷ ks) i out = length-write_all ks (suc i) (set out i k) ∙ length-set out i k

pub write_all-append :
    (ks front old back : List ℕ) (i : ℕ)
    → i ≡ length front
    → length old ≡ length ks
    → write_all i ks (front ++ (old ++ back)) ≡ front ++ (ks ++ back)
write_all-append [] front [] back i e h = refl
write_all-append [] front (x ∷ old) back i e h = absurd (omega arith)
write_all-append (k ∷ ks) front [] back i e h = absurd (omega arith)
write_all-append (k ∷ ks) front (x ∷ old) back i e h =
    rw (set-append front x (old ++ back) k i e, ← append_assoc front (k ∷ []) (old ++ back))
      (write_all-append ks (front ++ k ∷ []) old back (suc i)
          (omega (arith, length-append front (k ∷ []))) (omega arith)
        ∙ append_assoc front (k ∷ []) (ks ++ back))

module _ (prog km : List ℕ) where
  noise_steps :
      (depth : ℕ) (r : Rng) (ip : ℕ) (rest out : List ℕ)
      → drop ip prog ≡ (noise depth r).0 ++ rest
      → Reaches prog km (state ip [] out) (state (ip + length (noise depth r).0) [] out)
  unfolding noise
  noise_steps zero r ip rest out e =
      let here : ip + 0 ≡ ip = omega arith in rw here (Reaches-refl prog km _)
  noise_steps (suc depth) r ip rest out e =
      let r' = (next_u8 (choice 16 (choice 6 r).1).1).1 in
      let i₁ = ip + 1 + 2 in
      let end : ip + suc (suc (suc (length (noise depth r').0))) ≡ i₁ + length (noise depth r').0 =
        omega arith in
      rw end (
        Reaches-trans prog km (state ip [] out) (state i₁ [] out) _
          (noise_step prog km (choice 6 r).0 ip _ _ _ out e)
          (noise_steps depth r' i₁ rest out
            (drop-after prog (_ ∷ _ ∷ _ ∷ []) _ ip i₁ e (omega arith))))

  drop-suc' :
      (xs : List ℕ) (i x : ℕ) (rest : List ℕ) → drop i xs ≡ x ∷ rest → drop (i + 1) xs ≡ rest
  drop-suc' xs i x rest e = drop-after xs (x ∷ []) rest i (i + 1) e refl

  -- The value that reaches the output is the key byte.
  unmasked :
      (key : List ℕ) (base i k : ℕ) (ks out : List ℕ)
      → drop i key ≡ k ∷ ks
      → IsByte k
      → base + i < 256
      → set out (u8 (base + i)) (
          u8 (
            bit_xor
              (bit_xor (get_or key i 0) (get_or km (base + i) 0))
              (get_or km (u8 (base + i)) 0)))
        ≡ set out (base + i) k
  unmasked key base i k ks out at small fits = rw (
    mod-eq_of_lt fits,
    get_or-drop key i k ks at,
    xor_cancel k (get_or km (base + i) 0),
    mod-eq_of_lt small,
  )

  pub half_steps :
      (ks key : List ℕ) (base i : ℕ) (r : Rng) (ip : ℕ) (rest out : List ℕ)
      → drop i key ≡ ks
      → All IsByte ks
      → base + i + length ks ≤ length km
      → length km ≤ 256
      → length out ≡ length km
      → drop ip prog ≡ (half km (length ks) key base i r).0 ++ rest
      → Reaches prog km (state ip [] out) (
          state (ip + length (half km (length ks) key base i r).0) [] (write_all (base + i) ks out))
  unfolding half
  half_steps [] key base i r ip rest out at small fits few same e =
      let here : ip + 0 ≡ ip = omega arith in rw here (Reaches-refl prog km _)
  half_steps (k ∷ ks) key base i r ip rest out at (byte, small) fits few same e =
      let mask = bit_xor (get_or key i 0) (get_or km (base + i) 0) in
      let target = u8 (base + i) in
      let depth = (choice 3 r).0 + 1 in
      let junk = noise depth (choice 3 r).1 in
      let code = half km (length ks) key base (i + 1) junk.1 in
      let i₁ = ip + length junk.0 in
      let i₂ = i₁ + 7 in
      let out' = set out (base + i) k in
      let e₀ = e ∙ append_assoc junk.0 (write_key target mask ++ code.0) rest in
      let at₁ = drop-after prog junk.0 _ ip i₁ e₀ refl in
      let at₂ = drop-after prog (write_key target mask) (code.0 ++ rest) i₁ i₂ at₁ (omega arith) in
      let same' : length out' ≡ length km = length-set out (base + i) k ∙ same in
      let whole : ip + length (junk.0 ++ (write_key target mask ++ code.0)) ≡ i₂ + length code.0 =
        omega (arith, length-append junk.0 (write_key target mask ++ code.0)) in
      let wrote = rw (unmasked key base i k ks out at byte (omega arith)) at (
        write_key_steps prog km i₁ target mask (code.0 ++ rest) out at₁ (omega arith)
          (omega arith)) in
      let next : base + (i + 1) ≡ suc (base + i) = omega arith in
      rw whole (
        Reaches-trans prog km (state ip [] out) (state i₁ [] out) _
          (noise_steps depth (choice 3 r).1 ip _ out e₀)
          (Reaches-trans prog km (state i₁ [] out) (state i₂ [] out') _ wrote (
            rw next at (
              half_steps ks key base (i + 1) junk.1 i₂ rest out' (drop-suc' key i k ks at) small
                (omega arith) few same' at₂))))
