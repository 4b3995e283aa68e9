-- ===== src/Build/Steps.antt =====
-- The instructions that `gen_vm_program` of build.rs emits, run by the machine's meaning.
use hello_old.Base.{
  ℕ, ◌+◌, ◌<◌, ◌≡◌, refl, arith, Bool, true, false, List, [], ◌∷◌, ◌++◌, ltb, leb, lt→ltb, le→leb,
  length, get_or, set, drop, ◌==◌, bit_xor, u8, if◌then◌else◌,
}
use hello_old.Vm.Reference.{StackVm, perform, settle}
use hello_old.Vm.Reaches.{get_or-drop, lt-drop, drop-after, Reaches, Reaches-step, Reaches-trans}
use hello_old.Build.Program.{noise_op, write_key}

-- A machine that has met no fault.
abbrev pub state : ℕ → List ℕ → List ℕ → StackVm
state ip stack out = record { stack = stack; ip = ip; ok = true; out = out }

module _ (prog material : List ℕ) where
  -- The byte behind an opcode.
  operand_at :
      (ip op x : ℕ) (rest : List ℕ)
      → drop ip prog ≡ op ∷ x ∷ rest
      → (get_or prog (ip + 1) 0 ≡ x) × (ltb (ip + 1) (length prog) ≡ true)
  operand_at ip op x rest e =
      let e' = drop-after prog (op ∷ []) (x ∷ rest) ip (ip + 1) e refl in
      (
        get_or-drop prog (ip + 1) x rest e',
        lt→ltb (ip + 1) (length prog) (lt-drop prog (ip + 1) x rest e'),
      )

  pushkey_step :
      (ip t : ℕ) (rest out : List ℕ)
      → drop ip prog ≡ 0x03 ∷ t ∷ rest
      → t < length material
      → Reaches prog material (state ip [] out) (state (ip + 1 + 1) (get_or material t 0 ∷ []) out)
  unfolding perform settle
  pushkey_step ip t rest out e small =
      let (byte, more) = operand_at ip 0x03 t rest e in
      Reaches-step prog material 0x03 (t ∷ rest) _
        (state (ip + 1 + 1) (get_or material t 0 ∷ []) out) _ e
        (rw (byte, more, lt→ltb t (length material) small)) refl refl (omega arith)

  push1_step :
      (ip m k : ℕ) (rest out : List ℕ)
      → drop ip prog ≡ 0x01 ∷ m ∷ rest
      → Reaches prog material (state ip (k ∷ []) out) (state (ip + 1 + 1) (m ∷ k ∷ []) out)
  unfolding perform settle
  push1_step ip m k rest out e =
      let (byte, more) = operand_at ip 0x01 m rest e in
      Reaches-step prog material 0x01 (m ∷ rest) _ (state (ip + 1 + 1) (m ∷ k ∷ []) out) _ e
        (rw (byte, more)) refl refl (omega arith)

  xor_step :
      (ip m k : ℕ) (rest out : List ℕ)
      → drop ip prog ≡ 0x07 ∷ rest
      → Reaches prog material (state ip (m ∷ k ∷ []) out) (state (ip + 1) (bit_xor m k ∷ []) out)
  unfolding perform settle
  xor_step ip m k rest out e =
      Reaches-step prog material 0x07 rest _ (state (ip + 1) (bit_xor m k ∷ []) out) _ e refl refl
        refl (omega arith)

  wrmem_step :
      (ip t v : ℕ) (rest out : List ℕ)
      → drop ip prog ≡ 0x11 ∷ t ∷ rest
      → t < length out
      → Reaches prog material (state ip (v ∷ []) out) (state (ip + 1 + 1) [] (set out t (u8 v)))
  unfolding perform settle
  wrmem_step ip t v rest out e small =
      let (byte, more) = operand_at ip 0x11 t rest e in
      Reaches-step prog material 0x11 (t ∷ rest) _ (state (ip + 1 + 1) [] (set out t (u8 v))) _ e
        (rw (byte, more, lt→ltb t (length out) small)) refl refl (omega arith)

  -- Two bytes behind an opcode.
  two_more :
      (ip op x y : ℕ) (rest : List ℕ)
      → drop ip prog ≡ op ∷ x ∷ y ∷ rest
      → leb (ip + 1 + 2) (length prog) ≡ true
  two_more ip op x y rest e =
      let e' = drop-after prog (op ∷ x ∷ []) (y ∷ rest) ip (ip + 2) e refl in
      le→leb (ip + 1 + 2) (length prog) (omega (arith, lt-drop prog (ip + 2) y rest e'))

  pub label_step :
      (ip x y : ℕ) (rest out : List ℕ)
      → drop ip prog ≡ 0xf0 ∷ x ∷ y ∷ rest
      → Reaches prog material (state ip [] out) (state (ip + 1 + 2) [] out)
  unfolding perform settle
  label_step ip x y rest out e =
      Reaches-step prog material 0xf0 (x ∷ y ∷ rest) _ (state (ip + 1 + 2) [] out) _ e
        (rw (two_more ip 0xf0 x y rest e)) refl refl (omega arith)

  -- Passing over a piece of noise.
  abbrev Passes : ℕ → Type 0
  Passes op =
      (ip x y : ℕ) (rest out : List ℕ)
      → drop ip prog ≡ op ∷ x ∷ y ∷ rest
      → Reaches prog material (state ip [] out) (state (ip + 1 + 2) [] out)

  a0 : Passes 0xa0
  unfolding perform settle
  a0 ip x y rest out e =
      Reaches-step prog material 0xa0 (x ∷ y ∷ rest) _ (state (ip + 1) [] out) _ e refl refl
        (rw (two_more ip 0xa0 x y rest e)) (omega arith)

  a1 : Passes 0xa1
  unfolding perform settle
  a1 ip x y rest out e =
      Reaches-step prog material 0xa1 (x ∷ y ∷ rest) _ (state (ip + 1) [] out) _ e refl refl
        (rw (two_more ip 0xa1 x y rest e)) (omega arith)

  a2 : Passes 0xa2
  unfolding perform settle
  a2 ip x y rest out e =
      Reaches-step prog material 0xa2 (x ∷ y ∷ rest) _ (state (ip + 1) [] out) _ e refl refl
        (rw (two_more ip 0xa2 x y rest e)) (omega arith)

  a3 : Passes 0xa3
  unfolding perform settle
  a3 ip x y rest out e =
      Reaches-step prog material 0xa3 (x ∷ y ∷ rest) _ (state (ip + 1) [] out) _ e refl refl
        (rw (two_more ip 0xa3 x y rest e)) (omega arith)

  a4 : Passes 0xa4
  unfolding perform settle
  a4 ip x y rest out e =
      Reaches-step prog material 0xa4 (x ∷ y ∷ rest) _ (state (ip + 1) [] out) _ e refl refl
        (rw (two_more ip 0xa4 x y rest e)) (omega arith)

  a5 : Passes 0xa5
  unfolding perform settle
  a5 ip x y rest out e =
      Reaches-step prog material 0xa5 (x ∷ y ∷ rest) _ (state (ip + 1) [] out) _ e refl refl
        (rw (two_more ip 0xa5 x y rest e)) (omega arith)

  either : (b : Bool) {op op' : ℕ} → Passes op → Passes op' → Passes (if b then op else op')
  either true p q = p
  either false p q = q

  pub noise_step : (c : ℕ) → Passes (noise_op c)
  noise_step c =
      either (c == 0) a0
        (either (c == 1) a1 (either (c == 2) a2 (either (c == 3) a3 (either (c == 4) a4 a5))))

  -- The seven bytes for one key byte write the mask's exclusive or with the key material.
  pub write_key_steps :
      (ip t m : ℕ) (rest out : List ℕ)
      → drop ip prog ≡ write_key t m ++ rest
      → t < length material
      → t < length out
      → Reaches prog material
          (state ip [] out)
          (state (ip + 7) [] (set out t (u8 (bit_xor m (get_or material t 0)))))
  write_key_steps ip t m rest out e in_km in_out =
      let k = get_or material t 0 in
      let i₁ = ip + 1 + 1 in
      let i₂ = i₁ + 1 + 1 in
      let i₃ = i₂ + 1 in
      let i₄ = i₃ + 1 + 1 in
      let at₁ = drop-after prog (0x03 ∷ t ∷ []) _ ip i₁ e (omega arith) in
      let at₂ = drop-after prog (0x01 ∷ m ∷ []) _ i₁ i₂ at₁ (omega arith) in
      let at₃ = drop-after prog (0x07 ∷ []) _ i₂ i₃ at₂ (omega arith) in
      let end : ip + 7 ≡ i₄ = omega arith in
      rw end (
        Reaches-trans prog material (state ip [] out) (state i₁ (k ∷ []) out) _
          (pushkey_step ip t _ out e in_km)
          (Reaches-trans prog material (state i₁ (k ∷ []) out) (state i₂ (m ∷ k ∷ []) out) _
            (push1_step i₁ m k _ out at₁)
            (Reaches-trans prog material (state i₂ (m ∷ k ∷ []) out)
              (state i₃ (bit_xor m k ∷ []) out) _ (xor_step i₂ m k _ out at₂)
              (wrmem_step i₃ t (bit_xor m k) rest out at₃ in_out))))
