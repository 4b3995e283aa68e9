-- ===== src/Vm/Reaches.antt =====
-- Running a program of src/rustyvm.rs piece by piece: what stands at the instruction pointer, and
-- when one state leads to another.
use hello_old.Base.{
  ℕ, zero, suc, ◌+◌, ◌-◌, ◌<◌, ◌≡◌, refl, ◌∙◌, arith, false, List, [], ◌∷◌, ◌++◌, lt→ltb, length,
  get_or, drop, ◌==◌, value,
}
use hello_old.Vm.Opcodes.{op_halt}
use hello_old.Vm.Reference.{finished, StackVm, pass, perform, settle, interpret}

-- What `drop` says of the bytes at an index.
pub get_or-drop : (xs : List ℕ) (i x : ℕ) (rest : List ℕ) → drop i xs ≡ x ∷ rest → get_or xs i 0 ≡ x
get_or-drop [] zero x rest e = cc
get_or-drop [] (suc i) x rest e = cc
get_or-drop (y ∷ xs) zero x rest e = cc
get_or-drop (y ∷ xs) (suc i) x rest e = get_or-drop xs i x rest e

pub drop-suc :
    (xs : List ℕ) (i x : ℕ) (rest : List ℕ) → drop i xs ≡ x ∷ rest → drop (suc i) xs ≡ rest
drop-suc [] zero x rest e = cc
drop-suc [] (suc i) x rest e = cc
drop-suc (y ∷ xs) zero x rest e = cc
drop-suc (y ∷ xs) (suc i) x rest e = drop-suc xs i x rest e

pub lt-drop : (xs : List ℕ) (i x : ℕ) (rest : List ℕ) → drop i xs ≡ x ∷ rest → i < length xs
lt-drop [] zero x rest e = cc
lt-drop [] (suc i) x rest e = cc
lt-drop (y ∷ xs) zero x rest e = omega arith
lt-drop (y ∷ xs) (suc i) x rest e = omega (arith, lt-drop xs i x rest e)

module _ (prog material : List ℕ) where
  -- From `s` the run goes on as from `t`, with fuel that is enough on both sides.
  pub Reaches : StackVm → StackVm → Type 0
  Reaches s t =
      (fuel : ℕ)
      → length prog - s.ip < fuel
      → (fuel' : ℕ) × (length prog - t.ip < fuel')
        × (interpret prog material fuel s ≡ interpret prog material fuel' t)

  pub Reaches-refl : (s : StackVm) → Reaches s s
  unfolding Reaches
  Reaches-refl s fuel h = (fuel, h, refl)

  pub Reaches-trans : (s t u : StackVm) → Reaches s t → Reaches t u → Reaches s u
  unfolding Reaches
  Reaches-trans s t u p q fuel h =
      let (fuel', h', e) = p fuel h in let (fuel'', h'', e') = q fuel' h' in (fuel'', h'', e ∙ e')

  -- One instruction that is not OP_HALT and ends further on.
  pub Reaches-step :
      (op : ℕ) (rest : List ℕ) (s s' t : StackVm)
      → drop s.ip prog ≡ op ∷ rest
      → perform prog material op (pass 1 s) ≡ value s'
      → (op == op_halt) ≡ false
      → settle prog material op s' ≡ value t
      → s.ip < t.ip
      → Reaches s t
  unfolding Reaches interpret
  Reaches-step op rest s s' t at does on then_does further zero h = absurd (omega arith)
  Reaches-step op rest s s' t at does on then_does further (suc fuel) h =
      let here : s.ip < length prog = lt-drop prog s.ip op rest at in
      (
        fuel,
        omega (arith, further, here),
        rw (
          interpret,
          lt→ltb s.ip (length prog) here,
          get_or-drop prog s.ip op rest at,
          does,
          get_or-drop prog s.ip op rest at,
          on,
          get_or-drop prog s.ip op rest at,
          then_does,
        ),
      )

  -- A run that reaches OP_HALT returns.
  pub interpret_halt :
      (rest : List ℕ) (s t : StackVm) (fuel : ℕ)
      → Reaches s t
      → drop t.ip prog ≡ op_halt ∷ rest
      → length prog - s.ip < fuel
      → interpret prog material fuel s ≡ finished t.ok t.out
  unfolding Reaches
  interpret_halt rest s t fuel r at h = let (fuel', h', e) = r fuel h in e ∙ halts fuel' h'
    where
      halts : (n : ℕ) → length prog - t.ip < n → interpret prog material n t ≡ finished t.ok t.out
      halts zero p = absurd (omega arith)
      halts (suc n) p =
          unfold interpret perform in
          rw (
            interpret,
            lt→ltb t.ip (length prog) (lt-drop prog t.ip op_halt rest at),
            get_or-drop prog t.ip op_halt rest at,
            get_or-drop prog t.ip op_halt rest at,
          )

-- Behind the bytes `front`, what follows them stands.
pub drop-after :
    (xs front rest : List ℕ) (i j : ℕ)
    → drop i xs ≡ front ++ rest
    → j ≡ i + length front
    → drop j xs ≡ rest
drop-after xs [] rest i j e h = let here : j ≡ i = omega arith in rw here e
drop-after xs (x ∷ front) rest i j e h =
    drop-after xs front rest (suc i) j (drop-suc xs i x (front ++ rest) e) (omega arith)
