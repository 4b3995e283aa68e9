-- ===== src/Archive/Gate.antt =====
-- What must have happened when src/main.rs, `main`, shows a text, whatever the files are.
use hello_old.Base.{
  ℕ, ◌≡◌, refl, ap, ◌∙◌, Bool, true, false, ◌&&◌, List, take, replicate, Option, none, some,
  Checked, panic, value,
}
use hello_old.Vm.Run.{run}
use hello_old.Vm.Reference.{Exit, finished, no_fuel}
use hello_old.Crypto.Suite.{Suite}
use hello_old.Archive.Artifacts.{Artifacts}
use hello_old.Archive.Flow.{
  clock_jump, Ending, revealed, refused, Passed, passed, Flow, stop, next, ◌>>=◌, ensure, expect,
}
use hello_old.Archive.Unlock.{
  Observed, start_up, check_host, network_time, gate, keys_or_destroy, read_program, opening_time,
  recover_dek, verify, unseal, unlock, reveal, expect_text,
}

-- A chain of steps goes on only if each of them does.
pub bind_next :
    {A B : Type 0} (m : Flow A) (f : A → Flow B) (b : B)
    → (m >>= f) ≡ next b
    → (a : A) × (m ≡ next a) × (f a ≡ next b)
bind_next (stop o) f b h = cc
bind_next (next a) f b h = (a, refl, h)

pub ensure-true : (b : Bool) (o : Ending) (x : Passed) → ensure b o ≡ next x → b ≡ true
ensure-true true o x h = refl
ensure-true false o x h = cc

reveal_next :
    (m : Flow (List ℕ × List ℕ)) (meta text : List ℕ)
    → reveal m ≡ revealed meta text
    → m ≡ next (meta, text)
reveal_next (stop o) meta text h = cc
reveal_next (next (x, y)) meta text h = cc

pub expect-some : (r : Option (List ℕ)) (x : List ℕ) → expect r ≡ next x → r ≡ some x
expect-some none x h = cc
expect-some (some y) x h = cc

pub expect_text-some :
    (r : Checked (Option (List ℕ))) (x : List ℕ) → expect_text r ≡ next x → r ≡ value (some x)
expect_text-some panic x h = cc
expect_text-some (value r) x h = ap value (expect-some r x h)

keys_finished : (e : Exit) (keys : List ℕ) → keys_or_destroy e ≡ next keys → e ≡ finished true keys
keys_finished (finished true out) keys h = cc
keys_finished (finished false out) keys h = cc
keys_finished Exit.panicked keys h = cc
keys_finished no_fuel keys h = cc

pub only : (x : Passed) → x ≡ passed
only passed = refl

pub both : (a b : Bool) → (a && b) ≡ true → (a ≡ true) × (b ≡ true)
both true b h = (refl, h)
both false b h = cc

module _ (c : Suite) (a : Artifacts) where
  -- The stages of a run that shows a text.
  pub record Stages (env : Observed) (meta text : List ℕ) : Type 0 where
    pub prog : List ℕ
    pub keys : List ℕ
    pub now : ℕ
    pub open_ts : ℕ
    pub dek : List ℕ
    pub started : start_up env ≡ next passed
    pub entered : read_program c a env.is_terminal env.passwords ≡ next prog
    pub derived : run prog a.km (replicate 64 0) ≡ finished true keys
    pub checked_host : check_host env ≡ next passed
    pub asked : network_time env.consensus env.custom ≡ next now
    pub still_sane : env.anchor_still_sane ≡ true
    pub read_time : opening_time c a (take 32 keys) ≡ next open_ts
    pub late : gate now open_ts ≡ next passed
    pub recovered : recover_dek c a (take 32 keys) ≡ next dek
    pub verified : verify c a open_ts dek ≡ next passed
    pub unsealed : unseal c a open_ts dek ≡ next (meta, text)

  pub unlock-Stages :
      (env : Observed) (meta text : List ℕ)
      → unlock c a env ≡ revealed meta text
      → Stages env meta text
  unfolding unlock
  unlock-Stages env meta text h =
      let (x1, e1, h) = bind_next (start_up env) _ _ (reveal_next _ meta text h) in
      let (prog, e2, h) = bind_next (read_program c a env.is_terminal env.passwords) _ _ h in
      let (keys, e3, h) = bind_next (keys_or_destroy (run prog a.km (replicate 64 0))) _ _ h in
      let (x2, e4, h) = bind_next (check_host env) _ _ h in
      let (now, e5, h) = bind_next (network_time env.consensus env.custom) _ _ h in
      let (x3, e6, h) = bind_next (ensure env.anchor_still_sane (refused clock_jump)) _ _ h in
      let (open_ts, e7, h) = bind_next (opening_time c a (take 32 keys)) _ _ h in
      let (x4, e8, h) = bind_next (gate now open_ts) _ _ h in
      let (dek, e9, h) = bind_next (recover_dek c a (take 32 keys)) _ _ h in
      let (x5, e10, h) = bind_next (verify c a open_ts dek) _ _ h in
      record {
        prog = prog;
        keys = keys;
        now = now;
        open_ts = open_ts;
        dek = dek;
        started = e1 ∙ ap next (only x1);
        entered = e2;
        derived = keys_finished _ keys e3;
        checked_host = e4 ∙ ap next (only x2);
        asked = e5;
        still_sane = ensure-true _ _ x3 e6;
        read_time = e7;
        late = e8 ∙ ap next (only x4);
        recovered = e9;
        verified = e10 ∙ ap next (only x5);
        unsealed = h;
      }
