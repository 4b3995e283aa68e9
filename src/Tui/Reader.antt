-- ===== src/Tui/Reader.antt =====
-- src/tui.rs, `show`: what it returns, by the keys that are pressed.
use hello_old.Base.{
  ℕ, ◌+◌, ◌-◌, ◌≡◌, refl, ap, ◌∙◌, Bool, true, false, List, [], ◌∷◌, Option, none, some, ltb,
  length, if◌then◌else◌, inl, inr,
}
use hello_old.Tui.Pages.{
  Nav, next_page, prev_page, burn, Turned, stay, turn, browse, turned, pages_of,
}
use hello_old.Tui.Keys.{
  Poll, ready, closed, quiet, failed, NavKey, go_next, go_prev, go_burn, decode, or_wait, nav_wait,
  confirm_burn,
}
use hello_old.Tui.Screen.{Draw, pure, ◌>>=◌, ◌>>◌}
use hello_old.Tui.Dialog.{wait_confirm, confirm_dialog}
use hello_old.Tui.Show.{
  or_later, wait_key, Press, target_of, Story, wrapped, story_of, turn_to, answered, act_on_key,
  reading_round, go_on, show_loop, show,
}

abbrev result : {A : Type 0} → Draw A → ℕ → A
result m r = (m r).1.1

-- The key of a round as `turn` reads it, or nothing if it is not pressed yet.
abbrev pub nav_of_answer : Option Bool → Option Nav
nav_of_answer none = none
nav_of_answer (some ok) = some (burn ok)

abbrev pub nav_of_key : Press → Option NavKey → Option Nav
nav_of_key press none = none
nav_of_key press (some go_next) = some next_page
nav_of_key press (some go_prev) = some prev_page
nav_of_key press (some go_burn) =
    nav_of_answer (confirm_burn true (target_of press.seed) press.answer)

unfoldable pub nav_of : Press → Option Nav
nav_of press = nav_of_key press (nav_wait true press.polls)

abbrev pub cons_nav : Option Nav → List Nav → List Nav
cons_nav none navs = []
cons_nav (some nav) navs = nav ∷ navs

-- The keys up to the first that is not pressed yet.
unfoldable pub navs_of : List Press → List Nav
unfolding nav_of
navs_of [] = []
navs_of (press ∷ presses) = cons_nav (nav_of press) (navs_of presses)

or_later-result :
    (key : Option NavKey) (later : Draw (Option NavKey)) (rest : Option NavKey) (r : ℕ)
    → result later r ≡ rest
    → result (or_later key later) r ≡ or_wait key rest
unfolding pure
or_later-result none later rest r e = e
or_later-result (some key) later rest r e = refl

wait_key-result : (polls : List Poll) (r : ℕ) → result (wait_key polls) r ≡ nav_wait true polls
unfolding wait_key nav_wait pure ◌>>◌
wait_key-result [] r = refl
wait_key-result (ready ms b seq ∷ polls) r =
    or_later-result (decode b seq) (wait_key polls) _ _ (wait_key-result polls _)
wait_key-result (closed ms ∷ polls) r = refl
wait_key-result (quiet ∷ polls) r = wait_key-result polls _
wait_key-result (failed ms ∷ polls) r = refl

wait_confirm-result :
    (target : ℕ) (polls : List Poll) (r : ℕ)
    → result (wait_confirm target polls) r ≡ confirm_burn true target polls
unfolding wait_confirm confirm_burn pure ◌>>◌
wait_confirm-result target [] r = refl
wait_confirm-result target (ready ms b seq ∷ polls) r = refl
wait_confirm-result target (closed ms ∷ polls) r = refl
wait_confirm-result target (quiet ∷ polls) r = wait_confirm-result target polls _
wait_confirm-result target (failed ms ∷ polls) r = refl

abbrev turned_by : ℕ → ℕ → Option Nav → Option Turned
turned_by count page none = none
turned_by count page (some nav) = some (turn count page nav)

turn_to-result : (s : Story) (page r : ℕ) → result (turn_to s page) r ≡ some (stay page)
unfolding turn_to pure ◌>>◌
turn_to-result s page r = refl

answered-result :
    (s : Story) (page : ℕ) (ok : Option Bool) (r : ℕ)
    → result (answered s page ok) r ≡ turned_by (length s.pages) page (nav_of_answer ok)
unfolding answered turn pure
answered-result s page none r = refl
answered-result s page (some true) r = refl
answered-result s page (some false) r = turn_to-result s page r

move-result :
    (b : Bool) (s : Story) (page to r : ℕ)
    → result (if b then turn_to s to else pure (some (stay page))) r
      ≡ some (stay (if b then to else page))
unfolding pure
move-result true s page to r = turn_to-result s to r
move-result false s page to r = refl

act_on_key-result :
    (s : Story) (page : ℕ) (press : Press) (key : Option NavKey) (r : ℕ)
    → result (act_on_key s page press key) r
      ≡ turned_by (length s.pages) page (nav_of_key press key)
unfolding act_on_key confirm_dialog turn pure ◌>>=◌ ◌>>◌
act_on_key-result s page press none r = refl
act_on_key-result s page press (some go_next) r = move-result (ltb (page + 1) _) s page (page + 1) r
act_on_key-result s page press (some go_prev) r = move-result (ltb 0 page) s page (page - 1) r
act_on_key-result s page press (some go_burn) r =
    answered-result s page _ _
    ∙ ap (λ ok. turned_by (length s.pages) page (nav_of_answer ok))
        (wait_confirm-result (target_of press.seed) press.answer _)

reading_round-result :
    (s : Story) (page : ℕ) (press : Press) (r : ℕ)
    → result (reading_round s page press) r ≡ turned_by (length s.pages) page (nav_of press)
unfolding reading_round nav_of ◌>>=◌ ◌>>◌
reading_round-result s page press r =
    act_on_key-result s page press _ _
    ∙ ap (λ key. turned_by (length s.pages) page (nav_of_key press key))
        (wait_key-result press.polls _)

-- What `show_loop` returns once `browse` has left or not.
abbrev pub burned : Bool → Option Bool
burned true = some true
burned false = none

module _ (count page : ℕ) (navs : List Nav) (loop : ℕ → Draw (Option Bool)) where
  feed-result :
      ((p r : ℕ) → result (loop p) r ≡ burned (browse count p navs).1)
      → (p r : ℕ) → result (go_on loop (some (stay p))) r ≡ burned (browse count p navs).1
  unfolding ◌>>◌
  feed-result h p r = h p _

  go_on-result :
      (nav : Option Nav) (r : ℕ)
      → ((p r : ℕ) → result (loop p) r ≡ burned (browse count p navs).1)
      → result (go_on loop (turned_by count page nav)) r
        ≡ burned (browse count page (cons_nav nav navs)).1
  unfolding browse pure
  go_on-result none r h = refl
  go_on-result (some nav) r h = elim (turned count page nav) [
    | inl (page', e) ↦ rw (browse, e) (feed-result h page' r)
    | inr (e, k) ↦ rw (browse, e) refl
  ]

show_loop-result :
    (s : Story) (page : ℕ) (presses : List Press) (r : ℕ)
    → result (show_loop s page presses) r
      ≡ burned (browse (length s.pages) page (navs_of presses)).1
unfolding show_loop navs_of browse pure ◌>>=◌
show_loop-result s page [] r = refl
show_loop-result s page (press ∷ presses) r =
    ap (λ t. result (go_on (λ p. show_loop s p presses) t) (reading_round s page press r).1.0)
      (reading_round-result s page press r)
    ∙ go_on-result (length s.pages) page (navs_of presses) (λ p. show_loop s p presses)
        (nav_of press) _ (λ p r'. show_loop-result s p presses r')

only_tty :
    (is_tty : Bool) (m : Draw (Option Bool)) (ok : Option Bool) (r : ℕ)
    → result m r ≡ ok
    → result (if is_tty then m else pure (some false)) r ≡ (if is_tty then ok else some false)
unfolding pure
only_tty true m ok r h = h
only_tty false m ok r h = refl

-- `show` draws, waits for keys and asks for letters, and returns what the plain loop over the keys
-- says: at a terminal, that the burn is confirmed, once `browse` has left, and nothing before; without a
-- terminal, false at once. The keys are what `nav_wait` and `confirm_burn` make of the polls.
pub show-browse :
    (width height : ℕ) (is_tty : Bool) (lines : List (List ℕ)) (unlock_time : List ℕ)
    (presses : List Press) (r : ℕ)
    → (show width height is_tty lines unlock_time presses r).1.1 ≡ (
        if is_tty
        then burned
            (browse (length (pages_of (length (wrapped width lines)) height)) 0 (navs_of presses)).1
        else some false)
unfolding show story_of ◌>>◌
show-browse width height is_tty lines unlock_time presses r =
    only_tty is_tty (show_loop (story_of width height lines) 0 presses) _ _
      (show_loop-result (story_of width height lines) 0 presses _)
