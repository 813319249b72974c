-- ===== src/Gui/Window/Laws.antt =====
-- The timers of the status bar.
use pound_drever_hall.Common.{ℕ, ◌≡◌, refl, ap, true, Option, none, some, List, [], ◌∷◌, arith}
use pound_drever_hall.Gui.Window.{
  Status, ready, Timers, remove, has, after, after_cancel, cancel_any, StatusBar, set_status,
  clear_status, fire,
}

abbrev Owns : Option ℕ → List ℕ → Type 0
Owns none pending = pending ≡ []
Owns (some id) pending = pending ≡ id ∷ []

cancel_any-Owns : (o : Option ℕ) (t : Timers) → Owns o t.pending → (cancel_any o t).pending ≡ []
unfolding cancel_any after_cancel
cancel_any-Owns none t h = h
cancel_any-Owns (some id) t h = rw h (ground arith)

remove-Owns :
    (o : Option ℕ) (id : ℕ) (pending : List ℕ)
    → Owns o pending
    → has id pending ≡ true
    → remove id pending ≡ []
remove-Owns none id pending h k = cc (rw h at k)
remove-Owns (some t) id pending h k = rw h (ground arith)

module _ {F : Type 0} where
  -- What the event loop and the handlers do to the status bar.
  pub data Step : StatusBar F → StatusBar F → Type 0 where
    set : (b : StatusBar F) (s : Status F) → Step b (set_status s b)
    due : (b : StatusBar F) (id : ℕ) → has id b.timers.pending ≡ true → Step b (fire id b)

  pub data Reach (b : StatusBar F) : StatusBar F → Type 0 where
    here : Reach b b
    next : {c d : StatusBar F} → Reach b c → Step c d → Reach b d

  -- The timer that the bar remembers is the only one that is pending, and with no timer it shows
  -- "Ready".
  pub record IsTidy (b : StatusBar F) : Type 0 where
    pub owns : Owns b.status_timer b.timers.pending
    pub idle : b.status_timer ≡ none → b.status ≡ ready

  Step-IsTidy : {b c : StatusBar F} → Step b c → IsTidy b → IsTidy c
  unfolding set_status fire clear_status after after_cancel
  Step-IsTidy (set b s) t = record {
    owns =
        ap (λ ts. (cancel_any b.status_timer b.timers).next_id ∷ ts)
          (cancel_any-Owns b.status_timer b.timers t.owns);
    idle = λ e. cc;
  }
  Step-IsTidy (due b id e) t = record {
    owns = remove-Owns b.status_timer id b.timers.pending t.owns e;
    idle = λ _. refl;
  }

  -- From a tidy status bar, however messages and timers follow one another, at most one timer is pending, the one that the
  -- status bar remembers; so a message is never cleared by the timer of an earlier one.
  pub Reach-IsTidy : {b c : StatusBar F} → IsTidy b → Reach b c → IsTidy c
  Reach-IsTidy t here = t
  Reach-IsTidy t (next r st) = Step-IsTidy st (Reach-IsTidy t r)
