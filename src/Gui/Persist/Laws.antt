-- ===== src/Gui/Persist/Laws.antt =====
-- How many locks and ticks the persistent mode has under way.
use pound_drever_hall.Common.{
  ℕ, suc, ◌+◌, ◌≡◌, ◌≢◌, refl, ap, ◌∙◌, ◌⊎◌, inl, inr, true, false, some, [], ◌∷◌, if◌then◌else◌,
  arith, ◌<◌, length, Bool-cases,
}
use pound_drever_hall.Common.Int.{ℤ}
use pound_drever_hall.Python.Float.{Float}
use pound_drever_hall.Gui.Check.{Check, accepted, refused, dropped}
use pound_drever_hall.Gui.Window.{has, after, after_cancel, cancel_any}
use pound_drever_hall.Gui.Persist.{
  Persist, initial_persist, LockForm, schedule, check_period, read_lock_params, start_lock,
  persist_tick, fire_tick, running, start, stop, on_persist_toggle, lock_done,
}

module _ {F : Type 0} where
  -- The flag tells exactly whether a lock is in flight, and there is never a second one.
  abbrev pub IsExclusive : Persist F → Type 0
  IsExclusive p = length p.in_flight ≡ (if p.persist_busy then 1 else 0)

  -- What is still to run on its own: ticks that are pending and locks in flight.
  abbrev chains : Persist F → ℕ
  chains p = length p.timers.pending + length p.in_flight

module _ {F : Type 0} ⦃fl : Float F⦄ where
  -- The button, a tick that is due, and the end of a lock, in any order, with any entries.
  pub data Step : Persist F → Persist F → Type 0 where
    toggle : (form : LockForm) (p : Persist F) → Step p (on_persist_toggle form p)
    due :
        (id : ℕ) (form : LockForm) (p : Persist F)
        → has id p.timers.pending ≡ true
        → Step p (fire_tick id form p)
    done : (p : Persist F) → 0 < length p.in_flight → Step p (lock_done p)

  pub data Reach (p : Persist F) : Persist F → Type 0 where
    here : Reach p p
    next : {q r : Persist F} → Reach p q → Step q r → Reach p r

  persist_tick-IsExclusive :
      (form : LockForm) (p : Persist F) → IsExclusive p → IsExclusive (persist_tick form p)
  unfolding persist_tick start_lock schedule after
  persist_tick-IsExclusive form p x = ground arith

  Step-IsExclusive : {p q : Persist F} → Step p q → IsExclusive p → IsExclusive q
  unfolding on_persist_toggle fire_tick lock_done schedule after
  Step-IsExclusive (toggle form p) x =
      ground (
        arith,
        persist_tick-IsExclusive form (record p { persist_running = true; shown = running }),
      )
  Step-IsExclusive (due id form p h) x = persist_tick-IsExclusive form _ x
  Step-IsExclusive (done p h) x = ground arith

  -- From a state whose busy flag tells exactly whether one lock is in flight, with never a second one,
  -- however clicks, ticks and the ends of locks follow one another, this stays so.
  pub Reach-IsExclusive : {p q : Persist F} → IsExclusive p → Reach p q → IsExclusive q
  Reach-IsExclusive x here = x
  Reach-IsExclusive x (next r st) = Step-IsExclusive st (Reach-IsExclusive x r)

  -- No tick but the remembered one is pending. While the mode runs, exactly one thing is under way,
  -- a tick or a lock; while it does not run, no tick is.
  pub record IsOneChain (p : Persist F) : Type 0 where
    pub exclusive : IsExclusive p
    pub owned :
        (p.timers.pending ≡ [])
        ⊎ ((id : ℕ) × (p.persist_after_id ≡ some id) × (p.timers.pending ≡ id ∷ []))
    pub one : p.persist_running ≡ true → chains p ≡ 1
    pub quiet : p.persist_running ≡ false → p.timers.pending ≡ []

  -- A step that does not start the mode again before its last lock has ended.
  abbrev IsPatient : {p q : Persist F} → Step p q → Type 0
  IsPatient (toggle form p) = (p.persist_running ≡ true) ⊎ (p.persist_busy ≡ false)
  IsPatient (due id form p h) = Unit
  IsPatient (done p h) = Unit

  -- Entries that a tick reads ask no question.
  read_lock_params-asks_nothing : (form : LockForm) → read_lock_params {F = F} form ≢ dropped
  unfolding read_lock_params
  read_lock_params-asks_nothing form h = ground arith

  -- What a tick finds when it has been taken from the timers.
  tick-IsOneChain :
      (form : LockForm) (p : Persist F)
      → IsExclusive p
      → p.timers.pending ≡ []
      → (p.persist_running ≡ true → p.persist_busy ≡ false)
      → IsOneChain (persist_tick form p)
  unfolding persist_tick start_lock schedule after
  tick-IsOneChain form p x e f = record {
    exclusive = persist_tick-IsExclusive form p x;
    owned = ground arith;
    one = ground (arith, read_lock_params-asks_nothing form);
    quiet = ground arith;
  }

  check_period-asks_nothing : (form : LockForm) → check_period {F = F} form ≢ dropped
  unfolding check_period
  check_period-asks_nothing form h = ground arith

  stop-IsOneChain : (p : Persist F) → IsOneChain p → IsOneChain (stop p)
  unfolding cancel_any after_cancel
  stop-IsOneChain p c = record {
    exclusive = c.exclusive;
    owned = ground (arith, c.owned);
    one = ground arith;
    quiet = ground (arith, c.owned);
  }

  start-IsOneChain :
      (ms : Check F ℤ) (form : LockForm) (p : Persist F)
      → IsOneChain p
      → p.persist_running ≡ false
      → p.persist_busy ≡ false
      → IsOneChain (start ms form p)
  start-IsOneChain (accepted ms) form p c e f =
      tick-IsOneChain form (record p { persist_running = true; shown = running }) c.exclusive
        (c.quiet e) λ _. f
  start-IsOneChain (refused m) form p c e f = c
  start-IsOneChain dropped form p c e f = c

  toggle-IsOneChain :
      (form : LockForm) (p : Persist F)
      → (p.persist_running ≡ true) ⊎ (p.persist_busy ≡ false)
      → IsOneChain p
      → IsOneChain (on_persist_toggle form p)
  unfolding on_persist_toggle
  toggle-IsOneChain form p patient c = elim (Bool-cases p.persist_running) [
    | inl e ↦ simp e (stop-IsOneChain p c)
    | inr e ↦ simp e (start-IsOneChain (check_period form) form p c e (ground (arith, patient)))
  ]

  -- The tick that is due is the one that the mode remembers, and it is the only one.
  due-empty :
      (id : ℕ) (p : Persist F)
      → IsOneChain p
      → has id p.timers.pending ≡ true
      → (after_cancel id p.timers).pending ≡ []
  unfolding after_cancel
  due-empty id p c h = elim c.owned [
    | inl e ↦ cc (rw e at h)
    | inr (t, _, e) ↦ let k = rw e at h in rw e (ground arith)
  ]

  due-idle :
      (id : ℕ) (p : Persist F)
      → IsOneChain p
      → has id p.timers.pending ≡ true
      → p.persist_running ≡ true
      → p.persist_busy ≡ false
  due-idle id p c h e = ground (arith, c.owned, c.one e, c.exclusive)

  done-IsOneChain :
      (p : Persist F) → 0 < length p.in_flight → IsOneChain p → IsOneChain (lock_done p)
  unfolding lock_done schedule after
  done-IsOneChain p h c = record {
    exclusive = Step-IsExclusive (done p h) c.exclusive;
    owned = ground (arith, c.owned, c.one, c.quiet);
    one = ground (arith, c.one, c.exclusive);
    quiet = ground (arith, c.quiet);
  }

  pub patient-IsOneChain :
      {p q : Persist F} (st : Step p q) → IsPatient st → IsOneChain p → IsOneChain q
  unfolding fire_tick
  patient-IsOneChain (toggle form p) patient c = toggle-IsOneChain form p patient c
  patient-IsOneChain (due id form p h) patient c =
      tick-IsOneChain form (record p { timers = after_cancel id p.timers }) c.exclusive
        (due-empty id p c h) (due-idle id p c h)
  patient-IsOneChain (done p h) patient c = done-IsOneChain p h c

  busy-no_tick :
      (p : Persist F)
      → IsOneChain p
      → p.persist_running ≡ true
      → p.persist_busy ≡ true
      → p.timers.pending ≡ []
  busy-no_tick p c e f = ground (arith, c.one e, c.exclusive)

  stop-no_tick : (p : Persist F) → p.timers.pending ≡ [] → (stop p).timers.pending ≡ []
  unfolding cancel_any after_cancel
  stop-no_tick p e = ground (arith, e)

  -- With a lock in flight, starting only schedules a tick, and the end of the lock another one.
  start_done-two_ticks :
      (form : LockForm) (p : Persist F) (ms : ℤ)
      → p.persist_busy ≡ true
      → p.timers.pending ≡ []
      → length (lock_done (start (accepted ms) form p)).timers.pending ≡ 2
  unfolding lock_done persist_tick schedule after
  start_done-two_ticks form p ms f e = rw f (ap (λ ts. suc (suc (length ts))) e)

  toggle_running :
      (form : LockForm) (p : Persist F)
      → p.persist_running ≡ true
      → on_persist_toggle form p ≡ stop p
  unfolding on_persist_toggle
  toggle_running form p e = simp e refl

  toggle_stopped :
      (form : LockForm) (p : Persist F)
      → p.persist_running ≡ false
      → on_persist_toggle form p ≡ start (check_period form) form p
  unfolding on_persist_toggle
  toggle_stopped form p e = simp e refl

  -- If the mode, with one thing under way, runs with a lock in flight and is stopped and started again
  -- before that lock ends,
  -- with a legal period, then the end of the lock leaves two ticks pending.
  pub restart-two_ticks :
      (form : LockForm) (p : Persist F) (ms : ℤ)
      → IsOneChain p
      → p.persist_running ≡ true
      → p.persist_busy ≡ true
      → check_period {F = F} form ≡ accepted ms
      → length (lock_done (on_persist_toggle form (on_persist_toggle form p))).timers.pending ≡ 2
  restart-two_ticks form p ms c e f h =
      let again : on_persist_toggle form (on_persist_toggle form p)
          ≡ start (accepted ms) form (stop p) =
        ap (on_persist_toggle form) (toggle_running form p e)
        ∙ toggle_stopped form (stop p) refl
        ∙ ap (λ ms. start ms form (stop p)) h in
      ap (λ q. length (lock_done q).timers.pending) again
      ∙ start_done-two_ticks form (stop p) ms f (stop-no_tick p (busy-no_tick p c e f))

  pub data PatientReach (p : Persist F) : Persist F → Type 0 where
    here : PatientReach p p
    next : {q r : Persist F} → PatientReach p q → (st : Step q r) → IsPatient st → PatientReach p r

  -- From the initial state, as long as the mode is not started again while its last lock is still in
  -- flight, no tick but the remembered one is pending, exactly one tick or lock is under way while
  -- the mode runs, and no tick is pending while it does not.
  pub patient_run-IsOneChain : {q : Persist F} → PatientReach initial_persist q → IsOneChain q
  patient_run-IsOneChain here = record {
    exclusive = refl;
    owned = inl refl;
    one = λ e. cc;
    quiet = λ e. refl;
  }
  patient_run-IsOneChain (next r st h) = patient-IsOneChain st h (patient_run-IsOneChain r)
