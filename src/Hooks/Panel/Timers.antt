-- ===== src/Hooks/Panel/Timers.antt =====
-- What a panel shows of its parameters, with and without a timer of an earlier close.
use superfluid_aragon_app.Prelude.{
  ℕ, ◌+◌, ◌-◌, ◌<◌, ◌≡◌, refl, true, false, some, List, [], ◌∷◌, All, arith, ltb,
}
use superfluid_aragon_app.Hooks.Panel.{
  Panel, Action, opens, closes, transition_end, transaction, settled, elapse, close_delay,
  request_open, request_close, on_transition_end, request_transaction, transaction_settled,
  pass_time, act, acts,
}

module _ {P : Type 0} (empty : P) where
  -- Neither opens nor closes the panel.
  abbrev pub IsInside : Action P → Type 0
  IsInside (opens params) = ⊥
  IsInside closes = ⊥
  IsInside _ = Unit

  -- The panel is shown with the parameters, and no timer is pending.
  pub record Shows (params : P) (s : Panel P) : Type 0 where
    pub shown : s.visible ≡ true
    pub given : s.preset_params ≡ some params
    pub no_timer : s.timers ≡ []

  act-Shows :
      (params : P) (a : Action P) (s : Panel P)
      → IsInside a
      → Shows params s
      → Shows params (act empty a s)
  unfolding on_transition_end request_transaction transaction_settled pass_time
  act-Shows params (opens q) s i h = elim i [ ]
  act-Shows params closes s i h = elim i [ ]
  act-Shows params (transition_end b) s i h = record {
    shown = h.shown;
    given = h.given;
    no_timer = h.no_timer;
  }
  act-Shows params transaction s i h = record {
    shown = h.shown;
    given = h.given;
    no_timer = h.no_timer;
  }
  act-Shows params settled s i h = record {
    shown = h.shown;
    given = h.given;
    no_timer = h.no_timer;
  }
  act-Shows params (elapse ms) s i h = record {
    shown = h.shown;
    given = rw h.no_timer h.given;
    no_timer = rw h.no_timer;
  }

  acts-Shows :
      (params : P) (steps : List (Action P)) (s : Panel P)
      → All IsInside steps
      → Shows params s
      → Shows params (acts empty steps s)
  acts-Shows params [] s i h = h
  acts-Shows params (a ∷ steps) s i h =
      acts-Shows params steps (act empty a s) i.1 (act-Shows params a s i.0 h)

  -- A panel that is opened with parameters while no timer is pending stays visible with them until it
  -- is opened again or closed, whatever transitions, transactions and delays come between.
  pub opened_params_stay :
      (s : Panel P) (params : P) (steps : List (Action P))
      → s.timers ≡ []
      → All IsInside steps
      → let after = acts empty steps (request_open (some params) s) in
        (after.visible ≡ true) × (after.preset_params ≡ some params)
  unfolding request_open
  opened_params_stay s params steps h i =
      let end =
        acts-Shows params steps (request_open (some params) s) i
          (record { shown = refl; given = refl; no_timer = h }) in
      (end.shown, end.given)

  -- A panel that is closed and opened again with parameters less than a second later loses them: when
  -- the timer of the close is due, the panel is visible and its parameters are the empty object.
  pub reopened_params_lost :
      (s : Panel P) (params : P) (ms : ℕ)
      → ms < close_delay
      → let reopened = acts empty (closes ∷ elapse ms ∷ opens (some params) ∷ []) s in
        let later = act empty (elapse (close_delay - ms)) reopened in
        (reopened.preset_params ≡ some params)
        × (later.visible ≡ true)
        × (later.preset_params ≡ some empty)
  unfolding request_open request_close pass_time
  reopened_params_lost s params ms h =
      let pending : ltb (s.now + ms) (s.now + close_delay) ≡ true = ground arith in
      let due : ltb (s.now + ms + (close_delay - ms)) (s.now + close_delay) ≡ false =
        ground arith in
      (refl, refl, rw (pending, due))
