-- ===== src/Hooks/Panel.antt =====
-- app/src/hooks/usePanelState.js: whether a side panel is shown, the parameters that it was opened
-- with, and the timer that empties them after it has closed.
pub mod Timers
use superfluid_aragon_app.Prelude.{
  ℕ, ◌+◌, Bool, true, false, ◌||◌, Option, none, some, List, [], ◌∷◌, ltb, if◌then◌else◌, keep_if,
  not,
}

-- `P` is the type of the parameters, `empty` the object `{}`.
pub record Panel (P : Type 0) : Type 0 where
  pub visible : Bool
  pub preset_params : Option P
  pub wait_tx_panel : Bool
  pub did_open : Bool
  -- the time, and when each pending timer is due, in milliseconds
  pub now : ℕ
  pub timers : List ℕ

-- What happens to a panel: its four callbacks, the end of a transaction and the passing of time.
pub data Action (P : Type 0) : Type 0 where
  opens : Option P → Action P
  closes : Action P
  transition_end : Bool → Action P
  transaction : Action P
  settled : Action P
  elapse : ℕ → Action P

abbrev pub close_delay : ℕ
close_delay = 1000

abbrev pub any_due : ℕ → List ℕ → Bool
any_due now [] = false
any_due now (t ∷ ts) = not (ltb now t) || any_due now ts

module _ {P : Type 0} where
  abbrev pub initial_panel : Panel P
  initial_panel = record {
    visible = false;
    preset_params = none;
    wait_tx_panel = false;
    did_open = false;
    now = 0;
    timers = [];
  }

  -- `if (params) setPresetParams(params)`.
  abbrev pub or_kept : Option P → Option P → Option P
  or_kept none kept = kept
  or_kept (some params) kept = some params

  unfoldable pub request_open : Option P → Panel P → Panel P
  request_open params s = record s {
    visible = true;
    did_open = false;
    preset_params = or_kept params s.preset_params;
  }

  unfoldable pub request_close : Panel P → Panel P
  request_close s = record s {
    visible = false;
    wait_tx_panel = false;
    timers = (s.now + close_delay) ∷ s.timers;
  }

  unfoldable pub on_transition_end : Bool → Panel P → Panel P
  on_transition_end opened s = record s { did_open = opened }

  -- The promise's outcome follows as `settled`, whether it is resolved or rejected.
  unfoldable pub request_transaction : Panel P → Panel P
  request_transaction s = record s { wait_tx_panel = true }

  unfoldable pub transaction_settled : Panel P → Panel P
  transaction_settled s = record s { wait_tx_panel = false }

  module _ (empty : P) where
    -- The timers that are due by then run `setPresetParams({})`.
    unfoldable pub pass_time : ℕ → Panel P → Panel P
    pass_time ms s =
        let later = s.now + ms in
        record s {
          now = later;
          timers = keep_if (λ t. ltb later t) s.timers;
          preset_params = if any_due later s.timers then some empty else s.preset_params;
        }

    abbrev pub act : Action P → Panel P → Panel P
    act (opens params) s = request_open params s
    act closes s = request_close s
    act (transition_end opened) s = on_transition_end opened s
    act transaction s = request_transaction s
    act settled s = transaction_settled s
    act (elapse ms) s = pass_time ms s

    abbrev pub acts : List (Action P) → Panel P → Panel P
    acts [] s = s
    acts (a ∷ rest) s = acts rest (act a s)
