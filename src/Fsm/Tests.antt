-- ===== src/Fsm/Tests.antt =====
-- A machine of two states that counts its callbacks.
use protos.Base.{ℕ, ◌+◌, ◌*◌, List, [], ◌∷◌, none, some, ◌≡◌, refl, arith}
use protos.Base.Fallible.{◌>>=◌}
use protos.Fsm.{StateDefinition, Machine, Event, init_fsm, handle, numbered}
use protos.Fsm.Moves.{IsReady, init_fsm-IsReady, callbacks, handle-callbacks}

abbrev reading : StateDefinition ℕ
reading = record {
  state = 0;
  on_arrival = some (λ n w. some (w + 1));
  on_reentry = none;
  on_departure = some (λ n w. some (w * 2));
  on_read_ready = some (λ w. some (1, w + 10));
  on_write_ready = none;
  on_block_ready = none;
}

abbrev writing : StateDefinition ℕ
writing = record {
  state = 1;
  on_arrival = some (λ n w. some (w + n));
  on_reentry = none;
  on_departure = none;
  on_read_ready = none;
  on_write_ready = some (λ w. some (0, w));
  on_block_ready = none;
}

abbrev table : List (StateDefinition ℕ)
table = reading ∷ writing ∷ []

abbrev uninitialised : Machine ℕ
uninitialised = record { initial_state = 0; states = []; states_size = 1; current_state = none }

abbrev ready : Machine ℕ
ready = record { initial_state = 0; states = table; states_size = 1; current_state = none }

abbrev started : Machine ℕ
started = record ready { current_state = some 0 }

init_fsm-IsReady_example : IsReady ready × (ready.states ≡ table) × (ready.current_state ≡ none)
unfolding init_fsm numbered
init_fsm-IsReady_example = init_fsm-IsReady uninitialised table refl

started-IsReady : IsReady started
unfolding init_fsm numbered
started-IsReady =
    let ok : IsReady ready = (init_fsm-IsReady uninitialised table refl).0 in
    record { entry = ok.entry; starts = ok.starts }

handle-callbacks_example : handle Event.read started 5 ≡ (
    callbacks reading writing 0 1 15 >>= λ w.
    some (1, record started { current_state = some 1 }, w))
handle-callbacks_example =
    handle-callbacks Event.read started 0 1 reading writing 5 15 (λ w. some (1, w + 10))
      started-IsReady refl refl (omega arith) refl (omega arith) refl refl
