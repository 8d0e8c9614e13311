-- ===== src/Fsm.antt =====
-- socks5d/lib/fsm/fsm.c: the state machine that drives a connection. `W` is what the callbacks
-- read and change through the selector's key. `none` is an `abort()`, a missing entry of the
-- table, or a callback that stops the program.
pub mod Moves
mod Tests
use protos.Base.{
  ℕ, zero, suc, ◌+◌, Bool, true, false, not, List, Option, none, some, ◌==◌, leb, ltb,
  if◌then◌else◌, get_elem?,
}
use protos.Base.Fallible.{◌>>=◌}

-- `StateDefinition`. A null pointer is `none`.
pub record StateDefinition (W : Type 0) : Type 0 where
  pub state : ℕ
  pub on_arrival : Option (ℕ → W → Option W)
  pub on_reentry : Option (ℕ → W → Option W)
  pub on_departure : Option (ℕ → W → Option W)
  pub on_read_ready : Option (W → Option (ℕ × W))
  pub on_write_ready : Option (W → Option (ℕ × W))
  pub on_block_ready : Option (W → Option (ℕ × W))

-- `FiniteStateMachine`. `CurrentState` points into the table: its index, or null.
pub record Machine (W : Type 0) : Type 0 where
  pub initial_state : ℕ
  pub states : List (StateDefinition W)
  pub states_size : ℕ
  pub current_state : Option ℕ

-- The three events that have a handler in each state.
pub data Event : Type 0 where
  read write block : Event

-- `fsm->CurrentState == fsm->States + next`
unfoldable pub same_state : Option ℕ → ℕ → Bool
same_state none n = false
same_state (some k) n = k == n

module _ {W : Type 0} where
  -- A callback that may be null, called with the state's number.
  unfoldable pub call : Option (ℕ → W → Option W) → ℕ → W → Option W
  call none n w = some w
  call (some f) n w = f n w

  -- The check of `InitFsm`: `n` entries from index `i` on are numbered by their index.
  unfoldable pub numbered : List (StateDefinition W) → ℕ → ℕ → Bool
  numbered table i zero = true
  numbered table i (suc n) = elim (get_elem? table i) [
    | none ↦ false
    | some d ↦ if i == d.state then numbered table (i + 1) n else false
  ]

  -- `InitFsm`: the loop runs for `i <= StatesSize`.
  unfoldable pub init_fsm : Machine W → List (StateDefinition W) → Option (Machine W)
  unfolding numbered
  init_fsm fsm table =
      if not (numbered table 0 (fsm.states_size + 1))
      then none
      else if ltb fsm.initial_state fsm.states_size
      then some (record fsm { states = table; current_state = none })
      else none

  -- `handle_first`
  unfoldable pub handle_first : Machine W → W → Option (Machine W × W)
  unfolding call
  handle_first fsm w = elim fsm.current_state [
    | some k ↦ some (fsm, w)
    | none ↦ do
      d ← get_elem? fsm.states fsm.initial_state
      w' ← call d.on_arrival d.state w
      some (record fsm { current_state = some fsm.initial_state }, w')
  ]

  -- Leaving the entry `k` of the table, which may be null.
  unfoldable pub depart : Machine W → Option ℕ → W → Option W
  unfolding call
  depart fsm none w = some w
  depart fsm (some k) w = do d ← get_elem? fsm.states k; call d.on_departure d.state w

  -- The two branches of `jump`, at the entry `d` of the table for `next`.
  unfoldable pub enter : Machine W → ℕ → StateDefinition W → W → Option (Machine W × W)
  unfolding call depart same_state
  enter fsm next d w =
      if same_state fsm.current_state next
      then call d.on_reentry d.state w >>= (λ w'. some (fsm, w'))
      else (depart fsm fsm.current_state w >>= λ w'. call d.on_arrival d.state w' >>= λ w''.
          some (record fsm { current_state = some next }, w''))

  -- `jump`
  unfoldable pub jump : Machine W → ℕ → W → Option (Machine W × W)
  unfolding enter
  jump fsm next w =
      if not (leb next fsm.states_size)
      then none
      else (get_elem? fsm.states next >>= λ d. enter fsm next d w)

  abbrev pub handler : Event → StateDefinition W → Option (W → Option (ℕ × W))
  handler read d = d.on_read_ready
  handler write d = d.on_write_ready
  handler block d = d.on_block_ready

  -- `HandleReadFsm`, `HandleWriteFsm` and `HandleBlockFsm`: a state with no handler aborts.
  unfoldable pub handle : Event → Machine W → W → Option (ℕ × Machine W × W)
  handle e fsm w = do
    started ← handle_first fsm w
    k ← started.0.current_state
    d ← get_elem? started.0.states k
    run ← handler e d
    ran ← run started.1
    moved ← jump started.0 ran.0 ran.1
    some (ran.0, moved.0, moved.1)

  -- `HandleCloseFsm`
  unfoldable pub handle_close : Machine W → W → Option W
  unfolding depart
  handle_close fsm w = depart fsm fsm.current_state w

  -- `GetStateFromFsm`
  unfoldable pub get_state : Machine W → Option ℕ
  get_state fsm = elim fsm.current_state [
    | none ↦ some fsm.initial_state
    | some k ↦ (do d ← get_elem? fsm.states k; some d.state)
  ]
