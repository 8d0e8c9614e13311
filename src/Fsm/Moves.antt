-- ===== src/Fsm/Moves.antt =====
-- What an event does to a machine whose table is numbered.
use protos.Base.{
  ℕ, zero, suc, ◌+◌, ◌≤◌, ◌<◌, true, false, List, Option, none, some, ◌≡◌, refl, ◌≢◌, sym, ap, ◌∙◌,
  ◌==◌, leb, if◌then◌else◌, arith, get_elem?, ℕ_discrete,
}
use protos.Base.Fallible.{◌>>=◌, >>=_assoc}
use protos.Fsm.{
  StateDefinition, Machine, Event, call, numbered, init_fsm, handle_first, depart, same_state,
  enter, jump, handler, handle,
}

module _ {W : Type 0} where
  -- Every state up to `StatesSize` has its entry, at its own index.
  pub record IsReady (fsm : Machine W) : Type 0 where
    pub entry :
        (i : ℕ)
        → i ≤ fsm.states_size
        → (d : StateDefinition W) × (get_elem? fsm.states i ≡ some d) × (d.state ≡ i)
    pub starts : fsm.initial_state < fsm.states_size

  init_fsm-checks :
      (fsm : Machine W) (table : List (StateDefinition W)) {fsm' : Machine W}
      → init_fsm fsm table ≡ some fsm'
      → (numbered table 0 (fsm.states_size + 1) ≡ true)
        × (fsm.initial_state < fsm.states_size)
        × (record fsm { states = table; current_state = none } ≡ fsm')
  unfolding init_fsm
  init_fsm-checks fsm table h = ground arith

  numbered-head :
      (table : List (StateDefinition W)) (i n : ℕ) (o : Option (StateDefinition W))
      → get_elem? table i ≡ o
      → numbered table i (suc n) ≡ true
      → (d : StateDefinition W) × (get_elem? table i ≡ some d)
        × (d.state ≡ i)
        × (numbered table (i + 1) n ≡ true)
  unfolding numbered
  numbered-head table i n none e h = absurd (ground arith)
  numbered-head table i n (some d) e h = (d, e, ground arith, ground arith)

  numbered-entry :
      (table : List (StateDefinition W)) (i n j : ℕ)
      → numbered table i n ≡ true
      → i ≤ j
      → j < i + n
      → (d : StateDefinition W) × (get_elem? table j ≡ some d) × (d.state ≡ j)
  numbered-entry table i zero j h l k = absurd (omega arith)
  numbered-entry table i (suc n) j h l k =
      let (d, e, num, rest) = numbered-head table i n (get_elem? table i) refl h in
      elim (ℕ_discrete i j) [
        | yes same ↦ (d, ap (get_elem? table) (sym same) ∙ e, num ∙ same)
        | no later ↦ numbered-entry table (i + 1) n j rest (omega arith) (omega arith)
      ]

  -- What `InitFsm` lets pass is ready, and has not started.
  pub init_fsm-IsReady :
      (fsm : Machine W) (table : List (StateDefinition W)) {fsm' : Machine W}
      → init_fsm fsm table ≡ some fsm'
      → IsReady fsm' × (fsm'.states ≡ table) × (fsm'.current_state ≡ none)
  init_fsm-IsReady fsm table h =
      let (num, small, e) = init_fsm-checks fsm table h in
      rw (← e) (
        record {
          entry =
              λ i l. numbered-entry table 0 (fsm.states_size + 1) i num (omega arith) (omega arith);
          starts = small;
        },
        refl,
        refl,
      )

  -- The callbacks of a move from state `k` to state `next`: leaving and arriving, or re-entering.
  unfoldable pub callbacks : StateDefinition W → StateDefinition W → ℕ → ℕ → W → Option W
  callbacks d d' k next w =
      if k == next
      then call d'.on_reentry next w
      else (call d.on_departure k w >>= λ w'. call d'.on_arrival next w')

  stay :
      (fsm : Machine W) (k next : ℕ) (d d' : StateDefinition W) (w : W)
      → fsm.current_state ≡ some k
      → d'.state ≡ next
      → k ≡ next
      → enter fsm next d' w
        ≡ (callbacks d d' k next w >>= λ w'. some (record fsm { current_state = some next }, w'))
  stay fsm k next d d' w c e same =
      let here : fsm.current_state ≡ some next = c ∙ ap some same in
      let unmoved : fsm ≡ record fsm { current_state = some next } = ground (arith, here) in
      entered here
      ∙ ap (λ m. call d'.on_reentry d'.state w >>= λ w'. some (m, w')) unmoved
      ∙ ap (λ r. r >>= λ w'. some (record fsm { current_state = some next }, w')) reentry
    where
      entered :
          fsm.current_state ≡ some next
          → enter fsm next d' w ≡ (call d'.on_reentry d'.state w >>= λ w'. some (fsm, w'))
      entered here =
          let test : same_state fsm.current_state next ≡ true =
            unfold same_state in ground (arith, here) in
          unfold enter in rw test

      reentry : call d'.on_reentry d'.state w ≡ callbacks d d' k next w
      reentry = let test : (k == next) ≡ true = ground arith in unfold callbacks in rw (test, e)

  leave :
      (fsm : Machine W) (k next : ℕ) (d d' : StateDefinition W) (w : W)
      → fsm.current_state ≡ some k
      → (get_elem? fsm.states k ≡ some d) × (d.state ≡ k)
      → d'.state ≡ next
      → k ≢ next
      → enter fsm next d' w
        ≡ (callbacks d d' k next w >>= λ w'. some (record fsm { current_state = some next }, w'))
  unfolding enter callbacks same_state depart
  leave fsm k next d d' w c e e' ne =
      let test : (k == next) ≡ false = ground arith in
      rw (c, test, e', e.0, e.1) (sym (>>=_assoc (call d.on_departure k w) _ _))

  jump-callbacks :
      (fsm : Machine W) (k next : ℕ) (d d' : StateDefinition W) (w : W)
      → fsm.current_state ≡ some k
      → (get_elem? fsm.states k ≡ some d) × (d.state ≡ k)
      → (get_elem? fsm.states next ≡ some d') × (d'.state ≡ next)
      → next ≤ fsm.states_size
      → jump fsm next w
        ≡ (callbacks d d' k next w >>= λ w'. some (record fsm { current_state = some next }, w'))
  jump-callbacks fsm k next d d' w c e e' l = jumped ∙ elim (ℕ_discrete k next) [
    | yes same ↦ stay fsm k next d d' w c e'.1 same
    | no ne ↦ leave fsm k next d d' w c e e'.1 ne
  ]
    where
      jumped : jump fsm next w ≡ enter fsm next d' w
      jumped =
          let test : leb next fsm.states_size ≡ true = ground arith in
          unfold jump in rw (test, e'.0)

  -- An event in state `k`, whose handler answers `next`, runs the handler, then the callbacks of
  -- the move, each with the number of its own state, and leaves the machine in `next`.
  pub handle-callbacks :
      (e : Event) (fsm : Machine W) (k next : ℕ) (d d' : StateDefinition W) (w w' : W)
      (run : W → Option (ℕ × W))
      → IsReady fsm
      → fsm.current_state ≡ some k
      → get_elem? fsm.states k ≡ some d
      → k ≤ fsm.states_size
      → get_elem? fsm.states next ≡ some d'
      → next ≤ fsm.states_size
      → handler e d ≡ some run
      → run w ≡ some (next, w')
      → handle e fsm w ≡ (
          callbacks d d' k next w' >>= λ w''.
          some (next, record fsm { current_state = some next }, w''))
  unfolding handle
  handle-callbacks e fsm k next d d' w w' run ready c at_k l at_next l' h r =
      simp (started, c, at_k, h, r, jumped) (>>=_assoc (callbacks d d' k next w') _ _)
    where
      started : handle_first fsm w ≡ some (fsm, w)
      started = unfold handle_first in simp (c, handle_first)

      own :
          (i : ℕ) (x : StateDefinition W)
          → i ≤ fsm.states_size
          → get_elem? fsm.states i ≡ some x
          → x.state ≡ i
      own i x l at = ground (arith, ready.entry i l)

      jumped : jump fsm next w' ≡ (
          callbacks d d' k next w' >>= λ w''. some (record fsm { current_state = some next }, w''))
      jumped =
          jump-callbacks fsm k next d d' w' c (at_k, own k d l at_k)
            (at_next, own next d' l' at_next) l'
