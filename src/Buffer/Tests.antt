-- ===== src/Buffer/Tests.antt =====
-- A buffer of four bytes in use.
use protos.Base.{List, [], ◌∷◌, ◌≡◌, arith, replicate}
use protos.Buffer.{init}
use protos.Buffer.Inv.{init-IsValid}
use protos.Buffer.Queue as Queue
use protos.Buffer.Queue.{Op}
use protos.Buffer.Refine.{run, view, run_refines}

abbrev calls : List Op
calls =
    Op.fill (1 ∷ 2 ∷ 3 ∷ [])
    ∷ Op.drain 2
    ∷ Op.put 4
    ∷ Op.put 5
    ∷ Op.compact_now
    ∷ Op.put 6
    ∷ Op.get
    ∷ Op.reset_now
    ∷ Op.get
    ∷ []

run_refines_example :
    run (init 4 (replicate 4 0)) calls
    ≡ Queue.run (init 4 (replicate 4 0)).size (view (init 4 (replicate 4 0))) calls
unfolding replicate
run_refines_example =
    run_refines calls {b = init 4 (replicate 4 0)} (init-IsValid 4 (replicate 4 0) (omega arith))
