-- ===== src/Pool/Tests.antt =====
-- A pool of two objects, one of them in use.
use protos.Base.{ℕ, suc, true, false, [], ◌∷◌, some, ◌==◌, ◌≡◌, arith, if◌then◌else◌}
use protos.Pool.{Status, PooledObject, Handlers, ObjectPool, get_object, destroy_object}
use protos.Pool.Live.{is_live, Distinct, ready, pool_is_set}

abbrev handlers : Handlers ℕ
handlers = record { on_create = some suc; on_dispose = some (λ t. 0) }

abbrev seven : PooledObject ℕ
seven = record { object = 7; contents = 1; status = Status.in_use }

abbrev eight : PooledObject ℕ
eight = record { object = 8; contents = 0; status = Status.empty }

pool_is_set_example :
    ((o : ℕ) × (r : ObjectPool ℕ) × (get_object 0 9 (ready handlers seven (eight ∷ []))
        ≡ some (o, r))
      × (is_live (seven ∷ eight ∷ []) o ≡ false)
      × ((q : ℕ) → is_live r.objects q ≡ (if o == q then true else is_live (seven ∷ eight ∷ []) q))
      × Distinct r.objects)
    × ((q : ℕ)
        → is_live (destroy_object 7 (ready handlers seven (eight ∷ []))).objects q
          ≡ (if 7 == q then false else is_live (seven ∷ eight ∷ []) q))
    × Distinct (destroy_object 7 (ready handlers seven (eight ∷ []))).objects
pool_is_set_example = pool_is_set handlers 0 9 seven (eight ∷ []) 7 (ground arith) (ground arith)
