-- ===== src/Socks5/Timeout/Tests.antt =====
-- Runs of the check for timeouts.
use protos.Base.{ℕ, true, false, [], ◌∷◌, ◌++◌, some, none, ◌≡◌, refl}
use protos.Base.Int.{pos}
use protos.Pool.{Status, ObjectPool, Handlers, execute_on, execute_on_existing}
use protos.Socks5.Timeout.Idle.{idle_client_faults}
use protos.Socks5.Timeout.{Timed, notify_access, is_late, check_single, check_object, check_all}

abbrev handlers : Handlers ℕ
handlers = record { on_create = none; on_dispose = some (λ t. 0) }

-- Objects 1 and 3 are in use.
abbrev pool : ObjectPool ℕ
pool = record {
  handlers = some handlers;
  objects =
      record { object = 1; contents = 0; status = Status.in_use }
      ∷ record { object = 2; contents = 0; status = Status.empty }
      ∷ record { object = 3; contents = 0; status = Status.in_use }
      ∷ [];
}

-- Connected, and last used at the time that is the object's number.
abbrev memory : ℕ → Timed
memory o = record { last_connection_on = pos o; has_address = true; has_remote = true }

abbrev idle : ℕ → Timed
idle o = record { last_connection_on = pos o; has_address = false; has_remote = false }

one_is_late : check_all (pos 8) (λ o. some 10) memory pool ≡ some (1 ∷ [])
unfolding check_all execute_on_existing execute_on check_object check_single is_late
one_is_late = refl

both_are_late : check_all (pos 7) (λ o. some 10) memory pool ≡ some (3 ∷ 1 ∷ [])
unfolding check_all execute_on_existing execute_on check_object check_single is_late
both_are_late = refl

no_timeout : check_all (pos 0) (λ o. none) idle pool ≡ some []
unfolding check_all execute_on_existing execute_on check_object check_single
no_timeout = refl

idle_is_late : check_all (pos 8) (λ o. some 10) idle pool ≡ none
unfolding check_all execute_on_existing execute_on check_object check_single is_late
idle_is_late = refl

used_again :
    notify_access (some 12) (some (idle 1)) ≡ some (record (idle 1) { last_connection_on = pos 12 })
unfolding notify_access
used_again = refl

-- Object 3 stands between one that is in use and one that is not.
idle_client_faults_example :
    check_all
      (pos 6)
      (λ o. some 9)
      idle
      (record {
        handlers = some handlers;
        objects =
            (record { object = 1; contents = 0; status = Status.in_use } ∷ [])
            ++ (record { object = 3; contents = 0; status = Status.in_use }
                ∷ record { object = 2; contents = 0; status = Status.empty }
                ∷ []);
      })
    ≡ none
unfolding is_late
idle_client_faults_example =
    idle_client_faults handlers (record { object = 1; contents = 0; status = Status.in_use } ∷ [])
      (record { object = 2; contents = 0; status = Status.empty } ∷ []) 0 5 9 3 (λ o. some 9) idle
      refl refl refl refl
