-- ===== src/Socks5/Timeout/Idle.antt =====
-- What the check for timeouts does to a client that has asked for nothing yet, and to one that has
-- been heard from.
use protos.Base.{
  ℕ, suc, Bool, true, false, List, [], ◌∷◌, ◌++◌, Option, none, some, if◌then◌else◌, ◌≡◌, refl, ◌∙◌,
  ap,
}
use protos.Base.Int.{pos}
use protos.Pool.{Status, PooledObject, Handlers, is_in_use, execute_on, execute_on_existing}
use protos.Socks5.Timeout.{Timed, is_late, check_single, check_object, check_all}

-- A call that is made or not leaves the program stopped.
call-none : (w : Option (List ℕ)) → w ≡ none → (b : Bool) → (if b then w else none) ≡ none
call-none w stays true = stays
call-none w stays false = refl

module _ {T : Type 0} (cb : ℕ → Option (List ℕ) → Option (List ℕ))
    (stays : (o : ℕ) → cb o none ≡ none) where
  -- A run that begins with the program stopped ends so.
  execute_on-none : (xs : List (PooledObject T)) → execute_on cb xs none ≡ none
  unfolding execute_on
  execute_on-none [] = refl
  execute_on-none (x ∷ xs) =
      ap (execute_on cb xs) (call-none (cb x.object none) (stays x.object) (is_in_use x.status))
      ∙ execute_on-none xs

  -- A node in use whose callback stops the program, wherever it stands, stops the run.
  execute_on_stops :
      (xs ys : List (PooledObject T)) (o : ℕ) (t : T)
      → ((w : Option (List ℕ)) → cb o w ≡ none)
      → (w : Option (List ℕ))
      → execute_on cb (xs ++ (record { object = o; contents = t; status = Status.in_use } ∷ ys)) w
        ≡ none
  unfolding execute_on
  execute_on_stops [] ys o t stops w = ap (execute_on cb ys) (stops w) ∙ execute_on-none ys
  execute_on_stops (x ∷ xs) ys o t stops w =
      execute_on_stops xs ys o t stops (if is_in_use x.status then cb x.object w else w)

-- A client that is late, and has neither an address nor a remote socket, stops the check.
check_object-idle :
    (m now : ℕ) (clock : ℕ → Option ℕ) (memory : ℕ → Timed) (o : ℕ)
    → clock o ≡ some now
    → is_late now (memory o).last_connection_on (suc m) ≡ true
    → (memory o).has_address ≡ false
    → (memory o).has_remote ≡ false
    → (w : Option (List ℕ)) → check_object (pos (suc m)) clock memory o w ≡ none
unfolding check_object check_single
check_object-idle m now clock memory o h late a r none = refl
check_object-idle m now clock memory o h late a r (some w) = rw (h, late, a, r) refl

-- With a timeout set, a client that is late before a request of it has named an address and has
-- no remote socket ends the program when the connections are checked, whatever else the pool
-- holds.
pub idle_client_faults :
    {T : Type 0} (handlers : Handlers T) (xs ys : List (PooledObject T)) (t : T) (m now o : ℕ)
    (clock : ℕ → Option ℕ) (memory : ℕ → Timed)
    → clock o ≡ some now
    → is_late now (memory o).last_connection_on (suc m) ≡ true
    → (memory o).has_address ≡ false
    → (memory o).has_remote ≡ false
    → check_all (pos (suc m)) clock memory (record {
      handlers = some handlers;
      objects = xs ++ (record { object = o; contents = t; status = Status.in_use } ∷ ys);
    })
      ≡ none
unfolding check_all execute_on_existing check_object
idle_client_faults handlers xs ys t m now o clock memory h late a r =
    execute_on_stops (check_object (pos (suc m)) clock memory) (λ o'. refl) xs ys o t
      (check_object-idle m now clock memory o h late a r) (some [])
