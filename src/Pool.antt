-- ===== src/Pool.antt =====
-- socks5d/lib/utils/object_pool.c: objects that are handed out and taken back. A pointer is a
-- number; the memory that `calloc` gives is an argument, and that it fails is not modelled: the
-- program stops. `T` is what an object holds. A null pool is not modelled; null handlers are.
pub mod Live
mod Tests
use protos.Base.{
  ℕ, zero, suc, ◌+◌, ◌-◌, Bool, true, false, not, ◌&&◌, ◌||◌, List, [], ◌∷◌, Option, none, some,
  ◌==◌, ltb, if◌then◌else◌,
}

-- `PooledObjectStatus`
pub data Status : Type 0 where
  empty in_use : Status

abbrev pub is_in_use : Status → Bool
is_in_use Status.empty = false
is_in_use Status.in_use = true

-- `PooledObject`, with what its object holds. The list stands for the `Next` pointers.
pub record PooledObject (T : Type 0) : Type 0 where
  pub object : ℕ
  pub contents : T
  pub status : Status

-- `ObjectPoolHandlers`
pub record Handlers (T : Type 0) : Type 0 where
  pub on_create : Option (T → T)
  pub on_dispose : Option (T → T)

-- `ObjectPool`
pub record ObjectPool (T : Type 0) : Type 0 where
  pub handlers : Option (Handlers T)
  pub objects : List (PooledObject T)

module _ {T : Type 0} where
  -- A handler that may be null.
  unfoldable pub apply : Option (T → T) → T → T
  apply none t = t
  apply (some f) t = f t

  -- A node that is created, for the memory at `object`, cleared to `cleared`.
  abbrev pub new_object : T → ℕ → Status → PooledObject T
  new_object cleared object status = record { object = object; contents = cleared; status = status }

  -- The nodes of `InitObjectPool`: `n` of them, at the pointers that `allocate` gives.
  unfoldable pub create_objects : T → (ℕ → ℕ) → ℕ → List (PooledObject T)
  create_objects cleared allocate zero = []
  create_objects cleared allocate (suc n) =
      new_object cleared (allocate n) Status.empty ∷ create_objects cleared allocate n

  -- `InitObjectPool`
  unfoldable pub init : Handlers T → T → (ℕ → ℕ) → ℕ → ObjectPool T
  unfolding create_objects
  init handlers cleared allocate size = record {
    handlers = some handlers;
    objects = create_objects cleared allocate (if ltb size 1 then 1 else size);
  }

  -- The search of `GetObjectFromPool`: the first empty node is taken; otherwise a node is added
  -- behind the last.
  unfoldable pub take_object :
      Handlers T → T → ℕ → List (PooledObject T) → ℕ × List (PooledObject T)
  unfolding apply
  take_object h cleared fresh [] = (
    fresh,
    record { object = fresh; contents = apply h.on_create cleared; status = Status.in_use } ∷ [],
  )
  take_object h cleared fresh (x ∷ xs) =
      let rest = take_object h cleared fresh xs in
      if is_in_use x.status then (rest.0, x ∷ rest.1) else (
        x.object,
        record x { contents = apply h.on_create x.contents; status = Status.in_use } ∷ xs,
      )

  -- `GetObjectFromPool`. `none` is its null result, for null handlers, and also a pool without a
  -- node, whose null pointer is followed.
  unfoldable pub get_object : T → ℕ → ObjectPool T → Option (ℕ × ObjectPool T)
  unfolding take_object
  get_object cleared fresh p = elim p.handlers [
    | none ↦ none
    | some h ↦ (elim p.objects [
      | [] ↦ none
      | x ∷ xs ↦
          (let taken = take_object h cleared fresh (x ∷ xs) in
            some (taken.0, record p { objects = taken.1 }))
    ])
  ]

  -- The first node with this object is emptied, and its object disposed of.
  unfoldable pub release : Handlers T → ℕ → List (PooledObject T) → List (PooledObject T)
  unfolding apply
  release h object [] = []
  release h object (x ∷ xs) =
      let rest = release h object xs in
      if x.object == object
      then record x { contents = apply h.on_dispose x.contents; status = Status.empty } ∷ xs
      else x ∷ rest

  -- `DestroyObject`. Of an object that the pool does not hold, it disposes outside the pool.
  unfoldable pub destroy_object : ℕ → ObjectPool T → ObjectPool T
  unfolding release
  destroy_object object p = elim p.handlers [
    | none ↦ p
    | some h ↦ record p { objects = release h object p.objects }
  ]

  -- Whether some object is handed out.
  unfoldable pub any_in_use : List (PooledObject T) → Bool
  any_in_use [] = false
  any_in_use (x ∷ xs) = is_in_use x.status || any_in_use xs

  -- `CleanObjectPool` frees everything. `OnDispose` is given the node in place of its object, so
  -- it writes outside the node: `none`, when there is a handler and an object in use.
  unfoldable pub clean : ObjectPool T → Option (ObjectPool T)
  unfolding any_in_use
  clean p = elim p.handlers [
    | none ↦ some p
    | some h ↦ (elim h.on_dispose [
      | none ↦ some (record p { objects = [] })
      | some f ↦ if any_in_use p.objects then none else some (record p { objects = [] })
    ])
  ]

  -- `ExecuteOnExistingElements`: the callback runs on each object in use, in order.
  unfoldable pub execute_on : {W : Type 0} → (ℕ → W → W) → List (PooledObject T) → W → W
  execute_on callback [] w = w
  execute_on callback (x ∷ xs) w =
      execute_on callback xs (if is_in_use x.status then callback x.object w else w)

  unfoldable pub execute_on_existing : {W : Type 0} → (ℕ → W → W) → ObjectPool T → W → W
  unfolding execute_on
  execute_on_existing callback p w = elim p.handlers [
    | none ↦ w
    | some h ↦ execute_on callback p.objects w
  ]
