-- ===== src/Pool/Live.antt =====
-- The objects that are handed out: the pool as the set of them.
use protos.Base.{
  ℕ, Bool, true, false, List, [], ◌∷◌, some, inl, inr, ◌==◌, ◌≡◌, ◌≢◌, refl, sym, arith, Bool-cases,
  if◌then◌else◌,
}
use protos.Pool.{
  is_in_use, PooledObject, Handlers, ObjectPool, take_object, get_object, release, destroy_object,
}

module _ {T : Type 0} where
  -- Whether the object is handed out.
  unfoldable pub is_live : List (PooledObject T) → ℕ → Bool
  is_live [] p = false
  is_live (x ∷ xs) p = if x.object == p then is_in_use x.status else is_live xs p

  -- The pool does not hold the pointer.
  abbrev pub Absent : ℕ → List (PooledObject T) → Type 0
  Absent p [] = Unit
  Absent p (x ∷ xs) = (x.object ≢ p) × Absent p xs

  -- No two nodes hold the same pointer.
  abbrev pub Distinct : List (PooledObject T) → Type 0
  Distinct [] = Unit
  Distinct (x ∷ xs) = Absent x.object xs × Distinct xs

  module _ (h : Handlers T) (cleared : T) (fresh : ℕ) where
    take_object-Absent :
        (q : ℕ) (xs : List (PooledObject T))
        → Absent q xs
        → fresh ≢ q
        → ((take_object h cleared fresh xs).0 ≢ q) × Absent q (take_object h cleared fresh xs).1
    unfolding take_object
    take_object-Absent q [] a n = (n, (n, tt))
    take_object-Absent q (x ∷ xs) a n =
        let (ih, later) = take_object-Absent q xs a.1 n in
        elim (Bool-cases (is_in_use x.status)) [
          | inl e ↦ rw e (ih, (a.0, later))
          | inr e ↦ rw e (a.0, (a.0, a.1))
        ]

    -- What `GetObjectFromPool` does to the set of the objects handed out.
    abbrev pub Adds : List (PooledObject T) → ℕ × List (PooledObject T) → Type 0
    Adds xs r =
        (is_live xs r.0 ≡ false)
        × ((p : ℕ) → is_live r.1 p ≡ (if r.0 == p then true else is_live xs p))
        × Distinct r.1

    take_object-Adds :
        (xs : List (PooledObject T))
        → Distinct xs
        → Absent fresh xs
        → Adds xs (take_object h cleared fresh xs)
    unfolding take_object is_live
    take_object-Adds [] d a = (refl, λ p. refl, (tt, tt))
    take_object-Adds (x ∷ xs) d a =
        let (dead, live, apart) = take_object-Adds xs d.1 a.1 in
        let (other, later) = take_object-Absent x.object xs d.0 (λ e. a.0 (sym e)) in
        elim (Bool-cases (is_in_use x.status)) [
          | inl e ↦ rw e (
            ground (arith, other, dead),
            λ p. let l = live p in ground (arith, other),
            (later, apart),
          )
          | inr e ↦ rw e (ground arith, λ p. ground arith, (d.0, d.1))
        ]

    release-Absent :
        (o q : ℕ) (xs : List (PooledObject T)) → Absent q xs → Absent q (release h o xs)
    unfolding release
    release-Absent o q [] a = tt
    release-Absent o q (x ∷ xs) a = elim (Bool-cases (x.object == o)) [
      | inl e ↦ rw e a
      | inr e ↦ rw e (a.0, release-Absent o q xs a.1)
    ]

    release-Distinct :
        (o : ℕ) (xs : List (PooledObject T)) → Distinct xs → Distinct (release h o xs)
    unfolding release
    release-Distinct o [] d = tt
    release-Distinct o (x ∷ xs) d = elim (Bool-cases (x.object == o)) [
      | inl e ↦ rw e d
      | inr e ↦ rw e (release-Absent o x.object xs d.0, release-Distinct o xs d.1)
    ]

    is_live-release :
        (o : ℕ) (xs : List (PooledObject T)) (q : ℕ)
        → is_live (release h o xs) q ≡ (if o == q then false else is_live xs q)
    unfolding release is_live
    is_live-release o [] q = ground arith
    is_live-release o (x ∷ xs) q =
        let ih = is_live-release o xs q in
        elim (Bool-cases (x.object == o)) [
          | inl e ↦ rw e (ground arith)
          | inr e ↦ rw e (ground (arith, ih))
        ]

  -- A pool that was initialized: it has handlers and a node.
  abbrev pub ready : Handlers T → PooledObject T → List (PooledObject T) → ObjectPool T
  ready h x xs = record { handlers = some h; objects = x ∷ xs }

  -- A pool that was initialized, whose nodes hold pointers that differ, is the set of the objects
  -- in use. For a pointer that it does not hold, `GetObjectFromPool` gives an object that is not in
  -- use and adds it to the set, and nothing else; `DestroyObject` removes its argument from the
  -- set, and nothing else, whether or not the pool holds it. Both keep the pointers different.
  pub pool_is_set :
      (h : Handlers T) (cleared : T) (fresh : ℕ) (x : PooledObject T) (xs : List (PooledObject T))
      (object : ℕ)
      → Distinct (x ∷ xs)
      → Absent fresh (x ∷ xs)
      → ((o : ℕ) × (r : ObjectPool T) × (get_object cleared fresh (ready h x xs) ≡ some (o, r))
          × (is_live (x ∷ xs) o ≡ false)
          × ((q : ℕ) → is_live r.objects q ≡ (if o == q then true else is_live (x ∷ xs) q))
          × Distinct r.objects)
        × ((q : ℕ)
            → is_live (destroy_object object (ready h x xs)).objects q
              ≡ (if object == q then false else is_live (x ∷ xs) q))
        × Distinct (destroy_object object (ready h x xs)).objects
  unfolding get_object destroy_object
  pool_is_set h cleared fresh x xs object d a =
      let (dead, live, apart) = take_object-Adds h cleared fresh (x ∷ xs) d a in
      (
        (
          (take_object h cleared fresh (x ∷ xs)).0,
          record (ready h x xs) { objects = (take_object h cleared fresh (x ∷ xs)).1 },
          refl,
          dead,
          live,
          apart,
        ),
        is_live-release h cleared fresh object (x ∷ xs),
        release-Distinct h cleared fresh object (x ∷ xs) d,
      )
