-- ===== src/Dispatch/Live.antt =====
-- src/connection/dispatch.rs: the live set, as a set of ids.
use rp1_rust.Base.{
  ℕ, ◌≡◌, ◌≢◌, refl, ◌⊎◌, inl, inr, true, false, List, [], ◌∷◌, ◌==◌, ◌||◌, if◌then◌else◌, contains,
  arith, Bool-cases,
}
use rp1_rust.Base.Result.{ok, err}
use rp1_rust.Dispatch.{Registry, RegistryError, insert, remove, retire}

-- Each id stands in the list once.
abbrev pub Distinct : List ℕ → Type 0
Distinct [] = Unit
Distinct (x ∷ xs) = (contains xs x ≡ false) × Distinct xs

pub contains-remove :
    (xs : List ℕ) (id other : ℕ)
    → contains (remove xs id) other ≡ (if id == other then false else contains xs other)
unfolding contains remove
contains-remove [] id other = ground arith
contains-remove (x ∷ xs) id other = ground (arith, contains-remove xs id other)

pub remove-Distinct : (xs : List ℕ) (id : ℕ) → Distinct xs → Distinct (remove xs id)
unfolding remove
remove-Distinct [] id h = tt
remove-Distinct (x ∷ xs) id h = elim (Bool-cases (x == id)) [
  | inl e ↦ rw e (remove-Distinct xs id h.1)
  | inr e ↦ rw e (ground (arith, contains-remove xs id x), remove-Distinct xs id h.1)
]

-- A registry is a set of ids without the reserved 0.
pub record IsRegistry (registry : Registry) : Type 0 where
  pub distinct : Distinct registry.live
  pub no_zero : contains registry.live 0 ≡ false

-- On a set of ids without 0, an insertion answers in one of three ways: reserved, for 0; live
-- reuse, for an id that is live; or, for an id that is neither, a registry with that id and no
-- other added, which is a set without 0 again.
pub insert_lem :
    (registry : Registry) (id : ℕ)
    → IsRegistry registry
    → ((insert registry id ≡ err RegistryError.reserved) × (id ≡ 0))
      ⊎ ((insert registry id ≡ err RegistryError.live_reuse) × (contains registry.live id ≡ true))
      ⊎ ((registry' : Registry) × (insert registry id ≡ ok registry')
          × (id ≢ 0)
          × (contains registry.live id ≡ false)
          × IsRegistry registry'
          × ((other : ℕ)
              → contains registry'.live other ≡ (id == other || contains registry.live other)))
unfolding insert
insert_lem registry id h = elim (Bool-cases (id == 0)) [
  | inl z ↦ inl (rw z, ground arith)
  | inr z ↦ elim (Bool-cases (contains registry.live id)) [
    | inl c ↦ inr (inl (rw z (rw c), c))
    | inr c ↦ inr (
        inr (
          record { live = id ∷ registry.live },
          rw z (rw c),
          ground arith,
          c,
          record {
            distinct = (c, h.distinct);
            no_zero = unfold contains in ground (arith, h.no_zero);
          },
          λ other. unfold contains in refl,
        ))
  ]
]

-- On a set of ids without 0, a retirement reports whether the id was live, removes it and no other,
-- leaves a set without 0, and a second retirement of the id reports `false`.
pub retire_lem :
    (registry : Registry) (id : ℕ)
    → IsRegistry registry
    → ((retire registry id).0 ≡ contains registry.live id)
      × IsRegistry (retire registry id).1
      × ((other : ℕ)
          → contains (retire registry id).1.live other
            ≡ (if id == other then false else contains registry.live other))
      × ((retire (retire registry id).1 id).0 ≡ false)
unfolding retire
retire_lem registry id h = (
  refl,
  record {
    distinct = remove-Distinct registry.live id h.distinct;
    no_zero = ground (arith, contains-remove registry.live id 0, h.no_zero);
  },
  λ other. contains-remove registry.live id other,
  ground (arith, contains-remove registry.live id id),
)
