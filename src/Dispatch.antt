-- ===== src/Dispatch.antt =====
-- src/connection/dispatch.rs: the allocator of request ids and the set of live ids.
pub mod Ids
pub mod Live
mod Tests
use rp1_rust.Base.{
  ℕ, ◌+◌, ◌%◌, Bool, true, false, not, List, [], ◌∷◌, ◌==◌, ◌||◌, if◌then◌else◌, contains, length,
}
use rp1_rust.Base.Bytes.{u64_end}
use rp1_rust.Base.Result.{Result, ok, err}

-- `RequestIdAllocator`
pub record Allocator : Type 0 where
  pub next : ℕ

abbrev pub new_allocator : Allocator
new_allocator = record { next = 1 }

-- Skips the reserved 0, before and after the wrap.
unfoldable pub skip_zero : ℕ → ℕ
skip_zero n = if n == 0 then 1 else n

-- The id, and the allocator after it.
unfoldable pub allocate : Allocator → ℕ × Allocator
unfolding skip_zero
allocate allocator =
    let id = skip_zero allocator.next in (id, record { next = skip_zero ((id + 1) % u64_end) })

pub data RegistryError : Type 0 where
  reserved live_reuse : RegistryError

-- `InFlightRegistry`: the hash set is the list of its elements, each once.
pub record Registry : Type 0 where
  pub live : List ℕ

abbrev pub new_registry : Registry
new_registry = record { live = [] }

unfoldable pub insert : Registry → ℕ → Result Registry RegistryError
insert registry id =
    if id == 0
    then err RegistryError.reserved
    else if contains registry.live id
    then err RegistryError.live_reuse
    else ok (record { live = id ∷ registry.live })

-- `HashSet::remove` on the elements.
unfoldable pub remove : List ℕ → ℕ → List ℕ
remove [] id = []
remove (x ∷ xs) id = let rest = remove xs id in if x == id then rest else x ∷ rest

-- Whether the id was live, and the registry after it.
unfoldable pub retire : Registry → ℕ → Bool × Registry
unfolding remove
retire registry id = (contains registry.live id, record { live = remove registry.live id })

unfoldable pub is_empty : Registry → Bool
is_empty registry = length registry.live == 0
