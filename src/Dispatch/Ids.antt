-- ===== src/Dispatch/Ids.antt =====
-- src/connection/dispatch.rs: the ids that one connection hands out.
use rp1_rust.Base.{ℕ, zero, suc, ◌+◌, ◌-◌, ◌%◌, ◌≤◌, ◌<◌, ◌≡◌, ◌≢◌, ◌∙◌, ap, arith}
use rp1_rust.Base.Bytes.{u64_end}
use rp1_rust.Dispatch.{Allocator, allocate}

-- The allocator after `k` allocations, and the id that the next one hands out.
pub after : Allocator → ℕ → Allocator
after allocator zero = allocator
after allocator (suc k) = after (allocate allocator).1 k

abbrev pub nth_id : Allocator → ℕ → ℕ
nth_id allocator k = (allocate (after allocator k)).0

abbrev IsStarted : Allocator → Type 0
IsStarted allocator = (1 ≤ allocator.next) × (allocator.next < u64_end)

allocate-IsStarted :
    (allocator : Allocator) → allocator.next < u64_end → IsStarted (allocate allocator).1
unfolding allocate
allocate-IsStarted allocator h = ground arith

allocate-cycle :
    (allocator : Allocator) (k : ℕ)
    → IsStarted allocator
    → ((allocate allocator).1.next - 1 + k) % (u64_end - 1)
      ≡ (allocator.next - 1 + suc k) % (u64_end - 1)
unfolding allocate
allocate-cycle allocator k h = ground arith

-- From a start between 1 and 2 ^ 64 - 1, the id after `k` others is `k` places on from the first in
-- the circle from 1 to 2 ^ 64 - 1.
pub nth_id-cycle :
    (allocator : Allocator) (k : ℕ)
    → 1 ≤ allocator.next
    → allocator.next < u64_end
    → nth_id allocator k ≡ 1 + (allocator.next - 1 + k) % (u64_end - 1)
unfolding after
nth_id-cycle allocator zero lo hi = unfold allocate in ground arith
nth_id-cycle allocator (suc k) lo hi =
    let (lo', hi') = allocate-IsStarted allocator hi in
    nth_id-cycle (allocate allocator).1 k lo' hi'
    ∙ ap (λ (n : ℕ). 1 + n) (allocate-cycle allocator k (lo, hi))

-- From a start between 1 and 2 ^ 64 - 1, two of 2 ^ 64 - 1 ids in a row differ, and none is 0.
pub nth_id-distinct :
    (allocator : Allocator) (i j : ℕ)
    → 1 ≤ allocator.next
    → allocator.next < u64_end
    → i < j
    → j < i + (u64_end - 1)
    → (nth_id allocator i ≢ nth_id allocator j) × (nth_id allocator i ≢ 0)
nth_id-distinct allocator i j lo hi less near =
    let at_i = nth_id-cycle allocator i lo hi in
    let at_j = nth_id-cycle allocator j lo hi in (λ e. omega arith, λ e. omega arith)
