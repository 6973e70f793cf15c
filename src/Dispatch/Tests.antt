-- ===== src/Dispatch/Tests.antt =====
-- src/connection/dispatch.rs: runs of the allocator and of the live set.
use rp1_rust.Base.{ℕ, refl, [], ◌∷◌, ◌≡◌, ◌≢◌, ◌+◌, ◌-◌, ◌%◌, arith, contains}
use rp1_rust.Base.Bytes.{u64_end}
use rp1_rust.Dispatch.{Allocator, Registry}
use rp1_rust.Dispatch.Ids.{nth_id, nth_id-cycle, nth_id-distinct}
use rp1_rust.Dispatch.Live.{IsRegistry}

-- The allocator one allocation before the wrap.
abbrev at_the_end : Allocator
at_the_end = record { next = 18446744073709551615 }

nth_id-cycle_example : nth_id at_the_end 1 ≡ 1 + (18446744073709551615 - 1 + 1) % (u64_end - 1)
nth_id-cycle_example = nth_id-cycle at_the_end 1 (omega arith) (omega arith)

nth_id-distinct_example : (nth_id at_the_end 0 ≢ nth_id at_the_end 1) × (nth_id at_the_end 0 ≢ 0)
nth_id-distinct_example =
    nth_id-distinct at_the_end 0 1 (omega arith) (omega arith) (omega arith) (omega arith)

abbrev two_live : Registry
two_live = record { live = 4 ∷ 9 ∷ [] }

two_live-IsRegistry : IsRegistry two_live
unfolding contains
two_live-IsRegistry = record { distinct = (refl, (refl, tt)); no_zero = refl }

abbrev five : ℕ
five = 5
