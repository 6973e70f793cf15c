-- ===== src/Base/Rules.antt =====
-- Rule sets for the arithmetic tactics.
use rp1_rust.Base.Tests.{ltb→lt, ltb→ge, lt→ltb, ge→ltb, leb→le, le→leb, leb→gt, ==→eq, ==→ne}
use native.Mathlib.Omega.{arith}

-- `omega` reads the Boolean tests through these.
pub ruleset tests = (arith, ltb→lt, ltb→ge, lt→ltb, ge→ltb, leb→le, le→leb, leb→gt, ==→eq, ==→ne)
