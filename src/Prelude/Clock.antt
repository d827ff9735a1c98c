-- ===== src/Prelude/Clock.antt =====
-- Points in time. Durations are counted in seconds; a `datetime` also knows whether it carries a
-- time zone. Values without one are refused before they are compared, so `before` reads the count.
use Prim.Native.Nat.{ℕ}
use mathlib.Core.Bool.{Bool}
use skysolver.Prelude.Tests.{ltb, leb}

pub record Instant : Type 0 where
  pub seconds : ℕ
  pub aware : Bool

-- `a <= b` and `a < b`
abbrev pub at_or_before : Instant → Instant → Bool
at_or_before a b = leb a.seconds b.seconds

abbrev pub before : Instant → Instant → Bool
before a b = ltb a.seconds b.seconds
