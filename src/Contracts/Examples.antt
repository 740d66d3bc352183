-- ===== src/Contracts/Examples.antt =====
-- A request of 10 items and 2000 milliseconds, and one whose nanoseconds pass 2 to the power of 63.
use repo_plane.Base.{◌*◌, ◌≡◌, refl, true, ok, arith}
use repo_plane.Base.Int.{pos, is_negative}
use repo_plane.Contracts.{Limits, LimitRequest, millisecond, normalize_limits}
use repo_plane.Contracts.Bounds.{normalize_limits_overflow}

abbrev request : LimitRequest
request = record { item_limit = 10; byte_limit = 0; time_limit_ms = pos 2000 }

abbrev limits : Limits
limits = record { item_limit = 10; byte_limit = 65536; time_limit = pos (2000 * millisecond) }

abbrev huge : LimitRequest
huge = record { item_limit = 10; byte_limit = 0; time_limit_ms = pos 9223372036855 }

accepted : normalize_limits request ≡ ok limits
unfolding normalize_limits
accepted = refl

normalize_limits_overflow_example :
    (l : Limits) × (normalize_limits huge ≡ ok l) × (is_negative l.time_limit ≡ true)
normalize_limits_overflow_example =
    normalize_limits_overflow huge 9223372036855 refl (omega arith) (omega arith) (omega arith)
      (omega arith)
