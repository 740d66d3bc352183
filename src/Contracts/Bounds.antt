-- ===== src/Contracts/Bounds.antt =====
-- What `NormalizeLimits` of internal/contracts/limits.go promises, and where it does not keep it.
use repo_plane.Base.{ℕ, ◌*◌, ◌^◌, ◌≤◌, ◌<◌, ◌≡◌, true, arith, if◌then◌else◌, ok, ◌==◌, ℕ_eq}
use repo_plane.Base.Int.{pos, is_negative, times}
use repo_plane.Contracts.{
  Limits, LimitRequest, maximum_item_limit, maximum_byte_limit, default_item_limit,
  default_byte_limit, millisecond, normalize_limits,
}

-- The largest number of milliseconds whose nanoseconds fit an int64.
abbrev pub longest_exact : ℕ
longest_exact = 9223372036854

abbrev pub InRange : ℕ → ℕ → Type 0
InRange n top = (1 ≤ n) × (n ≤ top)

-- The value that the documentation gives an optional limit.
abbrev pub or_default : ℕ → ℕ → ℕ
or_default n d = if n == 0 then d else n

-- For milliseconds that fit, a request is accepted exactly when each limit, its default put in for
-- 0, is at most its public maximum.
abbrev WithinCaps : LimitRequest → ℕ → Type 0
WithinCaps req ms =
    (or_default req.item_limit default_item_limit ≤ maximum_item_limit)
    × (or_default req.byte_limit default_byte_limit ≤ maximum_byte_limit)
    × (ms ≤ 30000)

-- The normalized limits are at least 1 and at most the public caps, whenever the milliseconds fit.
pub normalize_limits_bounds :
    (req : LimitRequest) (ms : ℕ) {l : Limits}
    → req.time_limit_ms ≡ pos ms
    → ms ≤ longest_exact
    → normalize_limits req ≡ ok l
    → InRange l.item_limit maximum_item_limit
      × InRange l.byte_limit maximum_byte_limit
      × (l.time_limit ≡ pos (or_default ms 5000 * millisecond))
      × InRange (or_default ms 5000) 30000
unfolding normalize_limits
normalize_limits_bounds req ms e fits h = ground (arith, e)

-- Within the caps a request is accepted, and each limit is the one asked for or its default.
pub normalize_limits_accepts :
    (req : LimitRequest) (ms : ℕ)
    → req.time_limit_ms ≡ pos ms
    → WithinCaps req ms
    → normalize_limits req
      ≡ ok (record {
        item_limit = or_default req.item_limit default_item_limit;
        byte_limit = or_default req.byte_limit default_byte_limit;
        time_limit = pos (or_default ms 5000 * millisecond);
      })
unfolding normalize_limits
normalize_limits_accepts req ms e caps = ground (arith, e)

-- A time whose nanoseconds pass 2^63 and stay below 2^64 is accepted, with a time limit below zero.
pub normalize_limits_overflow :
    (req : LimitRequest) (ms : ℕ)
    → req.time_limit_ms ≡ pos ms
    → 2 ^ 63 ≤ ms * millisecond
    → ms * millisecond < 2 ^ 64
    → or_default req.item_limit default_item_limit ≤ maximum_item_limit
    → or_default req.byte_limit default_byte_limit ≤ maximum_byte_limit
    → (l : Limits) × (normalize_limits req ≡ ok l) × (is_negative l.time_limit ≡ true)
unfolding normalize_limits
normalize_limits_overflow req ms e big fits items bytes = (
  record {
    item_limit = or_default req.item_limit default_item_limit;
    byte_limit = or_default req.byte_limit default_byte_limit;
    time_limit = times (pos ms) millisecond;
  },
  ground (arith, e),
  ground arith,
)
