-- ===== src/HttpTransport/Sessions.antt =====
-- The requests that auditMiddleware of internal/httptransport/server.go lets through the admission
-- limiter, and those of them that are in progress. `acquire` reads the clock before it takes the mutex; the
-- events here stand in the order of their readings.
pub mod Kept
pub mod Sweep
pub mod Acquired
pub mod Bounds
use repo_plane.Base.{
  ℕ, zero, suc, ◌*◌, ◌+◌, ◌-◌, ◌/◌, ◌%◌, ◌≤◌, ◌<◌, String, ◌≡◌, refl, inl, inr, Bool, true, false,
  not, ◌&&◌, ◌||◌, Option, none, some, List, [], ◌∷◌, arith, leb, ◌==◌, String_eq, ℕ_eq,
  if◌then◌else◌, length, filter, lookup, insert, lookup-insert, Bool-cases, Option-cases, count,
  eq_iff, sym, subst, ap, ◌∙◌,
}
use repo_plane.HttpTransport.{
  PrincipalState, Limiter, Answer, second, new_limiter, max_states, swept, is_idle, fresh,
  in_minute, admit, acquire_state, acquire, release_state, release,
}

-- `in_progress` names the principal of each request in progress, `passed` the principal and the minute of each
-- request that was let through.
pub record Session : Type 0 where
  pub limiter : Limiter
  pub in_progress : List String
  pub passed : List (String × ℕ)
  pub now : ℕ

unfoldable pub minute_of : ℕ → ℕ
minute_of t = t / second / 60

-- A request of a principal comes, or one in progress ends.
pub data Event : Type 0 where
  comes ends : String → Event

unfoldable pub remove_one : String → List String → List String
remove_one k [] = []
remove_one k (x ∷ xs) = let rest = remove_one k xs in if x == k then xs else x ∷ rest

abbrev pub opened : String → Session → ℕ
opened k s = count (λ x. x == k) s.in_progress

abbrev pub passes : String → ℕ → Session → ℕ
passes k minute s = count (λ p. p.0 == k && p.1 == minute) s.passed

-- The answer of `acquire` decides whether the request is handled.
unfoldable pub came : String → Session → Answer × Limiter → Session
came k s ((wait, true), l) = record s {
  limiter = l;
  in_progress = k ∷ s.in_progress;
  passed = (k, minute_of s.now) ∷ s.passed;
}
came k s ((wait, false), l) = record s { limiter = l }

-- The release is deferred by a request that was let through.
unfoldable pub ended : Bool → String → Session → Session
unfolding remove_one
ended true k s = record s {
  limiter = release k s.now s.limiter;
  in_progress = remove_one k s.in_progress;
}
ended false k s = s

unfoldable pub occurs : Event → Session → Session
unfolding came ended
occurs (comes k) s = came k s (acquire k s.now s.limiter)
occurs (ends k) s = ended (leb 1 (opened k s)) k s

unfoldable pub step : ℕ → Event → Session → Session
unfolding occurs
step wait e s = occurs e (record s { now = s.now + wait })

-- Each event comes some time after the one before it.
unfoldable pub session : List (ℕ × Event) → Session → Session
session [] s = s
session ((wait, e) ∷ es) s = session es (step wait e s)
