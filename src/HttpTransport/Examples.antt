-- ===== src/HttpTransport/Examples.antt =====
-- Two requests of one principal under a limit of one at a time.
use repo_plane.Base.{[], ◌∷◌}
use repo_plane.HttpTransport.{new_limiter, second}
use repo_plane.HttpTransport.Sessions.{comes, ends, session}
use repo_plane.HttpTransport.Sessions.Bounds.{Admits, no_session, session-Admits}

session-Admits_example : Admits 2 1 5 (
    session
      ((second, comes "a") ∷ (second, comes "a") ∷ (second, ends "a") ∷ [])
      (no_session (new_limiter 2 1 5) second))
session-Admits_example =
    session-Admits 2 1 5 second
      ((second, comes "a") ∷ (second, comes "a") ∷ (second, ends "a") ∷ [])
