-- ===== src/HttpTransport.antt =====
-- internal/httptransport/server.go: the admission limiter, from newAdmissionLimiter to acquire and the
-- release that it returns. Times count nanoseconds from 1970. `global` counts the slots taken of the
-- channel of that name. The release keeps a pointer to a state: the map holds that state for as long as
-- a request of the principal is active, since only a state that is not active is dropped.
pub mod Limits
pub mod Sessions
pub mod Profile
mod Examples
use repo_plane.Base.{
  ℕ, ◌+◌, ◌-◌, ◌*◌, ◌/◌, ◌%◌, String, Bool, true, false, not, ◌&&◌, ◌||◌, Option, none, some, List,
  [], ◌∷◌, ltb, leb, ◌==◌, ◌!=◌, String_eq, ℕ_eq, if◌then◌else◌, length, filter, lookup, insert,
}

pub record PrincipalState : Type 0 where
  pub minute : ℕ
  pub count : ℕ
  pub active : ℕ
  pub seen : ℕ

pub record Limiter : Type 0 where
  pub capacity : ℕ
  pub global : ℕ
  pub per : ℕ
  pub rate : ℕ
  pub states : List (String × PrincipalState)

-- The limits of a profile, after its defaults.
unfoldable pub new_limiter : ℕ → ℕ → ℕ → Limiter
new_limiter concurrent per_principal per_minute = record {
  capacity = concurrent;
  global = 0;
  per = per_principal;
  rate = per_minute;
  states = [];
}

abbrev pub second : ℕ
second = 1000000000

abbrev pub max_states : ℕ
max_states = 1024

-- now.Sub(seen) > 2*time.Minute && active == 0
abbrev is_idle : ℕ → String × PrincipalState → Bool
is_idle now entry = ltb (entry.1.seen + 120 * second) now && entry.1.active == 0

unfoldable pub swept : ℕ → List (String × PrincipalState) → List (String × PrincipalState)
swept now states =
    if leb max_states (length states)
    then filter (λ entry. not (is_idle now entry)) states
    else states

abbrev fresh : PrincipalState
fresh = record { minute = 0; count = 0; active = 0; seen = 0 }

unfoldable pub in_minute : ℕ → PrincipalState → PrincipalState
in_minute minute s = if s.minute != minute then record s { minute = minute; count = 0 } else s

-- What `acquire` returns: the seconds to wait and whether the request may go on.
abbrev pub Answer : Type 0
Answer = ℕ × Bool

-- The state is there, in its minute; a refusal gives the global slot back.
unfoldable pub admit : String → ℕ → PrincipalState → Limiter → Answer × Limiter
admit principal now s l =
    if leb l.rate s.count || leb l.per s.active
    then ((60 - now / second % 60, false), record l { states = insert principal s l.states })
    else (
      (0, true),
      record l {
        global = l.global + 1;
        states =
            insert principal (record s { count = s.count + 1; active = s.active + 1; seen = now })
              l.states;
      },
    )

unfoldable pub acquire_state : String → ℕ → Option PrincipalState → Limiter → Answer × Limiter
acquire_state principal now none l =
    if leb max_states (length l.states)
    then ((1, false), l)
    else admit principal now (in_minute (now / second / 60) fresh) l
acquire_state principal now (some s) l = admit principal now (in_minute (now / second / 60) s) l

unfoldable pub acquire : String → ℕ → Limiter → Answer × Limiter
acquire principal now l =
    if leb l.capacity l.global
    then ((1, false), l)
    else acquire_state principal now (lookup principal (swept now l.states))
        (record l { states = swept now l.states })

unfoldable pub release_state : String → ℕ → Option PrincipalState → Limiter → Limiter
release_state principal now none l = l
release_state principal now (some s) l = record l {
  global = l.global - 1;
  states = insert principal (record s { active = s.active - 1; seen = now }) l.states;
}

unfoldable pub release : String → ℕ → Limiter → Limiter
release principal now l = release_state principal now (lookup principal l.states) l
