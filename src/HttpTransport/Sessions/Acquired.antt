-- ===== src/HttpTransport/Sessions/Acquired.antt =====
-- The four ways in which `acquire` of internal/httptransport/server.go ends.
use repo_plane.Base.{
  ℕ, ◌+◌, ◌-◌, ◌/◌, ◌%◌, ◌<◌, String, ◌≡◌, refl, inl, inr, true, false, ◌||◌, Option, none, some,
  arith, leb, String_eq, ℕ_eq, length, lookup, insert, Bool-cases, Option-cases,
}
use repo_plane.HttpTransport.{
  PrincipalState, Limiter, Answer, second, max_states, swept, fresh, in_minute, admit,
  acquire_state, acquire,
}
use repo_plane.HttpTransport.Sessions.{minute_of}
use repo_plane.HttpTransport.Sessions.Kept.{Kept, Known, fresh-Kept, minute-Kept}

-- The state that `acquire` judges a request by.
unfoldable pub or_fresh : Option PrincipalState → PrincipalState
or_fresh none = fresh
or_fresh (some st) = st

abbrev pub current : String → ℕ → Limiter → PrincipalState
current k now l = in_minute (minute_of now) (or_fresh (lookup k (swept now l.states)))

pub current-Kept :
    (per n : ℕ) (f : ℕ → ℕ) (now : ℕ) (found : Option PrincipalState)
    → Known per n f now found
    → Kept per n f now (in_minute (minute_of now) (or_fresh found))
unfolding or_fresh Known
current-Kept per n f now none known = fresh-Kept per n f now known
current-Kept per n f now (some st) known = minute-Kept per n f now st known

pub in_minute-minute : (m : ℕ) (st : PrincipalState) → (in_minute m st).minute ≡ m
unfolding in_minute
in_minute-minute m st = ground arith

-- What `acquire` does.
pub data Acquired (k : String) (now : ℕ) (l : Limiter) : Answer × Limiter → Type 0 where
  no_slot : (wait : ℕ) → Acquired k now l ((wait, false), l)
  no_state : (wait : ℕ) → Acquired k now l ((wait, false), record l { states = swept now l.states })
  refused :
      (wait : ℕ)
      → Acquired k now l
          ((wait, false), record l { states = insert k (current k now l) (swept now l.states) })
  let_in :
      (st : PrincipalState)
      → st ≡ current k now l
      → l.global < l.capacity
      → st.count < l.rate
      → st.active < l.per
      → Acquired k now l (
        (0, true),
        record l {
          global = l.global + 1;
          states =
              insert k
                (record st { count = st.count + 1; active = st.active + 1; seen = now })
                (swept now l.states);
        },
      )

admit-Acquired :
    (k : String) (now : ℕ) (l : Limiter)
    → l.global < l.capacity
    → Acquired k now l (admit k now (current k now l) (record l { states = swept now l.states }))
unfolding admit
admit-Acquired k now l free =
    let st = current k now l in
    elim (Bool-cases (leb l.rate st.count || leb l.per st.active)) [
      | inl bad ↦ rw bad (refused (60 - now / second % 60))
      | inr good ↦ rw good (let_in st refl free (ground (arith, good)) (ground (arith, good)))
    ]

pub acquire-Acquired : (k : String) (now : ℕ) (l : Limiter) → Acquired k now l (acquire k now l)
unfolding acquire acquire_state or_fresh minute_of
acquire-Acquired k now l = elim (Bool-cases (leb l.capacity l.global)) [
  | inl busy ↦ rw busy (no_slot 1)
  | inr free ↦
      (let below : l.global < l.capacity = ground (arith, free) in
        let admitted = admit-Acquired k now l below in
        elim (Option-cases (lookup k (swept now l.states))) [
          | inl missing ↦ elim (Bool-cases (leb max_states (length (swept now l.states)))) [
            | inl full ↦ rw (free, missing, full) (no_state 1)
            | inr room ↦ rw (free, missing, room) (rw missing at admitted)
          ]
          | inr (st, found) ↦ rw (free, found) (rw found at admitted)
        ])
]
