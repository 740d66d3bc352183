-- ===== src/HttpTransport/Limits.antt =====
-- The bounds that the states of the admission limiter of internal/httptransport/server.go keep.
use repo_plane.Base.{
  ℕ, ◌+◌, ◌-◌, ◌/◌, ◌≤◌, ◌<◌, String, ◌≡◌, refl, inl, inr, Bool, true, not, ◌&&◌, ◌||◌, Option,
  none, some, List, [], ◌∷◌, arith, leb, String_eq, ℕ_eq, if◌then◌else◌, length, filter, all,
  lookup, insert, Bool-cases, Option-cases, length-filter-le, length-insert-le,
}
use repo_plane.HttpTransport.{
  PrincipalState, Limiter, second, new_limiter, max_states, swept, is_idle, fresh, in_minute, admit,
  acquire_state, acquire, release_state, release,
}

-- A principal has at most `per` requests active and `rate` requests counted in its minute.
abbrev pub is_bounded : Limiter → String × PrincipalState → Bool
is_bounded l entry = leb entry.1.active l.per && leb entry.1.count l.rate

pub record IsValid (l : Limiter) : Type 0 where
  pub slots : l.global ≤ l.capacity
  pub kept : length l.states ≤ max_states
  pub bounded : all (is_bounded l) l.states ≡ true

module _ (p : String × PrincipalState → Bool) where
  all-insert :
      (k : String) (s : PrincipalState) (m : List (String × PrincipalState))
      → p (k, s) ≡ true
      → all p m ≡ true
      → all p (insert k s m) ≡ true
  unfolding insert
  all-insert k s [] h a = ground (arith, h)
  all-insert k s (entry ∷ m) h a = ground (arith, h, a, all-insert k s m)

  all-filter :
      (q : String × PrincipalState → Bool) (m : List (String × PrincipalState))
      → all p m ≡ true
      → all p (filter q m) ≡ true
  all-filter q [] a = refl
  all-filter q (entry ∷ m) a = ground (arith, a, all-filter q m)

all-lookup :
    (l : Limiter) (k : String) (m : List (String × PrincipalState)) {s : PrincipalState}
    → all (is_bounded l) m ≡ true
    → lookup k m ≡ some s
    → (s.active ≤ l.per) × (s.count ≤ l.rate)
unfolding lookup
all-lookup l k [] a h = absurd (ground (arith, h))
all-lookup l k (entry ∷ m) {s} a h = ground (arith, a, h, all-lookup l k m {s = s})

swept-IsValid :
    (now : ℕ) (l : Limiter) → IsValid l → IsValid (record l { states = swept now l.states })
unfolding swept
swept-IsValid now l v = record {
  slots = v.slots;
  kept = ground (arith, v.kept, length-filter-le (λ entry. not (is_idle now entry)) l.states);
  bounded =
      ground
        (arith, v.bounded, all-filter (is_bounded l) (λ entry. not (is_idle now entry)) l.states);
}

insert-length :
    (k : String) (s : PrincipalState) (m : List (String × PrincipalState)) {old : PrincipalState}
    → lookup k m ≡ some old
    → length (insert k s m) ≡ length m
unfolding lookup insert
insert-length k s [] h = absurd (ground (arith, h))
insert-length k s (entry ∷ m) {old} h = ground (arith, h, insert-length k s m {old = old})

admit-IsValid :
    (k : String) (now : ℕ) (s : PrincipalState) (l : Limiter)
    → IsValid l
    → l.global < l.capacity
    → (s.active ≤ l.per) × (s.count ≤ l.rate)
    → ((t : PrincipalState) → length (insert k t l.states) ≤ max_states)
    → IsValid (admit k now s l).1
unfolding admit
admit-IsValid k now s l v free b room =
    elim (Bool-cases (leb l.rate s.count || leb l.per s.active)) [
      | inl refused ↦ rw refused (record {
        slots = v.slots;
        kept = room s;
        bounded = all-insert (is_bounded l) k s l.states (ground (arith, b)) v.bounded;
      })
      | inr goes ↦ rw goes (record {
        slots = ground (arith, free);
        kept = room (record s { count = s.count + 1; active = s.active + 1; seen = now });
        bounded =
            all-insert (is_bounded l) k
              (record s { count = s.count + 1; active = s.active + 1; seen = now }) l.states
              (ground (arith, goes)) v.bounded;
      })
    ]

in_minute-bounded :
    (l : Limiter) (minute : ℕ) (s : PrincipalState)
    → (s.active ≤ l.per) × (s.count ≤ l.rate)
    → ((in_minute minute s).active ≤ l.per) × ((in_minute minute s).count ≤ l.rate)
unfolding in_minute
in_minute-bounded l minute s b = ground (arith, b)

acquire_state-IsValid :
    (k : String) (now : ℕ) (l : Limiter)
    → IsValid l
    → l.global < l.capacity
    → IsValid (acquire_state k now (lookup k l.states) l).1
unfolding acquire_state
acquire_state-IsValid k now l v free = elim (Option-cases (lookup k l.states)) [
  | inl missing ↦ elim (Bool-cases (leb max_states (length l.states))) [
    | inl full ↦ rw (missing, full) v
    | inr room ↦
        rw (missing, room)
          (admit-IsValid k now (in_minute (now / second / 60) fresh) l v free
            (in_minute-bounded l (now / second / 60) fresh (omega arith, omega arith))
            (λ t. ground (arith, room, length-insert-le k t l.states)))
  ]
  | inr (s, found) ↦ rw found (
      admit-IsValid k now (in_minute (now / second / 60) s) l v free
        (in_minute-bounded l (now / second / 60) s (all-lookup l k l.states v.bounded found))
        (λ t. ground (arith, insert-length k t l.states found, v.kept)))
]

pub acquire-IsValid : (k : String) (now : ℕ) (l : Limiter) → IsValid l → IsValid (acquire k now l).1
unfolding acquire
acquire-IsValid k now l v = elim (Bool-cases (leb l.capacity l.global)) [
  | inl full ↦ rw full v
  | inr free ↦ rw free (
      acquire_state-IsValid k now (record l { states = swept now l.states }) (swept-IsValid now l v)
        (ground (arith, free)))
]

pub release-IsValid : (k : String) (now : ℕ) (l : Limiter) → IsValid l → IsValid (release k now l)
unfolding release release_state
release-IsValid k now l v = elim (Option-cases (lookup k l.states)) [
  | inl missing ↦ rw missing v
  | inr (s, found) ↦
      (let b = all-lookup l k l.states v.bounded found in
        rw found (record {
          slots = ground (arith, v.slots);
          kept = ground (
            arith,
            insert-length k (record s { active = s.active - 1; seen = now }) l.states found,
            v.kept,
          );
          bounded =
              all-insert (is_bounded l) k (record s { active = s.active - 1; seen = now }) l.states
                (ground (arith, b)) v.bounded;
        }))
]

pub new-IsValid :
    (concurrent per_principal per_minute : ℕ)
    → IsValid (new_limiter concurrent per_principal per_minute)
unfolding new_limiter
new-IsValid concurrent per_principal per_minute = record {
  slots = omega arith;
  kept = omega arith;
  bounded = refl;
}

admit-slots :
    (k : String) (now : ℕ) (s : PrincipalState) (l : Limiter)
    → (admit k now s l).1.global ≡ (if (admit k now s l).0.1 then l.global + 1 else l.global)
unfolding admit
admit-slots k now s l = ground arith

state-slots :
    (k : String) (now : ℕ) (found : Option PrincipalState) (l : Limiter)
    → (acquire_state k now found l).1.global
      ≡ (if (acquire_state k now found l).0.1 then l.global + 1 else l.global)
unfolding acquire_state
state-slots k now none l = ground (arith, admit-slots k now (in_minute (now / second / 60) fresh) l)
state-slots k now (some s) l = admit-slots k now (in_minute (now / second / 60) s) l

-- `acquire` takes one global slot exactly when it lets the request go on; every refusal gives the slot
-- back.
pub acquire-slots :
    (k : String) (now : ℕ) (l : Limiter)
    → (acquire k now l).1.global ≡ (if (acquire k now l).0.1 then l.global + 1 else l.global)
unfolding acquire
acquire-slots k now l = elim (Bool-cases (leb l.capacity l.global)) [
  | inl full ↦ ground (arith, full)
  | inr free ↦
      rw free (
        state-slots k now (lookup k (swept now l.states))
          (record l { states = swept now l.states }))
]
