-- ===== src/HttpTransport/Sessions/Bounds.antt =====
-- The bounds that the admission limiter of internal/httptransport/server.go keeps on the requests that
-- are let through.
use repo_plane.Base.{
  ℕ, ◌+◌, ◌-◌, ◌≤◌, ◌<◌, String, ◌≡◌, refl, inl, inr, true, false, ◌&&◌, Option, none, some, List,
  [], ◌∷◌, arith, leb, ◌==◌, String_eq, ℕ_eq, if◌then◌else◌, length, lookup, Bool-cases,
  Option-cases, count, eq_iff, sym, subst, ap, ◌∙◌,
}
use repo_plane.HttpTransport.{
  PrincipalState, Limiter, Answer, new_limiter, max_states, swept, acquire, release_state, release,
}
use repo_plane.HttpTransport.Sessions.{
  Event, comes, ends, Session, came, ended, minute_of, occurs, opened, passes, remove_one, session,
  step,
}
use repo_plane.HttpTransport.Sessions.Kept.{
  Kept, Known, insert-Known, later-Known, let_in-Kept, release-Kept, same-Known,
}
use repo_plane.HttpTransport.Sessions.Sweep.{Unique, swept-Known, swept-Unique, insert-Unique}
use repo_plane.HttpTransport.Sessions.Acquired.{
  Acquired, no_slot, no_state, refused, let_in, acquire-Acquired, current, current-Kept,
  in_minute-minute,
}
use repo_plane.HttpTransport.Limits.{IsValid, acquire-IsValid, release-IsValid, new-IsValid}

count-remove :
    (k j : String) (xs : List String)
    → count (λ x. x == j) (remove_one k xs) ≡ count (λ x. x == j) xs - (if k == j then 1 else 0)
unfolding remove_one
count-remove k j [] = ground arith
count-remove k j (x ∷ xs) = ground (arith, eq_iff x k, eq_iff x j, eq_iff k j, count-remove k j xs)

length-remove :
    (k : String) (xs : List String)
    → 1 ≤ count (λ x. x == k) xs
    → length (remove_one k xs) + 1 ≡ length xs
unfolding remove_one
length-remove k [] h = absurd (omega (arith, h))
length-remove k (x ∷ xs) h = elim (Bool-cases (x == k)) [
  | inl same ↦ rw same (omega arith)
  | inr other ↦
      (let more : 1 ≤ count (λ x. x == k) xs = ground (arith, rw other at h) in
        rw other (omega (arith, length-remove k xs more)))
]

module _ (capacity per rate : ℕ) where
  record Inv (s : Session) : Type 0 where
    limits : (s.limiter.capacity ≡ capacity) × (s.limiter.per ≡ per) × (s.limiter.rate ≡ rate)
    slots : s.limiter.global ≡ length s.in_progress
    free : s.limiter.global ≤ capacity
    unique : Unique s.limiter.states
    known :
        (k : String) → Known per (opened k s) (λ m. passes k m s) s.now (lookup k s.limiter.states)
    rated : (k : String) (m : ℕ) → passes k m s ≤ rate

  waits-Inv : (s : Session) (wait : ℕ) → Inv s → Inv (record s { now = s.now + wait })
  waits-Inv s wait i = record {
    limits = i.limits;
    slots = i.slots;
    free = i.free;
    unique = i.unique;
    known = λ k.
        later-Known per (opened k s) (λ m. passes k m s) s.now (s.now + wait)
          (lookup k s.limiter.states) (omega arith) (i.known k);
    rated = i.rated;
  }

  module _ (k : String) (s : Session) (i : Inv s) where
    at_sweep :
        (j : String)
        → Known per (opened j s) (λ m. passes j m s) s.now (lookup j (swept s.now s.limiter.states))
    at_sweep j =
        swept-Known per (opened j s) (λ m. passes j m s) s.now j s.limiter.states i.unique
          (i.known j)

    judged : Kept per (opened k s) (λ m. passes k m s) s.now (current k s.now s.limiter)
    judged =
        current-Kept per (opened k s) (λ m. passes k m s) s.now
          (lookup k (swept s.now s.limiter.states)) (at_sweep k)

    came-Inv : (q : Answer × Limiter) → Acquired k s.now s.limiter q → Inv (came k s q)
    unfolding came
    came-Inv q (no_slot wait) = i
    came-Inv q (no_state wait) = record {
      limits = i.limits;
      slots = i.slots;
      free = i.free;
      unique = swept-Unique s.now s.limiter.states i.unique;
      known = at_sweep;
      rated = i.rated;
    }
    came-Inv q (refused wait) = record {
      limits = i.limits;
      slots = i.slots;
      free = i.free;
      unique =
          insert-Unique k _ (swept s.now s.limiter.states)
            (swept-Unique s.now s.limiter.states i.unique);
      known =
          insert-Known per (λ j. opened j s) (λ j m. passes j m s) s.now k _
            (swept s.now s.limiter.states) (λ j other. at_sweep j) judged;
      rated = i.rated;
    }
    came-Inv q (let_in st is below counted active) =
        let self : (k == k) ≡ true = (eq_iff k k).1 refl in
        let kept = subst (λ x. Kept per (opened k s) (λ m. passes k m s) s.now x) (sym is) judged in
        let at : st.minute ≡ minute_of s.now =
          ap (λ x. x.minute) is ∙ in_minute-minute (minute_of s.now) _ in
        record {
          limits = i.limits;
          slots = ground (arith, i.slots);
          free = omega (arith, below, i.limits);
          unique =
              insert-Unique k _ (swept s.now s.limiter.states)
                (swept-Unique s.now s.limiter.states i.unique);
          known =
              insert-Known per (λ j. (if k == j then 1 else 0) + opened j s)
                (λ j m. (if k == j && minute_of s.now == m then 1 else 0) + passes j m s) s.now k _
                (swept s.now s.limiter.states)
                (λ j other.
                  same-Known per s.now (lookup j (swept s.now s.limiter.states))
                    (rw other (omega arith)) (λ m. rw other (omega arith)) (at_sweep j))
                (rw self (
                  let_in-Kept per (opened k s) (λ m. passes k m s) s.now st kept at
                    (omega (arith, active, i.limits))));
          rated = λ j m. elim (Bool-cases (k == j && minute_of s.now == m)) [
            | inr other ↦ rw other (omega (arith, i.rated j m))
            | inl same ↦ rw same (
                let key : k ≡ j = ground (arith, same, eq_iff k j) in
                let minute : minute_of s.now ≡ m = ground (arith, same) in
                let below : passes k st.minute s < rate =
                  omega (arith, kept.counted, counted, i.limits) in
                let moved : passes j m s < rate =
                  subst (λ x. passes x m s < rate) key
                    (subst (λ x. passes k x s < rate) (at ∙ minute) below) in
                omega (arith, moved))
          ];
        }

    ends-Inv : 1 ≤ opened k s → Inv (ended true k s)
    unfolding ended release release_state Known
    ends-Inv some_open = elim (Option-cases (lookup k s.limiter.states)) [
      | inl missing ↦
          (let none_open : opened k s ≡ 0 = (rw missing at (i.known k)).0 in
            absurd (omega (arith, none_open, some_open)))
      | inr (st, found) ↦
          (let kept : Kept per (opened k s) (λ m. passes k m s) s.now st =
              rw found at (i.known k) in
            let self : (k == k) ≡ true = (eq_iff k k).1 refl in
            rw found (record {
              limits = i.limits;
              slots = omega (arith, i.slots, length-remove k s.in_progress some_open);
              free = omega (arith, i.free);
              unique = insert-Unique k _ s.limiter.states i.unique;
              known =
                  insert-Known per (λ j. count (λ x. x == j) (remove_one k s.in_progress))
                    (λ j m. passes j m s) s.now k _ s.limiter.states
                    (λ j other.
                      same-Known per s.now (lookup j s.limiter.states)
                        (sym (count-remove k j s.in_progress ∙ rw other (omega arith))) (λ m. refl)
                        (i.known j))
                    (subst
                      (λ n.
                        Kept per n (λ m. passes k m s) s.now
                          (record st { active = st.active - 1; seen = s.now }))
                      (sym (count-remove k k s.in_progress ∙ rw self refl))
                      (release-Kept per (opened k s) (λ m. passes k m s) s.now st kept));
              rated = i.rated;
            }))
    ]

  occurs-Inv : (e : Event) (s : Session) → Inv s → Inv (occurs e s)
  unfolding occurs
  occurs-Inv (comes k) s i =
      came-Inv k s i (acquire k s.now s.limiter) (acquire-Acquired k s.now s.limiter)
  occurs-Inv (ends k) s i = elim (Bool-cases (leb 1 (opened k s))) [
    | inl some_open ↦ rw some_open (ends-Inv k s i (ground (arith, some_open)))
    | inr nothing ↦ rw nothing i
  ]

  session-Inv : (es : List (ℕ × Event)) (s : Session) → Inv s → Inv (session es s)
  unfolding session step
  session-Inv [] s i = i
  session-Inv ((wait, e) ∷ es) s i =
      session-Inv es (step wait e s)
        (occurs-Inv e (record s { now = s.now + wait }) (waits-Inv s wait i))

abbrev pub no_session : Limiter → ℕ → Session
no_session l now = record { limiter = l; in_progress = []; passed = []; now = now }

new-Inv :
    (capacity per rate now : ℕ)
    → Inv capacity per rate (no_session (new_limiter capacity per rate) now)
unfolding new_limiter Unique Known lookup
new-Inv capacity per rate now = record {
  limits = (refl, refl, refl);
  slots = refl;
  free = omega arith;
  unique = tt;
  known = λ k. (refl, λ m le. refl);
  rated = λ k m. omega arith;
}

came-limiter : (k : String) (s : Session) (q : Answer × Limiter) → (came k s q).limiter ≡ q.1
unfolding came
came-limiter k s ((wait, true), l) = refl
came-limiter k s ((wait, false), l) = refl

occurs-IsValid : (e : Event) (s : Session) → IsValid s.limiter → IsValid (occurs e s).limiter
unfolding occurs ended
occurs-IsValid (comes k) s v =
    subst (λ l. IsValid l) (sym (came-limiter k s (acquire k s.now s.limiter)))
      (acquire-IsValid k s.now s.limiter v)
occurs-IsValid (ends k) s v = elim (Bool-cases (leb 1 (opened k s))) [
  | inl some_open ↦ rw some_open (release-IsValid k s.now s.limiter v)
  | inr nothing ↦ rw nothing v
]

session-IsValid :
    (es : List (ℕ × Event)) (s : Session) → IsValid s.limiter → IsValid (session es s).limiter
unfolding session step
session-IsValid [] s v = v
session-IsValid ((wait, e) ∷ es) s v =
    session-IsValid es (step wait e s) (occurs-IsValid e (record s { now = s.now + wait }) v)

-- Which requests are let through under the limits of a profile.
pub record Admits (capacity per rate : ℕ) (s : Session) : Type 0 where
  pub at_once : length s.in_progress ≤ capacity
  pub of_principal : (k : String) → opened k s ≤ per
  pub of_minute : (k : String) (minute : ℕ) → passes k minute s ≤ rate
  pub slots : s.limiter.global ≡ length s.in_progress
  pub kept : length s.limiter.states ≤ max_states

opened-bound :
    (per n : ℕ) (f : ℕ → ℕ) (now : ℕ) (found : Option PrincipalState)
    → Known per n f now found
    → n ≤ per
unfolding Known
opened-bound per n f now none known = omega (arith, known.0)
opened-bound per n f now (some st) kept = omega (arith, kept.active, kept.room)

-- Whatever requests come and end, when the clock does not go back, the limiter lets through at most
-- `capacity` requests at once, at most `per` of them of one principal, and at most `rate` requests of a
-- principal in each minute; as many of its slots are taken as requests are in progress, and at most
-- 1024 principals are kept.
pub session-Admits :
    (capacity per rate now : ℕ) (es : List (ℕ × Event))
    → Admits capacity per rate (session es (no_session (new_limiter capacity per rate) now))
session-Admits capacity per rate now es =
    let i =
      session-Inv capacity per rate es (no_session (new_limiter capacity per rate) now)
        (new-Inv capacity per rate now) in
    let s = session es (no_session (new_limiter capacity per rate) now) in
    record {
      at_once = omega (arith, i.slots, i.free);
      of_principal = λ k. opened-bound per (opened k s) (λ m. passes k m s) s.now _ (i.known k);
      of_minute = i.rated;
      slots = i.slots;
      kept =
          (session-IsValid es (no_session (new_limiter capacity per rate) now)
            (new-IsValid capacity per rate)).kept;
    }
