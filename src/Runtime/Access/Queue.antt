-- ===== src/Runtime/Access/Queue.antt =====
-- The proposals that wait for an answer, and the capabilities fixed by the host
-- (internal/runtimeaccess/service.go).
use Prim.Native.String.{◌++◌ as join}
use repo_plane.Base.{
  ℕ, ◌+◌, ◌≤◌, String, ◌≡◌, refl, inl, inr, Bool, true, false, Option, none, some, List, [], ◌∷◌,
  arith, ltb, leb, length, ◌==◌, String_eq, eq_iff, eq_refl, lookup, delete, lookup-insert,
  lookup-delete, length-insert-le, length-delete-le, length-filter-le, Bool-cases, Option-cases,
  Result, ok, err, subst, sym,
}
use repo_plane.Workspace.{Platform, Root, ReadGrantPlan}
use repo_plane.Runtime.Access.{
  Service, Pending, Initial, AccessError, Operation, asks, answers, revokes, rebinds, is_enabled,
  is_fixed, flag, live, max_pending, begin_with, begin_drawn, begin_proposed, begin, proposal,
  add_grant, apply_pending, complete_item, complete, revoke_grant, revoke_found, revoke,
  rebind_root, step, run, new, no_pending, pending_ttl,
}

-- Two services that agree on what an approval leaves alone.
record SameHost (after before : Service) : Type 0 where
  pending : after.pending ≡ before.pending
  allowed : after.allowed ≡ before.allowed
  fixed : after.fixed ≡ before.fixed

apply-SameHost : (item : Pending) (s : Service) → SameHost (apply_pending item s).1 s
unfolding apply_pending add_grant
apply-SameHost item s = elim (Bool-cases (item.kind == "read_path")) [
  | inl e ↦ elim (Option-cases item.read_plan) [
    | inl missing ↦ record {
      pending = ground (arith, e, missing);
      allowed = ground (arith, e, missing);
      fixed = ground (arith, e, missing);
    }
    | inr plan ↦ record {
      pending = ground (arith, e, plan.1);
      allowed = ground (arith, e, plan.1);
      fixed = ground (arith, e, plan.1);
    }
  ]
  | inr e ↦ record {
    pending = ground (arith, e);
    allowed = ground (arith, e);
    fixed = ground (arith, e);
  }
]

item-SameHost :
    (now : ℕ) (accepted : Bool) (found : Option Pending) (s : Service)
    → SameHost (complete_item now accepted found s).1 s
unfolding complete_item
item-SameHost now accepted none s = record { pending = refl; allowed = refl; fixed = refl }
item-SameHost now accepted (some item) s = record {
  pending = ground (arith, (apply-SameHost item s).pending);
  allowed = ground (arith, (apply-SameHost item s).allowed);
  fixed = ground (arith, (apply-SameHost item s).fixed);
}

complete-SameHost :
    (now : ℕ) (token : String) (accepted : Bool) (s : Service)
    → s.allowed ≡ true
    → SameHost (complete now token accepted s).1 (record s { pending = delete token s.pending })
unfolding complete
complete-SameHost now token accepted s on =
    let h =
      item-SameHost now accepted (lookup token s.pending)
        (record s { pending = delete token s.pending }) in
    record {
      pending = ground (arith, on, h.pending);
      allowed = ground (arith, on, h.allowed);
      fixed = ground (arith, on, h.fixed);
    }

refused :
    (now : ℕ) (token : String) (accepted : Bool) (s : Service)
    → s.allowed ≡ true
    → lookup token s.pending ≡ none
    → (complete now token accepted s).0 ≡ err no_pending
unfolding complete complete_item
refused now token accepted s on missing = ground (arith, on, missing)

-- For a service that is allowed, an answer uses its token up: the token waits no longer, whatever the
-- answer was, and a second answer with the token is refused as not pending.
pub complete_once :
    (now later : ℕ) (token : String) (first second : Bool) (s : Service)
    → s.allowed ≡ true
    → (let after = (complete now token first s).1 in
        (lookup token after.pending ≡ none)
        × ((complete later token second after).0 ≡ err no_pending))
complete_once now later token first second s on =
    let h = complete-SameHost now token first s on in
    let gone : lookup token (complete now token first s).1.pending ≡ none =
      ground (arith, h.pending, lookup-delete token token s.pending, eq_refl token) in
    (
      gone,
      refused later token second (complete now token first s).1 (ground (arith, on, h.allowed))
          gone,
    )

begin-bounded :
    (p : Platform) (random : Option String) (now : ℕ) (kind : String) (s : Service)
    (r : Result AccessError (String × Option ReadGrantPlan))
    → length s.pending ≤ max_pending
    → length (begin_proposed p random now kind s r).1.pending ≤ max_pending
unfolding begin_proposed begin_drawn begin_with
begin-bounded p random now kind s (err e) h = h
begin-bounded p none now kind s (ok proposed) h = h
begin-bounded p (some drawn) now kind s (ok proposed) h =
    elim (Bool-cases (leb max_pending (length (live p now s.pending)))) [
      | inl full ↦
          ground (arith, full, h, length-filter-le (λ entry. ltb now entry.1.expires_at) s.pending)
      | inr room ↦ ground (
        arith,
        room,
        length-insert-le (join "approval_" drawn)
            (record {
              kind = kind;
              path = proposed.0;
              read_plan = proposed.1;
              expires_at = now + pending_ttl;
            })
            (live p now s.pending),
      )
    ]

begin-host :
    (p : Platform) (random : Option String) (now : ℕ) (kind : String) (s : Service)
    (r : Result AccessError (String × Option ReadGrantPlan)) (k : String)
    → (is_fixed k s ≡ true → is_enabled k s ≡ true)
    → is_fixed k (begin_proposed p random now kind s r).1 ≡ true
    → is_enabled k (begin_proposed p random now kind s r).1 ≡ true
unfolding begin_proposed begin_drawn begin_with is_fixed is_enabled
begin-host p random now kind s (err e) k h = h
begin-host p none now kind s (ok proposed) k h = h
begin-host p (some drawn) now kind s (ok proposed) k h =
    elim (Bool-cases (leb max_pending (length (live p now s.pending)))) [
      | inl full ↦ (λ f. ground (arith, full, h, f))
      | inr room ↦ (λ f. ground (arith, room, h, f))
    ]

apply-host :
    (item : Pending) (s : Service) (k : String)
    → is_enabled k s ≡ true
    → is_enabled k (apply_pending item s).1 ≡ true
unfolding apply_pending add_grant is_enabled
apply-host item s k h = elim (Bool-cases (item.kind == "read_path")) [
  | inl e ↦ elim (Option-cases item.read_plan) [
    | inl missing ↦ ground (arith, e, missing, h)
    | inr plan ↦ ground (arith, e, plan.1, h)
  ]
  | inr e ↦ ground (arith, e, h, lookup-insert item.kind k true s.enabled)
]

item-host :
    (now : ℕ) (accepted : Bool) (found : Option Pending) (s : Service) (k : String)
    → is_enabled k s ≡ true
    → is_enabled k (complete_item now accepted found s).1 ≡ true
unfolding complete_item
item-host now accepted none s k h = h
item-host now accepted (some item) s k h = ground (arith, h, apply-host item s k h)

unavailable :
    (now : ℕ) (token : String) (accepted : Bool) (s : Service)
    → s.allowed ≡ false
    → (complete now token accepted s).1 ≡ s
unfolding complete
unavailable now token accepted s off = ground (arith, off)

complete_on-host :
    (now : ℕ) (token : String) (accepted : Bool) (s : Service) (k : String)
    → s.allowed ≡ true
    → is_enabled k s ≡ true
    → is_enabled k (complete now token accepted s).1 ≡ true
unfolding complete is_enabled
complete_on-host now token accepted s k on h = ground (
  arith,
  on,
  h,
  item-host now accepted (lookup token s.pending) (record s { pending = delete token s.pending }) k
      h,
)

complete-host :
    (now : ℕ) (token : String) (accepted : Bool) (s : Service) (k : String)
    → (is_fixed k s ≡ true → is_enabled k s ≡ true)
    → is_fixed k (complete now token accepted s).1 ≡ true
    → is_enabled k (complete now token accepted s).1 ≡ true
unfolding is_enabled is_fixed
complete-host now token accepted s k h f = elim (Bool-cases s.allowed) [
  | inr off ↦
      (let same = unavailable now token accepted s off in
        subst (λ x. is_enabled k x ≡ true) (sym same) (h (subst (λ x. is_fixed k x ≡ true) same f)))
  | inl on ↦
      (let same = complete-SameHost now token accepted s on in
        complete_on-host now token accepted s k on
          (h (subst (λ x. flag (lookup k x) ≡ true) same.fixed f)))
]

revoke-host :
    (id : String) (s : Service) (k : String)
    → (is_fixed k s ≡ true → is_enabled k s ≡ true)
    → is_fixed k (revoke id s).1 ≡ true
    → is_enabled k (revoke id s).1 ≡ true
unfolding revoke revoke_found revoke_grant is_fixed is_enabled
revoke-host id s k h f = elim (Option-cases (lookup id s.grants)) [
  | inl missing ↦ ground (arith, missing, h, f)
  | inr (g, found) ↦
      ground
        (arith, found, h, f, eq_iff g.kind k, lookup-insert g.kind k (is_fixed g.kind s) s.enabled)
]

revoke-bounded : (id : String) (s : Service) → (revoke id s).1.pending ≡ s.pending
unfolding revoke revoke_found revoke_grant
revoke-bounded id s = elim (Option-cases (lookup id s.grants)) [
  | inl missing ↦ ground (arith, missing)
  | inr (g, found) ↦ ground (arith, found)
]

complete-bounded :
    (now : ℕ) (token : String) (accepted : Bool) (s : Service)
    → length s.pending ≤ max_pending
    → length (complete now token accepted s).1.pending ≤ max_pending
complete-bounded now token accepted s h = elim (Bool-cases s.allowed) [
  | inr off ↦ ground (arith, h, unavailable now token accepted s off)
  | inl on ↦ ground (
    arith,
    h,
    (complete-SameHost now token accepted s on).pending,
    length-delete-le token s.pending,
  )
]

rebind-bounded : (root : Root) (s : Service) → length (rebind_root root s).pending ≤ max_pending
unfolding rebind_root
rebind-bounded root s = omega arith

rebind-host :
    (root : Root) (s : Service) (k : String)
    → (is_fixed k s ≡ true → is_enabled k s ≡ true)
    → is_fixed k (rebind_root root s) ≡ true
    → is_enabled k (rebind_root root s) ≡ true
unfolding rebind_root is_fixed is_enabled
rebind-host root s k h = h

-- What holds of a service in every session: at most 64 proposals wait, and a capability that the host
-- fixed stays on.
pub record IsValid (s : Service) : Type 0 where
  pub bounded : length s.pending ≤ max_pending
  pub host : (kind : String) → is_fixed kind s ≡ true → is_enabled kind s ≡ true

step-IsValid :
    (p : Platform) (now : ℕ) (o : Operation) (s : Service) → IsValid s → IsValid (step p now o s)
unfolding step begin
step-IsValid p now (asks random kind path) s h = record {
  bounded = begin-bounded p random now kind s (proposal p kind path s) h.bounded;
  host = λ k. begin-host p random now kind s (proposal p kind path s) k (h.host k);
}
step-IsValid p now (answers token accepted) s h = record {
  bounded = complete-bounded now token accepted s h.bounded;
  host = λ k. complete-host now token accepted s k (h.host k);
}
step-IsValid p now (revokes id) s h = record {
  bounded = ground (arith, revoke-bounded id s, h.bounded);
  host = λ k. revoke-host id s k (h.host k);
}
step-IsValid p now (rebinds root) s h = record {
  bounded = rebind-bounded root s;
  host = λ k. rebind-host root s k (h.host k);
}

run-IsValid :
    (p : Platform) (os : List (ℕ × Operation)) (s : Service) → IsValid s → IsValid (run p os s)
unfolding run
run-IsValid p [] s h = h
run-IsValid p ((now, o) ∷ os) s h = run-IsValid p os (step p now o s) (step-IsValid p now o s h)

new-IsValid :
    (root : Root) (allowed : Bool) (initial : Initial) → IsValid (new root allowed initial)
unfolding new is_fixed is_enabled
new-IsValid root allowed initial = record { bounded = omega arith; host = λ kind h. h }

-- In every session that starts from `New`, at most 64 proposals wait for an answer, and a capability
-- that the host fixed is never turned off.
pub session-IsValid :
    (p : Platform) (root : Root) (allowed : Bool) (initial : Initial) (os : List (ℕ × Operation))
    → IsValid (run p os (new root allowed initial))
session-IsValid p root allowed initial os =
    run-IsValid p os (new root allowed initial) (new-IsValid root allowed initial)
