-- ===== src/Runtime/Access/Authority.antt =====
-- Which operations of internal/runtimeaccess/service.go widen what a server process may do.
use Prim.Native.String.{◌++◌ as join}
use repo_plane.Base.{
  ℕ, ◌<◌, String, ◌≡◌, ◌≢◌, refl, ◌⊎◌, inl, inr, Bool, true, false, Option, none, some, List, arith,
  ltb, leb, length, ◌+◌, ap, subst, ◌==◌, String_eq, eq_iff, lookup, insert, delete, lookup-insert,
  Bool-cases, Option-cases, ok, err, Result,
}
use repo_plane.Workspace.{Platform, Root, ReadGrantPlan, read_allowed, covers}
use repo_plane.Workspace.Grants.{apply_read_grant-extent, revoke_read-shrinks}
use repo_plane.Runtime.Access.{
  Service, Pending, Operation, asks, answers, revokes, rebinds, AccessError, live, max_pending,
  pending_ttl, is_enabled, is_fixed, proposal, begin, begin_with, begin_drawn, begin_proposed,
  add_grant, apply_pending, complete_item, complete, revoke_grant, revoke_found, revoke,
  rebind_root, step,
}

drawn-queue :
    (p : Platform) (random : Option String) (now : ℕ) (kind : String) (s : Service)
    (proposed : String × Option ReadGrantPlan)
    → (items : List (String × Pending)) × ((begin_drawn p random now kind s proposed).1
        ≡ record s { pending = items })
unfolding begin_drawn begin_with
drawn-queue p none now kind s proposed = (s.pending, refl)
drawn-queue p (some drawn) now kind s proposed =
    elim (Bool-cases (leb max_pending (length (live p now s.pending)))) [
      | inl full ↦ (live p now s.pending, ground (arith, full))
      | inr room ↦ (
        insert (join "approval_" drawn)
            (record {
              kind = kind;
              path = proposed.0;
              read_plan = proposed.1;
              expires_at = now + pending_ttl;
            })
            (live p now s.pending),
        ground (arith, room),
      )
    ]

proposed-queue :
    (p : Platform) (random : Option String) (now : ℕ) (kind : String) (s : Service)
    (r : Result AccessError (String × Option ReadGrantPlan))
    → (items : List (String × Pending)) × ((begin_proposed p random now kind s r).1
        ≡ record s { pending = items })
unfolding begin_proposed
proposed-queue p random now kind s (err e) = (s.pending, refl)
proposed-queue p random now kind s (ok proposed) = drawn-queue p random now kind s proposed

-- Begin changes nothing but the queue of proposals.
begin-queue :
    (p : Platform) (random : Option String) (now : ℕ) (kind path : String) (s : Service)
    → (items : List (String × Pending)) × ((begin p random now kind path s).1
        ≡ record s { pending = items })
unfolding begin
begin-queue p random now kind path s = proposed-queue p random now kind s (proposal p kind path s)

-- The approval that an operation carries: the answer to a proposal that waits, in time, accepted.
pub record Approved (now : ℕ) (o : Operation) (s : Service) (item : Pending) : Type 0 where
  pub token : String
  pub accepts : o ≡ answers token true
  pub waits : lookup token s.pending ≡ some item
  pub in_time : now < item.expires_at

-- An answer that changes more than the queue is an approval, and does what the proposal says.
complete-effect :
    (now : ℕ) (token : String) (accepted : Bool) (s : Service)
    → (((complete now token accepted s).1 ≡ s)
        ⊎ ((complete now token accepted s).1 ≡ record s { pending = delete token s.pending }))
      ⊎ ((item : Pending) × (Approved now (answers token accepted) s item
            × ((complete now token accepted s).1
                ≡ (apply_pending item (record s { pending = delete token s.pending })).1)))
unfolding complete complete_item
complete-effect now token accepted s = elim (Bool-cases s.allowed) [
  | inr off ↦ inl (inl (ground (arith, off)))
  | inl on ↦ elim (Option-cases (lookup token s.pending)) [
    | inl missing ↦ inl (inr (ground (arith, on, missing)))
    | inr (item, waits) ↦ elim (Bool-cases (ltb now item.expires_at)) [
      | inr late ↦ inl (inr (ground (arith, on, waits, late)))
      | inl in_time ↦ elim (Bool-cases accepted) [
        | inr against ↦ inl (inr (ground (arith, on, waits, in_time, against)))
        | inl agreed ↦ inr (
          item,
          (
            record {
              token = token;
              accepts = ap (answers token) agreed;
              waits = waits;
              in_time = ground (arith, in_time);
            },
            ground (arith, on, waits, in_time, agreed),
          ),
        )
      ]
    ]
  ]
]

apply-other :
    (kind : String) (item : Pending) (s : Service)
    → (item.kind == kind) ≡ false
    → is_enabled kind (apply_pending item s).1 ≡ true
    → is_enabled kind s ≡ true
unfolding apply_pending add_grant is_enabled
apply-other kind item s other h = elim (Bool-cases (item.kind == "read_path")) [
  | inl e ↦ elim (Option-cases item.read_plan) [
    | inl missing ↦ ground (arith, e, missing, h)
    | inr plan ↦ ground (arith, e, plan.1, h)
  ]
  | inr e ↦ ground (arith, e, other, h, lookup-insert item.kind kind true s.enabled)
]

apply-enabled :
    (kind : String) (item : Pending) (s : Service)
    → is_enabled kind (apply_pending item s).1 ≡ true
    → (is_enabled kind s ≡ true) ⊎ (item.kind ≡ kind)
unfolding apply_pending add_grant is_enabled
apply-enabled kind item s h = elim (Bool-cases (item.kind == kind)) [
  | inl same ↦ inr (ground (arith, same, eq_iff item.kind kind))
  | inr other ↦ inl (apply-other kind item s other h)
]

revoke-enabled :
    (kind id : String) (s : Service)
    → is_enabled kind (revoke id s).1 ≡ true
    → (is_enabled kind s ≡ true) ⊎ (is_fixed kind s ≡ true)
unfolding revoke revoke_found revoke_grant is_enabled
revoke-enabled kind id s h = elim (Option-cases (lookup id s.grants)) [
  | inl missing ↦ inl (ground (arith, missing, h))
  | inr (g, found) ↦ elim (Bool-cases (g.kind == kind)) [
    | inl same ↦ ground (
      arith,
      found,
      same,
      eq_iff g.kind kind,
      h,
      lookup-insert g.kind kind (is_fixed g.kind s) s.enabled,
    )
    | inr other ↦
        inl
          (ground (arith, found, other, h, lookup-insert g.kind kind (is_fixed g.kind s) s.enabled))
  ]
]

-- A step turns a capability on only when the host fixed it, or when the step is the accepted and timely
-- answer to a proposal that waits for that same capability.
pub step-enabled :
    (p : Platform) (now : ℕ) (o : Operation) (s : Service) (kind : String)
    → is_enabled kind (step p now o s) ≡ true
    → (is_enabled kind s ≡ true)
      ⊎ ((is_fixed kind s ≡ true)
          ⊎ ((item : Pending) × (Approved now o s item × (item.kind ≡ kind))))
unfolding step is_enabled rebind_root
step-enabled p now (asks random k path) s kind h =
    inl (subst (λ x. is_enabled kind x ≡ true) (begin-queue p random now k path s).1 h)
step-enabled p now (answers token accepted) s kind h = elim (complete-effect now token accepted s) [
  | inl (inl e) ↦ inl (subst (λ x. is_enabled kind x ≡ true) e h)
  | inl (inr e) ↦ inl (subst (λ x. is_enabled kind x ≡ true) e h)
  | inr (item, (a, e)) ↦
      elim (apply-enabled kind item (record s { pending = delete token s.pending })
        (subst (λ x. is_enabled kind x ≡ true) e h)) [
          | inl before ↦ inl before
          | inr same ↦ inr (inr (item, (a, same)))
        ]
]
step-enabled p now (revokes id) s kind h = elim (revoke-enabled kind id s h) [
  | inl before ↦ inl before
  | inr host ↦ inr (inl host)
]
step-enabled p now (rebinds root) s kind h = inl h

apply-reads :
    (p : Platform) (item : Pending) (s : Service) (path : String)
    → read_allowed p (apply_pending item s).1.root path ≡ true
    → (read_allowed p s.root path ≡ true)
      ⊎ ((plan : ReadGrantPlan) × ((item.read_plan ≡ some plan)
            × (covers p plan.candidate path ≡ true)))
unfolding apply_pending add_grant
apply-reads p item s path h = elim (Bool-cases (item.kind == "read_path")) [
  | inr e ↦ inl (ground (arith, e, h))
  | inl e ↦ elim (Option-cases item.read_plan) [
    | inl missing ↦ inl (ground (arith, e, missing, h))
    | inr (plan, planned) ↦ elim (Bool-cases (covers p plan.candidate path)) [
      | inl covered ↦ inr (plan, (planned, covered))
      | inr outside ↦
          inl
            (ground (arith, e, planned, outside, h, (apply_read_grant-extent p plan s.root path).1))
    ]
  ]
]

revoke-reads :
    (p : Platform) (id : String) (s : Service) (path : String)
    → read_allowed p (revoke id s).1.root path ≡ true
    → read_allowed p s.root path ≡ true
unfolding revoke revoke_found revoke_grant
revoke-reads p id s path h = elim (Option-cases (lookup id s.grants)) [
  | inl missing ↦ ground (arith, missing, h)
  | inr (g, found) ↦ ground (arith, found, h, revoke_read-shrinks p id s.root path)
]

-- A step within one workspace makes a path readable only when it is the accepted and timely answer to a
-- proposal whose captured target covers that path.
pub step-reads :
    (p : Platform) (now : ℕ) (o : Operation) (s : Service) (path : String)
    → ((root : Root) → o ≢ rebinds root)
    → read_allowed p (step p now o s).root path ≡ true
    → (read_allowed p s.root path ≡ true)
      ⊎ ((item : Pending) × (Approved now o s item
            × ((plan : ReadGrantPlan) × ((item.read_plan ≡ some plan)
                  × (covers p plan.candidate path ≡ true)))))
unfolding step
step-reads p now (asks random k asked) s path n h =
    inl (subst (λ x. read_allowed p x.root path ≡ true) (begin-queue p random now k asked s).1 h)
step-reads p now (answers token accepted) s path n h = elim (complete-effect now token accepted s) [
  | inl (inl e) ↦ inl (subst (λ x. read_allowed p x.root path ≡ true) e h)
  | inl (inr e) ↦ inl (subst (λ x. read_allowed p x.root path ≡ true) e h)
  | inr (item, (a, e)) ↦
      elim (apply-reads p item (record s { pending = delete token s.pending }) path
        (subst (λ x. read_allowed p x.root path ≡ true) e h)) [
          | inl before ↦ inl before
          | inr covered ↦ inr (item, (a, covered))
        ]
]
step-reads p now (revokes id) s path n h = inl (revoke-reads p id s path h)
step-reads p now (rebinds root) s path n h = elim (n root refl) [ ]
