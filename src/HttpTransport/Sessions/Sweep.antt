-- ===== src/HttpTransport/Sessions/Sweep.antt =====
-- The sweep of the states of the admission limiter of internal/httptransport/server.go.
use repo_plane.Base.{
  ℕ, String, ◌≡◌, refl, inl, inr, Bool, not, none, some, List, [], ◌∷◌, arith, leb, ◌==◌, String_eq,
  ℕ_eq, if◌then◌else◌, length, filter, lookup, insert, lookup-insert, Bool-cases, Option-cases,
  eq_iff, sym, subst, ap, ◌∙◌,
}
use repo_plane.HttpTransport.{PrincipalState, max_states, swept, is_idle}
use repo_plane.HttpTransport.Sessions.Kept.{Kept, Known, idle-Known}

-- The sweep of the states.
unfoldable pub Unique : List (String × PrincipalState) → Type 0
Unique [] = Unit {0}
Unique (entry ∷ m) = (lookup entry.0 m ≡ none) × Unique m

lookup-filter :
    (q : String × PrincipalState → Bool) (k : String) (m : List (String × PrincipalState))
    → Unique m
    → (lookup k m ≡ none → lookup k (filter q m) ≡ none)
      × ((st : PrincipalState)
          → lookup k m ≡ some st
          → lookup k (filter q m) ≡ (if q (k, st) then some st else none))
unfolding Unique lookup
lookup-filter q k [] u = (λ h. refl, λ st h. absurd (ground (arith, h)))
lookup-filter q k (entry ∷ m) (alone, u) =
    let (without, with_state) = lookup-filter q k m u in
    elim (Bool-cases (entry.0 == k)) [
      | inr other ↦ elim (Bool-cases (q entry)) [
        | inl stays ↦ rw (other, stays, other) (without, with_state)
        | inr goes ↦ rw (other, goes) (without, with_state)
      ]
      | inl same ↦
          (let id : entry.0 ≡ k = (eq_iff entry.0 k).0 same in
            (
              λ h. absurd (ground (arith, h, same)),
              λ st h.
                  let value : entry.1 ≡ st = ground (arith, h, same) in
                  let judged : q entry ≡ q (k, st) =
                    ap (λ x. q (x, entry.1)) id ∙ ap (λ x. q (k, x)) value in
                  elim (Bool-cases (q entry)) [
                    | inl stays ↦ rw (stays, same, sym judged, stays) (ap (λ x. some x) value)
                    | inr goes ↦
                        rw (goes, sym judged, goes)
                          (without (subst (λ i. lookup i m ≡ none) id alone))
                  ],
            ))
    ]

filter-Unique :
    (q : String × PrincipalState → Bool) (m : List (String × PrincipalState))
    → Unique m
    → Unique (filter q m)
unfolding Unique
filter-Unique q [] u = tt
filter-Unique q (entry ∷ m) (alone, u) = elim (Bool-cases (q entry)) [
  | inl stays ↦ rw stays ((lookup-filter q entry.0 m u).0 alone, filter-Unique q m u)
  | inr goes ↦ rw goes (filter-Unique q m u)
]

pub insert-Unique :
    (k : String) (st : PrincipalState) (m : List (String × PrincipalState))
    → Unique m
    → Unique (insert k st m)
unfolding Unique insert lookup
insert-Unique k st [] u = (refl, tt)
insert-Unique k st (entry ∷ m) (alone, u) = elim (Bool-cases (entry.0 == k)) [
  | inl same ↦ rw same (subst (λ i. lookup i m ≡ none) ((eq_iff entry.0 k).0 same) alone, u)
  | inr other ↦ rw other (
    lookup-insert k entry.0 st m ∙ ground (arith, other, alone, eq_iff k entry.0, eq_iff entry.0 k),
    insert-Unique k st m u,
  )
]

pub swept-Unique : (now : ℕ) (m : List (String × PrincipalState)) → Unique m → Unique (swept now m)
unfolding swept
swept-Unique now m u = elim (Bool-cases (leb max_states (length m))) [
  | inl full ↦ rw full (filter-Unique (λ entry. not (is_idle now entry)) m u)
  | inr room ↦ rw room u
]

pub swept-Known :
    (per n : ℕ) (f : ℕ → ℕ) (now : ℕ) (k : String) (m : List (String × PrincipalState))
    → Unique m
    → Known per n f now (lookup k m)
    → Known per n f now (lookup k (swept now m))
unfolding swept Known
swept-Known per n f now k m u known = elim (Bool-cases (leb max_states (length m))) [
  | inr room ↦ rw room known
  | inl full ↦
      (let (without, with_state) = lookup-filter (λ entry. not (is_idle now entry)) k m u in
        elim (Option-cases (lookup k m)) [
          | inl missing ↦ rw (full, without missing) (rw missing at known)
          | inr (st, found) ↦
              (let kept : Kept per n f now st = rw found at known in
                elim (Bool-cases (is_idle now (k, st))) [
                  | inl idle ↦
                      rw (full, with_state st found, idle) (idle-Known per n f now k st idle kept)
                  | inr busy ↦ rw (full, with_state st found, busy) kept
                ])
        ])
]
