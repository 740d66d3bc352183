-- ===== src/ToolboxClient/Residency.antt =====
-- The cache of internal/toolboxclient/cache.go against a specification that follows one key alone.
use repo_plane.Base.{
  String, ◌≡◌, refl, Bool, true, false, Option, none, some, List, [], ◌∷◌, ◌++◌, arith, ◌==◌,
  if◌then◌else◌, lookup, lookup-insert, Result, ok, err, Option-cases, Bool-cases, inl, inr, subst,
  sym, ap, ◌∙◌,
}
use repo_plane.ToolboxClient.{
  CacheError, contract_missing, rehydrate_required, Key, Key_eq, same_key_iff, Entry, Cache, Json,
  new, is_acceptable, remember, call_arguments, compact, rehydrate,
}

-- The methods that change the cache.
pub data Event : Type 0 where
  remembered : Key → String → String → Event
  compacted : Event
  rehydrated : Key → Event

unfoldable pub step : Json → Event → Cache → Cache
step j (remembered k h d) c = (remember j k h d c).1
step j compacted c = compact c
step j (rehydrated k) c = (rehydrate k c).1

unfoldable pub run : Json → List Event → Cache → Cache
run j [] c = c
run j (e ∷ es) c = run j es (step j e c)

-- What a client of one key sees: no contract, one that is only cached, or one in the context.
pub data Residency : Type 0 where
  absent : Residency
  cached resident : String → String → Residency

next : Json → Key → Event → Residency → Residency
next j k (remembered k' h d) s =
    if k' == k then (if is_acceptable j k' h d then resident h d else s) else s
next j k compacted absent = absent
next j k compacted (cached h d) = cached h d
next j k compacted (resident h d) = cached h d
next j k (rehydrated k') absent = absent
next j k (rehydrated k') (cached h d) = if k' == k then resident h d else cached h d
next j k (rehydrated k') (resident h d) = resident h d

pub follow : Json → Key → List Event → Residency → Residency
unfolding next
follow j k [] s = s
follow j k (e ∷ es) s = follow j k es (next j k e s)

residency_of : Option Entry → Residency
residency_of none = absent
residency_of (some e) =
    if e.resident then resident e.handle e.contract else cached e.handle e.contract

abbrev pub call_of : Residency → Result CacheError String
call_of absent = err contract_missing
call_of (cached h d) = err rehydrate_required
call_of (resident h d) = ok h

lookup-compact :
    (k : Key) (c : Cache)
    → lookup k (compact c)
      ≡ (elim (lookup k c) [ none ↦ none | some e ↦ some (record e { resident = false }) ])
unfolding lookup compact
lookup-compact k [] = refl
lookup-compact k ((i, e) ∷ c) = ground (arith, lookup-compact k c)

rehydrate_self :
    (j : Json) (k : Key) (c : Cache)
    → residency_of (lookup k (rehydrate k c).1)
      ≡ next j k (rehydrated k) (residency_of (lookup k c))
unfolding next residency_of rehydrate
rehydrate_self j k c = elim (Option-cases (lookup k c)) [
  | inl q ↦ ground (arith, q)
  | inr (e, q) ↦
      ground
        (arith, q, (same_key_iff k k).1 refl, lookup-insert k k (record e { resident = true }) c)
]

rehydrate_other :
    (k' k : Key) (c : Cache) → (k' == k) ≡ false → lookup k (rehydrate k' c).1 ≡ lookup k c
unfolding rehydrate
rehydrate_other k' k c h = elim (Option-cases (lookup k' c)) [
  | inl q ↦ ground (arith, q)
  | inr (e, q) ↦ rw (q, lookup-insert, h) refl
]

residency-step :
    (j : Json) (k : Key) (e : Event) (c : Cache)
    → residency_of (lookup k (step j e c)) ≡ next j k e (residency_of (lookup k c))
unfolding step next residency_of remember
residency-step j k (remembered k' h d) c =
    ground (arith, lookup-insert k' k (record { handle = h; contract = d; resident = true }) c)
residency-step j k compacted c = ground (arith, lookup-compact k c)
residency-step j k (rehydrated k') c = elim (Bool-cases (k' == k)) [
  | inl same ↦
      subst
        (λ i.
          residency_of (lookup k (rehydrate i c).1)
          ≡ next j k (rehydrated i) (residency_of (lookup k c)))
        (sym ((same_key_iff k' k).0 same)) (rehydrate_self j k c)
  | inr other ↦ rw (rehydrate_other k' k c other) (ground (arith, other))
]

residency-run :
    (j : Json) (k : Key) (es : List Event) (c : Cache)
    → residency_of (lookup k (run j es c)) ≡ follow j k es (residency_of (lookup k c))
unfolding run follow
residency-run j k [] c = refl
residency-run j k (e ∷ es) c =
    residency-run j k es (step j e c) ∙ ap (follow j k es) (residency-step j k e c)

-- The whole cache behaves, for each key, like the machine that follows that key alone: after any
-- events, `CallArguments` gives the handle, the missing-contract error or the rehydrate error as the
-- machine is resident, absent or only cached.
pub call_arguments-follow :
    (j : Json) (k : Key) (es : List Event)
    → call_arguments k (run j es new) ≡ call_of (follow j k es absent)
unfolding call_arguments residency_of lookup
call_arguments-follow j k es = rw (← residency-run j k es new) (ground arith)

abbrev Elsewhere : Key → Event → Type 0
Elsewhere k (remembered k' h d) = (k' == k) ≡ false
Elsewhere k compacted = Unit
Elsewhere k (rehydrated k') = (k' == k) ≡ false

-- No event of the list remembers or rehydrates this key.
abbrev pub AllElsewhere : Key → List Event → Type 0
AllElsewhere k [] = Unit
AllElsewhere k (e ∷ es) = Elsewhere k e × AllElsewhere k es

abbrev is_resident : Residency → Bool
is_resident (resident h d) = true
is_resident _ = false

next_away :
    (j : Json) (k : Key) (e : Event) (s : Residency)
    → Elsewhere k e
    → is_resident s ≡ false
    → is_resident (next j k e s) ≡ false
unfolding next
next_away j k (remembered k' h d) s away r = ground arith
next_away j k compacted s away r = ground arith
next_away j k (rehydrated k') s away r = ground arith

follow_away :
    (j : Json) (k : Key) (es : List Event) (s : Residency)
    → AllElsewhere k es
    → is_resident s ≡ false
    → is_resident (follow j k es s) ≡ false
unfolding follow
follow_away j k [] s away r = r
follow_away j k (e ∷ es) s away r =
    follow_away j k es (next j k e s) away.1 (next_away j k e s away.0 r)

follow-compacted :
    (j : Json) (k : Key) (before after : List Event) (s : Residency)
    → AllElsewhere k after
    → is_resident (follow j k (before ++ compacted ∷ after) s) ≡ false
unfolding follow next
follow-compacted j k [] after s away =
    follow_away j k after (next j k compacted s) away (ground arith)
follow-compacted j k (e ∷ before) after s away =
    follow-compacted j k before after (next j k e s) away

-- After a compaction no call of a key succeeds until that key is remembered or rehydrated again,
-- whatever happened before and whatever is done to other keys meanwhile.
pub no_call_after_compact :
    (j : Json) (k : Key) (before after : List Event) {h : String}
    → AllElsewhere k after
    → ¬ (call_arguments k (run j (before ++ compacted ∷ after) new) ≡ ok h)
no_call_after_compact j k before after away called =
    let s = follow j k (before ++ compacted ∷ after) absent in
    ground (
      arith,
      call_arguments-follow j k (before ++ compacted ∷ after),
      called,
      follow-compacted j k before after absent away,
    )
