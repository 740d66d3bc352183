-- ===== src/Runner/Reuse/Prepare/Hits.antt =====
-- When prepareCache of internal/runner/cache.go decides for a hit.
use repo_plane.Base.{
  ℕ, suc, String, ◌≡◌, refl, sym, ◌∙◌, ap, Bool, true, false, not, ◌&&◌, ◌||◌, Option, none, some,
  List, [], ◌∷◌, arith, ◌==◌, ◌!=◌, String_eq, ℕ_eq, if◌then◌else◌, Result, ok, err, eq_iff,
  Bool-cases, inl, inr,
}
use repo_plane.Catalog.{Capability, Cache}
use repo_plane.Store.{StoreError, not_found, conflict, failed}
use repo_plane.Store.Cache.{CacheEntry, get_cache_entry}
use repo_plane.Runner.{CacheDecision}
use repo_plane.Runner.Host.{Host}
use repo_plane.Runner.Machine.{Machine, Act, ◌>>=◌, pure, bind-ok, rest-ok}
use repo_plane.Runner.Reuse.{
  Reuser, Request, equal_lists, verify_cache_outputs, decide, because, make_cache_key, policy_of,
  start_decision, identity_of, by_id, executable_id, key_identities,
}
use repo_plane.Runner.Reuse.Prepare.{
  is_stale, judge_active, judge_state, judge, find_entry, qualify_decision, decide_with_key, keyed,
  identified, prepare_declared, prepare_cache, withdraw,
}

-- The entry of a hit, which is judged at the first reading of the clock; each of its outputs is hashed
-- again from what is kept.
pub record IsHit (r : Reuser) (h : Host) (c : Capability) (configuration : String)
    (d : CacheDecision) (m : Machine) : Type 0 where
  pub entry : CacheEntry
  pub found :
      get_cache_entry h.cache_faults.select h.project_id h.workspace_id d.key m.entries ≡ ok entry
  pub active : entry.state ≡ "active"
  pub fresh : is_stale r h c configuration (h.clock m.readings) entry ≡ false
  pub qualified : equal_lists entry.qualification_refs d.qualification_refs ≡ true
  pub kept : verify_cache_outputs r h entry.outputs ≡ true
  pub source : d.source_run_ref ≡ entry.source_run_ref

differs : (a b : String) → (a == b) ≡ false → ¬ (a ≡ b)
differs a b h e = ground (arith, h, (eq_iff a b).1 e)

module _ (r : Reuser) (h : Host) (c : Capability) (q : String) where
  -- What a judgement of an active entry that is a hit has seen.
  active-hit :
      (d : CacheDecision) (e : CacheEntry) (at : ℕ) (m : Machine) {out : CacheDecision}
      → (judge_active r h c q d e at m).0 ≡ ok out
      → out.status ≡ "hit"
      → (is_stale r h c q at e ≡ false)
        × (equal_lists e.qualification_refs d.qualification_refs ≡ true)
        × (verify_cache_outputs r h e.outputs ≡ true)
        × (out ≡ record (decide "hit" "verified_entry" d) { source_run_ref = e.source_run_ref })
  unfolding judge_active withdraw
  active-hit d e at m {out} done hit =
      ground (arith, done, hit, differs "miss" "hit" refl, differs "quarantined" "hit" refl)

  state-IsHit :
      (quarantined active : Bool) (d : CacheDecision) (e : CacheEntry) (m : Machine)
      → get_cache_entry h.cache_faults.select h.project_id h.workspace_id d.key m.entries ≡ ok e
      → (e.state == "active") ≡ active
      → {out : CacheDecision} → (judge_state r h quarantined active c q d e m).0 ≡ ok out
      → out.status ≡ "hit"
      → IsHit r h c q out m
  unfolding judge_state
  state-IsHit true active d e m same state {out} done hit =
      absurd (ground (arith, done, hit, differs "quarantined" "hit" refl))
  state-IsHit false false d e m same state {out} done hit =
      absurd (ground (arith, done, hit, differs "miss" "hit" refl))
  state-IsHit false true d e m same state {out} done hit =
      let at = h.clock m.readings in
      let m1 = record m { readings = suc m.readings } in
      let (fresh, qualified, kept, result) = active-hit d e at m1 done hit in
      record {
        entry = e;
        found =
            ap
              (λ x.
                get_cache_entry h.cache_faults.select h.project_id h.workspace_id x.key m.entries)
              result
            ∙ same;
        active = (eq_iff e.state "active").0 state;
        fresh = fresh;
        qualified =
            ap (λ x. equal_lists e.qualification_refs x.qualification_refs) result ∙ qualified;
        kept = kept;
        source = ap (λ x. x.source_run_ref) result;
      }

  judge-IsHit :
      (d : CacheDecision) (m : Machine) (found : Result StoreError CacheEntry)
      → get_cache_entry h.cache_faults.select h.project_id h.workspace_id d.key m.entries ≡ found
      → {out : CacheDecision} → (judge r h c q d found m).0 ≡ ok out
      → out.status ≡ "hit"
      → IsHit r h c q out m
  unfolding judge
  judge-IsHit d m (err not_found) same {out} done hit =
      absurd (ground (arith, done, hit, differs "miss" "hit" refl))
  judge-IsHit d m (err conflict) same {out} done hit = absurd (ground (arith, done))
  judge-IsHit d m (err failed) same {out} done hit = absurd (ground (arith, done))
  judge-IsHit d m (ok e) same {out} done hit =
      state-IsHit (e.state == "quarantined") (e.state == "active") d e m same refl done hit

abbrev pair_with :
    List (String × String) → CacheDecision → Act (CacheDecision × List (String × String))
pair_with ids d = pure (d, ids)

-- A decision that has started cannot say `hit`.
abbrev Rejected : CacheDecision → Type 0
Rejected d = d.status ≡ "rejected"

module _ (r : Reuser) (h : Host) (c : Capability) (q : Request) where
  -- A hit that was asked for, with the policy that allows it.
  pub record Reuses (out : CacheDecision) (m : Machine) : Type 0 where
    pub policy : policy_of c.manifest.cache_policy ≡ "verified"
    pub wanted : (q.cache_mode == "bypass") ≡ false
    pub hit : IsHit r h c q.configuration out m

  qualify-Reuses :
      (d : CacheDecision) (m : Machine)
      → Rejected d
      → policy_of c.manifest.cache_policy ≡ "verified"
      → (quals : Option (List String × Bool)) {out : CacheDecision}
      → (qualify_decision r h c q d quals m).0 ≡ ok out
      → out.status ≡ "hit"
      → Reuses out m
  unfolding qualify_decision find_entry
  qualify-Reuses d m start policy none {out} done hit = absurd (ground (arith, done))
  qualify-Reuses d m start policy (some (refs, false)) {out} done hit =
      absurd (ground (arith, done, hit, start, differs "rejected" "hit" refl))
  qualify-Reuses d m start policy (some (refs, true)) {out} done hit =
      elim (Bool-cases (q.cache_mode == "bypass")) [
        | inl bypass ↦
            absurd (ground (arith, rw bypass at done, hit, differs "bypassed" "hit" refl))
        | inr wanted ↦ record {
          policy = policy;
          wanted = wanted;
          hit =
              judge-IsHit r h c q.configuration (record d { qualification_refs = refs }) m
                (get_cache_entry h.cache_faults.select h.project_id h.workspace_id d.key m.entries)
                refl (rw wanted at done) hit;
        }
      ]

  qualified-Reuses :
      (there : Bool) (d : CacheDecision) (m : Machine)
      → Rejected d
      → policy_of c.manifest.cache_policy ≡ "verified"
      → (quals : Option (List String × Bool)) {out : CacheDecision}
      → ((if not there
            then pure (record (because "qualification_unavailable" d) { eligible = false })
            else qualify_decision r h c q d quals)
          m).0
        ≡ ok out
      → out.status ≡ "hit"
      → Reuses out m
  qualified-Reuses true d m start policy quals {out} done hit =
      qualify-Reuses d m start policy quals done hit
  qualified-Reuses false d m start policy quals {out} done hit =
      absurd (ground (arith, done, hit, start, differs "rejected" "hit" refl))

  decide-Reuses :
      (cache : Cache) (d : CacheDecision) (key : String) (m : Machine)
      → Rejected d
      → d.policy ≡ policy_of c.manifest.cache_policy
      → {out : CacheDecision} → (decide_with_key r h c cache q d key m).0 ≡ ok out
      → out.status ≡ "hit"
      → Reuses out m
  unfolding decide_with_key
  decide-Reuses cache d key m start same {out} done hit =
      let d' = record d { key = key; eligible = true } in
      elim (Bool-cases (d.policy == "verified")) [
        | inr other ↦ absurd (
            ground (
              arith,
              rw other at done,
              hit,
              differs "bypassed" "hit" refl,
              differs "miss" "hit" refl,
            ))
        | inl verified ↦
            let quals = r.qualify c.manifest.id q.configuration cache.qualification_checks in
            qualified-Reuses r.has_qualifications d' m start
              (sym same ∙ (eq_iff d.policy "verified").0 verified) quals (rw verified at done) hit
      ]

  keyed-Reuses :
      (cache : Cache) (d : CacheDecision) (key : Option String) (m : Machine)
      → Rejected d
      → d.policy ≡ policy_of c.manifest.cache_policy
      → {out : CacheDecision} → (keyed r h c cache q d key m).0 ≡ ok out
      → out.status ≡ "hit"
      → Reuses out m
  unfolding keyed
  keyed-Reuses cache d none m start same {out} done hit =
      absurd (ground (arith, done, hit, start, differs "rejected" "hit" refl))
  keyed-Reuses cache d (some key) m start same {out} done hit =
      decide-Reuses cache d key m start same done hit

  -- The pair that goes on with the decision of a step.
  pair-Reuses :
      (a : Act CacheDecision) (ids : List (String × String)) (m : Machine)
      → ((out : CacheDecision) → (a m).0 ≡ ok out → out.status ≡ "hit" → Reuses out m)
      → {out : CacheDecision} {ids' : List (String × String)}
      → ((a >>= pair_with ids) m).0 ≡ ok (out, ids')
      → out.status ≡ "hit"
      → Reuses out m
  pair-Reuses a ids m go {out} {ids'} done hit =
      let (x, got, s) = bind-ok a (pair_with ids) m done in
      let same : x ≡ out = ground (arith, rest-ok s done) in go out (got ∙ ap ok same) hit

  isolated-Reuses :
      (test : Bool) (a : Act CacheDecision) (d : CacheDecision) (ids : List (String × String))
      (m : Machine)
      → Rejected d
      → ((out : CacheDecision) → (a m).0 ≡ ok out → out.status ≡ "hit" → Reuses out m)
      → {out : CacheDecision} {ids' : List (String × String)}
      → ((if test then pair_with ids (because "isolated_root_unproven" d) else a >>= pair_with ids)
          m).0
        ≡ ok (out, ids')
      → out.status ≡ "hit"
      → Reuses out m
  isolated-Reuses true a d ids m start go {out} {ids'} done hit =
      absurd (ground (arith, done, hit, start, differs "rejected" "hit" refl))
  isolated-Reuses false a d ids m start go {out} {ids'} done hit = pair-Reuses a ids m go done hit

  identified-Reuses :
      (cache : Cache) (d : CacheDecision) (found : Bool × List (String × String)) (m : Machine)
      → Rejected d
      → d.policy ≡ policy_of c.manifest.cache_policy
      → {out : CacheDecision} {ids' : List (String × String)}
      → (identified r h c cache q d found m).0 ≡ ok (out, ids')
      → out.status ≡ "hit"
      → Reuses out m
  unfolding identified
  identified-Reuses cache d (false, ids) m start same {out} {ids'} done hit =
      absurd (ground (arith, done, hit, start, differs "rejected" "hit" refl))
  identified-Reuses cache d (true, ids) m start same {out} {ids'} done hit =
      let key = make_cache_key r h c (some cache) q.configuration q.argv q.inputs ids in
      isolated-Reuses
        (cache.restore_policy == "replace_isolated_root" && not (r.isolated c.manifest))
        (keyed r h c cache q d key) d ids m start
        (λ out' got s. keyed-Reuses cache d key m start same got s) done hit

  -- An early return that rejects.
  early-Reuses :
      (test : Bool) (d : CacheDecision) (ids : List (String × String))
      (a : Act (CacheDecision × List (String × String))) (m : Machine)
      → (d.status == "hit") ≡ false
      → {out : CacheDecision} {ids' : List (String × String)}
      → ((if test then pair_with ids d else a) m).0 ≡ ok (out, ids')
      → out.status ≡ "hit"
      → (test ≡ false) × ((a m).0 ≡ ok (out, ids'))
  early-Reuses true d ids a m other {out} {ids'} done hit =
      absurd (ground (arith, done, hit, other, differs d.status "hit" other))
  early-Reuses false d ids a m other {out} {ids'} done hit = (refl, done)

  declared-Reuses :
      (cache : Option Cache) (d : CacheDecision) (m : Machine)
      → Rejected d
      → d.policy ≡ policy_of c.manifest.cache_policy
      → {out : CacheDecision} {ids : List (String × String)}
      → (prepare_declared r h c cache q d m).0 ≡ ok (out, ids)
      → out.status ≡ "hit"
      → Reuses out m
  unfolding prepare_declared
  declared-Reuses none d m start same {out} {ids} done hit =
      absurd (ground (arith, done, hit, start, differs "rejected" "hit" refl))
  declared-Reuses (some cache) d m start same {out} {ids} done hit =
      let identity = identity_of (by_id executable_id q.checks) in
      let found = key_identities q.checks cache.key_checks ((executable_id, identity) ∷ []) in
      let (_, goes) =
        early-Reuses (identity == "") (because "executable_identity_unavailable" d) []
          (identified r h c cache q d found) m (ap (λ x. x == "hit") start) done hit in
      identified-Reuses cache d found m start same goes hit

  -- A run is prepared as a hit only where the policy of the declaration asks for verified reuse and the
  -- request does not bypass it; then the table has an entry for the key of the decision, which is
  -- active, has not expired at the first reading of the clock, was made by this declaration in this
  -- configuration and under the qualifications of the decision, and all of whose outputs are still kept
  -- unchanged.
  pub prepare_cache-Reuses :
      (m : Machine) {out : CacheDecision} {ids : List (String × String)}
      → (prepare_cache r h c q m).0 ≡ ok (out, ids)
      → out.status ≡ "hit"
      → Reuses out m
  unfolding prepare_cache
  prepare_cache-Reuses m {out} {ids} done hit =
      let d = start_decision (policy_of c.manifest.cache_policy) q.cache_mode in
      let declared = prepare_declared r h c c.manifest.cache q d in
      let no_host = because "host_cache_disabled" d in
      let hosted : Act (CacheDecision × List (String × String)) =
        if not h.has_cache || r.key_bytes != 32 then pair_with [] no_host else declared in
      let not_approved = because "runtime_cache_not_approved" d in
      let (_, goes) =
        early-Reuses (d.policy == "disabled") (decide "disabled" "policy_disabled" d) []
          (if not r.approved then pair_with [] not_approved else hosted) m refl done hit in
      let (_, goes') = early-Reuses (not r.approved) not_approved [] hosted m refl goes hit in
      let (_, goes'') =
        early-Reuses (not h.has_cache || r.key_bytes != 32) no_host [] declared m refl goes' hit in
      declared-Reuses c.manifest.cache d m refl refl goes'' hit
