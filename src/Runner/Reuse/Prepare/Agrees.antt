-- ===== src/Runner/Reuse/Prepare/Agrees.antt =====
-- What a hit of prepareCache (internal/runner/cache.go) has to do with the runs observed before it, over
-- the table of internal/store/sqlite/cache.go.
use repo_plane.Base.{
  String, ◌≡◌, refl, sym, subst, ◌∙◌, Bool, true, false, Option, some, List, find, arith, ◌==◌,
  String_eq, ok, Option-cases, inl, inr,
}
use repo_plane.Catalog.{Capability}
use repo_plane.Store.Cache.{
  CacheEntry, Faults, is_entry, get_cache_entry, sorted, same_cache_outputs, publish,
}
use repo_plane.Store.Cache.Laws.{Operation, run}
use repo_plane.Store.Cache.Agreement.{agrees, published-agrees}
use repo_plane.Runner.{CacheDecision}
use repo_plane.Runner.Host.{Host}
use repo_plane.Runner.Machine.{Machine}
use repo_plane.Runner.Reuse.{Reuser, Request}
use repo_plane.Runner.Reuse.Prepare.{prepare_cache}
use repo_plane.Runner.Reuse.Prepare.Hits.{Reuses, prepare_cache-Reuses}

get_cache_entry-find :
    (fault : Bool) (p w key : String) (rows : List CacheEntry) {e : CacheEntry}
    → get_cache_entry fault p w key rows ≡ ok e
    → find (is_entry p w key) rows ≡ some e
unfolding get_cache_entry
get_cache_entry-find fault p w key rows {e} h = elim (Option-cases (find (is_entry p w key) rows)) [
  | inl missing ↦ absurd (ground (arith, rw missing at h))
  | inr (x, found) ↦ ground (arith, h, found)
]

agrees-active :
    (x e : CacheEntry)
    → agrees x e ≡ true
    → x.state ≡ "active"
    → same_cache_outputs x.outputs e.outputs ≡ true
agrees-active x e h active =
    let other : (x.state == "quarantined") ≡ false = rw active refl in rw other at h

-- A run is prepared as a hit only where the policy of the declaration asks for verified reuse and the
-- request does not bypass it; then the table has an entry for the key of the decision, which is
-- active, has not expired at the first reading of the clock, was made by this declaration in this
-- configuration and under the qualifications of the decision, and all of whose outputs are still kept
-- unchanged; and its outputs are those of any observation of that key published before, whatever else
-- was published, marked and quarantined since and whichever statements failed.
pub prepare_cache-Agrees :
    (r : Reuser) (h : Host) (c : Capability) (q : Request) (faults : Faults) (given : CacheEntry)
    (rows : List CacheEntry) {new : CacheEntry}
    → (publish faults given rows).0 ≡ ok new
    → (os : List Operation) (m : Machine) {out : CacheDecision} {ids : List (String × String)}
    → m.entries ≡ run os (publish faults given rows).1
    → (prepare_cache r h c q m).0 ≡ ok (out, ids)
    → out.status ≡ "hit"
    → given.project_id ≡ h.project_id
    → given.workspace_id ≡ h.workspace_id
    → given.key ≡ out.key
    → (reuse : Reuses r h c q out m) × (same_cache_outputs reuse.hit.entry.outputs
          (sorted given).outputs
        ≡ true)
prepare_cache-Agrees r h c q faults given rows {new} published os m {out} {ids} since done hit
      project workspace key =
    let reuse = prepare_cache-Reuses r h c q m done hit in
    let (last, there, agree) = published-agrees faults given rows published os in
    let e = reuse.hit.entry in
    let found : find (is_entry h.project_id h.workspace_id out.key) m.entries ≡ some e =
      get_cache_entry-find h.cache_faults.select h.project_id h.workspace_id out.key m.entries
        reuse.hit.found in
    let there' : find (is_entry h.project_id h.workspace_id out.key) m.entries ≡ some last =
      rw (since, sym project, sym workspace, sym key) there in
    let same : Path (Option CacheEntry) (some last) (some e) = sym there' ∙ found in
    let is : last ≡ e = ground (arith, same) in
    (
      reuse,
      agrees-active e (sorted given) (subst (λ x. agrees x (sorted given) ≡ true) is agree)
          reuse.hit.active,
    )
