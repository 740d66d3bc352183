-- ===== src/Runner/Execute/Once.antt =====
-- A plan that runs is not started again (internal/runner/execute.go over the durable records of
-- internal/store/sqlite/records.go).
use repo_plane.Base.{
  inl, inr, ℕ, String, ◌≡◌, List, some, sym, subst, ap, ◌∙◌, ok, find, find_holds, arith, eq_iff,
}
use repo_plane.Catalog.{Capability}
use repo_plane.Store.{Record}
use repo_plane.Store.Tx.{Tables}
use repo_plane.Store.Records.Rows.{is_at}
use repo_plane.Store.Records.History.{IsConsistent}
use repo_plane.Store.Records.Run.{Call, run_all}
use repo_plane.Store.Records.Guarantees.Conflict.{updated_since}
use repo_plane.Runner.{RunPayload}
use repo_plane.Runner.Host.{Host}
use repo_plane.Runner.Machine.{Machine, Act}
use repo_plane.Runner.Frame.{Keeps}
use repo_plane.Runner.Receipt.{run_update}
use repo_plane.Runner.Execute.{ExecuteRequest, ExecuteResponse, Waiting, execute}
use repo_plane.Runner.Execute.Started.{execute-Started}
use repo_plane.Runner.Execute.Starts.{execute-Begins}

found_id :
    (p w id : String) (t : Tables) {r : Record} → find (is_at p w id) t.records ≡ some r → r.id ≡ id
found_id p w id t {r} h = ground (arith, find_holds (is_at p w id) t.records h, eq_iff r.id id)

-- Once a call of Execute on a consistent store has answered that the process of a plan runs, no call of
-- Execute of that plan that begins afterwards starts a process, whatever it answers, whatever the
-- writers of the durable records did in between and whatever is running by then. A reuse is taken to
-- start no process.
pub execute_once :
    (h : Host) (hit hit' : Record → RunPayload → Capability → Act ExecuteResponse)
    → ((r : Record) (p : RunPayload) (c : Capability) → Keeps (λ m. m.processes) (hit' r p c))
    → (request request' : ExecuteRequest) (m m' : Machine) {response : ExecuteResponse}
      {w : Waiting}
    → IsConsistent m.db.tables
    → (execute h hit request m).0 ≡ ok (response, some w)
    → (calls : List (ℕ × Call))
    → m'.db.tables ≡ (run_all h.json calls (execute h hit request m).1.db).tables
    → request'.plan_id ≡ request.plan_id
    → (execute h hit' request' m').1.processes ≡ m'.processes
execute_once h hit hit' quiet request request' m m' consistent done calls from same =
    let s = execute-Started h hit request m done in
    let u = s.receipt_written in
    let p = h.project_id in
    let w = h.workspace_id in
    elim (execute-Begins h hit' quiet request' m') [
      | inl kept ↦ kept
      | inr (begun, answer) ↦ absurd (
          omega (
            arith,
            updated_since h.json "run" (run_update h s.receipt u.text "current") u.at s.loaded.db
                (subst (λ t. IsConsistent t) (sym s.unchanged) consistent) u.updated calls
                m'.db.tables p w request'.plan_id
                (from ∙ ap (λ d. (run_all h.json calls d).tables) (s.kept ∙ u.result))
                (same ∙ sym (found_id p w request.plan_id m.db.tables s.found)) begun.found,
            s.first,
            begun.first,
          ))
    ]
