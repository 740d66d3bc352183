-- ===== src/Runner/Execute/Started.antt =====
-- What Execute of internal/runner/execute.go has checked and written when it answers that a process runs.
use repo_plane.Base.{
  ℕ, String, ◌≡◌, refl, Bool, true, false, not, ◌||◌, Option, some, ◌∷◌, suc, arith, ◌==◌, ◌!=◌,
  String_eq, ℕ_eq, Result, ok, err, sym, subst, ap, ◌∙◌, find, eq_iff, any,
}
use repo_plane.Contracts.{LimitError, Limits, normalize_limits}
use repo_plane.Catalog.{Capability}
use repo_plane.Store.{StoreError, Record}
use repo_plane.Store.Records.Rows.{is_at}
use repo_plane.Store.Records.Write.{get_record, update, update_observation}
use repo_plane.Store.Records.Effects.{get_record-ok}
use repo_plane.Runner.{RunPayload}
use repo_plane.Runner.Host.{Host, Start, unsupported, fails, starts}
use repo_plane.Runner.Machine.{
  RunError, Machine, Act, ◌>>=◌, bind-ok, reject-ok, stored-ok, from_option-ok, rest-ok,
  store_result, platform, invalid, run_state, not_executable, limit_exceeded, start_failed,
}
use repo_plane.Runner.Plan.{check_plan}
use repo_plane.Runner.Receipt.{valid_run_id, load_run, update_run, run_update, encoded_run}
use repo_plane.Runner.Execute.{
  ExecuteRequest, ExecuteResponse, Waiting, running_payload, start_fails, start_runs, started,
  start_process, launch, execute_plan, execute, from_result, from_limits, time_limit,
}

store_result-ok : {A : Type 0} (r : Result StoreError A) {a : A} → store_result r ≡ ok a → r ≡ ok a
store_result-ok (ok x) h = ground (arith, h)
store_result-ok (err e) h = absurd (ground (arith, h))

-- A loaded receipt.
pub record Loaded (h : Host) (id : String) (m : Machine) (r : Record) (payload : RunPayload)
    (after : Machine) : Type 0 where
  pub found : find (is_at h.project_id h.workspace_id id) m.db.tables.records ≡ some r
  pub decoded : h.decode r.payload ≡ some payload
  pub unchanged : after.db.tables ≡ m.db.tables
  pub running : after.running ≡ m.running

pub load_run-Loaded :
    (h : Host) (id : String) (m : Machine) {r : Record} {payload : RunPayload}
    → (load_run h id m).0 ≡ ok (r, payload)
    → Loaded h id m r payload (load_run h id m).1
unfolding load_run
load_run-Loaded h id m {r} {payload} done =
    let (x, got, s1) = stored-ok (get_record h.project_id h.workspace_id id) _ m done in
    ground (arith, done, got, get_record-ok h.project_id h.workspace_id id m.db got)

-- A receipt written for a run.
pub record Written (h : Host) (r : Record) (payload : RunPayload) (validity : String) (new : Record)
    (m after : Machine) : Type 0 where
  pub text : String
  pub at : ℕ
  pub encoded : encoded_run h (h.encode payload) ≡ some text
  pub updated : (update h.json "run" (run_update h r text validity) at m.db).0 ≡ ok new
  pub result : after.db ≡ (update h.json "run" (run_update h r text validity) at m.db).1
  pub running : after.running ≡ m.running

update_run-Written :
    (h : Host) (r : Record) (payload : RunPayload) (validity : String) (m : Machine) {new : Record}
    → (update_run h r payload validity m).0 ≡ ok new
    → Written h r payload validity new m (update_run h r payload validity m).1
unfolding update_run update_observation
update_run-Written h r payload validity m {new} done =
    let (text, encoded, s1) =
      from_option-ok limit_exceeded (encoded_run h (h.encode payload)) _ m done in
    let at = h.clock m.readings in
    let tx = update h.json "run" (run_update h r text validity) at in
    record {
      text = text;
      at = at;
      encoded = encoded;
      updated = store_result-ok (tx m.db).0 (rest-ok s1 done);
      result = ap (λ q. q.1.db) s1;
      running = ap (λ q. q.1.running) s1;
    }

-- What Execute has checked and written when a process runs.
pub record ProcessStarted (h : Host) (id : String) (m : Machine) (w : Waiting) (after : Machine)
    : Type 0 where
  pub receipt : Record
  pub payload : RunPayload
  pub loaded : Machine
  pub written : Machine
  pub at : ℕ
  pub found : find (is_at h.project_id h.workspace_id id) m.db.tables.records ≡ some receipt
  pub decoded : h.decode receipt.payload ≡ some payload
  pub first : receipt.revision ≡ 1
  pub prepared : payload.state ≡ "prepared"
  pub ready : payload.ready ≡ true
  pub unchanged : loaded.db.tables ≡ m.db.tables
  pub waits : w.payload ≡ running_payload payload at
  pub named : w.id ≡ id
  pub receipt_written :
      Written h receipt (running_payload payload at) "current" w.running_record loaded written
  pub kept : after.db ≡ written.db
  pub free : any (λ r. r == id) m.running ≡ false
  pub running : after.running ≡ id ∷ m.running

waiting_of :
    {response response' : ExecuteResponse} {w w' : Waiting}
    → Path
        (Result RunError (ExecuteResponse × Option Waiting))
        (ok (response', some w'))
        (ok (response, some w))
    → w' ≡ w
waiting_of h = ground (arith, h)

module _ (h : Host) (id : String) (r : Record) (payload : RunPayload) (m : Machine) where
  start_runs-Written :
      {response : ExecuteResponse} {w : Waiting}
      → (start_runs h id r payload m).0 ≡ ok (response, some w)
      → (at : ℕ) × (mid : Machine) × (before : Machine) × (before.db ≡ m.db)
        × (Written h r (running_payload payload at) "current" w.running_record before mid)
        × ((start_runs h id r payload m).1.db ≡ mid.db)
        × (any (λ x. x == id) m.running ≡ false)
        × ((start_runs h id r payload m).1.running ≡ id ∷ m.running)
        × (w.id ≡ id)
        × (w.payload ≡ running_payload payload at)
  unfolding start_runs
  start_runs-Written {response} {w} done =
      let at = h.clock m.readings in
      let before = record m { readings = suc m.readings } in
      let (new, wrote, s1) =
        bind-ok (update_run h r (running_payload payload at) "current") _ before done in
      let written = update_run-Written h r (running_payload payload at) "current" before wrote in
      let mid = (update_run h r (running_payload payload at) "current" before).1 in
      let (free, s2) =
        reject-ok (any (λ x. x == id) mid.running) run_state _ mid (rest-ok s1 done) in
      let end = s1 ∙ s2 in
      let waiting : Waiting = record {
        id = id;
        running_record = new;
        payload = running_payload payload at;
      } in
      let same : waiting ≡ w = waiting_of (rest-ok end done) in
      (
        at,
        mid,
        before,
        refl,
        subst (λ x. Written h r (running_payload payload at) "current" x before mid)
            (ap (λ x. x.running_record) same) written,
        ap (λ q. q.1.db) end,
        ap (λ xs. any (λ x. x == id) xs) (sym written.running) ∙ free,
        ap (λ q. q.1.running) end ∙ ap (λ xs. id ∷ xs) written.running,
        ap (λ x. x.id) (sym same),
        ap (λ x. x.payload) (sym same),
      )

start_fails-err :
    (h : Host) (id : String) (r : Record) (payload : RunPayload) (m : Machine)
    → (start_fails h id r payload m).0 ≡ err start_failed
unfolding start_fails
start_fails-err h id r payload m = refl

module _ (h : Host) (id : String) (r : Record) (payload : RunPayload) (m m' : Machine)
    (loaded : Loaded h id m r payload m') (first : r.revision ≡ 1)
    (prepared : payload.state ≡ "prepared") (ready : payload.ready ≡ true) where
  started-Started :
      (how : Start) {response : ExecuteResponse} {w : Waiting}
      → (started h how id r payload m').0 ≡ ok (response, some w)
      → ProcessStarted h id m w (started h how id r payload m').1
  unfolding started
  started-Started unsupported done = absurd (ground (arith, done))
  started-Started fails done = absurd (ground (arith, done, start_fails-err h id r payload m'))
  started-Started starts {response} {w} done =
      let (at, mid, before, same, written, kept, free, running, named, waits) =
        start_runs-Written h id r payload (record m' { processes = id ∷ m'.processes }) done in
      record {
        receipt = r;
        payload = payload;
        loaded = before;
        written = mid;
        at = at;
        found = loaded.found;
        decoded = loaded.decoded;
        first = first;
        prepared = prepared;
        ready = ready;
        unchanged = ap (λ d. d.tables) same ∙ loaded.unchanged;
        waits = waits;
        named = named;
        receipt_written = written;
        kept = kept;
        free = ap (λ xs. any (λ x. x == id) xs) (sym loaded.running) ∙ free;
        running = running ∙ ap (λ xs. id ∷ xs) loaded.running;
      }

  process-Started :
      (executable cwd : String) {response : ExecuteResponse} {w : Waiting}
      → (start_process h id executable cwd r payload m').0 ≡ ok (response, some w)
      → ProcessStarted h id m w (start_process h id executable cwd r payload m').1
  unfolding start_process
  process-Started executable cwd {response} {w} done =
      let how = h.start executable payload.argv cwd in
      let (logs, s1) =
        reject-ok (not (h.creates_logs id)) platform (started h how id r payload) m' done in
      subst (λ q. ProcessStarted h id m w q.1) (sym s1) (started-Started how (rest-ok s1 done))

module _ (h : Host) (hit : Record → RunPayload → Capability → Act ExecuteResponse) (id : String)
    (r : Record) (payload : RunPayload) (m m' : Machine) (loaded : Loaded h id m r payload m') where
  from_result-ok :
      {A B : Type 0} (x : Result RunError A) (f : A → Act B) (n : Machine) {b : B}
      → ((from_result x >>= f) n).0 ≡ ok b
      → (a : A) × ((from_result x >>= f) n ≡ f a n)
  from_result-ok (ok a) f n done = (a, refl)
  from_result-ok (err e) f n done = absurd (ground (arith, done))

  launch-Started :
      (reuse : Bool) (checked : Capability × String × String)
      → r.revision ≡ 1
      → payload.state ≡ "prepared"
      → payload.ready ≡ true
      → {response : ExecuteResponse} {w : Waiting}
      → (launch h hit reuse id r payload checked m').0 ≡ ok (response, some w)
      → ProcessStarted h id m w (launch h hit reuse id r payload checked m').1
  unfolding launch
  launch-Started true checked first prepared ready done =
      let (x, got, s1) = bind-ok (hit r payload checked.0) _ m' done in
      absurd (ground (arith, rest-ok s1 done))
  launch-Started false checked first prepared ready done =
      process-Started h id r payload m m' loaded first prepared ready checked.1 checked.2 done

  plan-Started :
      {response : ExecuteResponse} {w : Waiting}
      → (execute_plan h hit id r payload m').0 ≡ ok (response, some w)
      → ProcessStarted h id m w (execute_plan h hit id r payload m').1
  unfolding execute_plan
  plan-Started {response} {w} done =
      let (state, s1) =
        reject-ok (r.revision != 1 || payload.state != "prepared") run_state _ m' done in
      let (ready, s2) = reject-ok (not payload.ready) not_executable _ m' (rest-ok s1 done) in
      let (checked, s3) = from_result-ok (check_plan h payload) _ m' (rest-ok (s1 ∙ s2) done) in
      let end = s1 ∙ s2 ∙ s3 in
      let first : r.revision ≡ 1 = ground (arith, state) in
      let prepared : payload.state ≡ "prepared" =
        ground (arith, state, eq_iff payload.state "prepared") in
      let is_ready : payload.ready ≡ true = ground (arith, ready) in
      subst (λ q. ProcessStarted h id m w q.1) (sym end)
        (launch-Started (payload.cache.status == "hit") checked first prepared is_ready
          (rest-ok end done))

from_limits-ok :
    {B : Type 0} (x : Result LimitError Limits) (f : Limits → Act B) (n : Machine) {b : B}
    → ((from_limits x >>= f) n).0 ≡ ok b
    → (l : Limits) × ((from_limits x >>= f) n ≡ f l n)
from_limits-ok (ok l) f n done = (l, refl)
from_limits-ok (err e) f n done = absurd (ground (arith, done))

-- When Execute answers that a process runs, the receipt was a prepared and ready run at its first
-- revision, it is written as running in one update that expects that revision, and its ID, which was not running, is.
pub execute-Started :
    (h : Host) (hit : Record → RunPayload → Capability → Act ExecuteResponse)
    (request : ExecuteRequest) (m : Machine) {response : ExecuteResponse} {w : Waiting}
    → (execute h hit request m).0 ≡ ok (response, some w)
    → ProcessStarted h request.plan_id m w (execute h hit request m).1
unfolding execute
execute-Started h hit request m {response} {w} done =
    let id = request.plan_id in
    let rest : Record × RunPayload → Act (ExecuteResponse × Option Waiting) =
      λ loaded. execute_plan h hit id loaded.0 loaded.1 in
    let (valid, s1) = reject-ok (not (valid_run_id id)) invalid _ m done in
    let (l, s2) =
      from_limits-ok (normalize_limits (time_limit request.time_limit_ms))
        (λ l. load_run h id >>= rest) m (rest-ok s1 done) in
    let (loaded, got, s3) = bind-ok (load_run h id) rest m (rest-ok (s1 ∙ s2) done) in
    let end = s1 ∙ s2 ∙ s3 in
    subst (λ q. ProcessStarted h id m w q.1) (sym end)
      (plan-Started h hit id loaded.0 loaded.1 m (load_run h id m).1 (load_run-Loaded h id m got)
        (rest-ok end done))
