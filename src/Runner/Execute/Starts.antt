-- ===== src/Runner/Execute/Starts.antt =====
-- Which calls of Execute of internal/runner/execute.go call command.Start, also where the call fails
-- after that and the process is terminated. executeCacheHit of internal/runner/cache.go calls no
-- command.Start, so a reuse is taken to keep the trace of the processes.
use repo_plane.Base.{
  String, ◌≡◌, refl, Bool, true, false, not, ◌||◌, ◌⊎◌, Option, none, some, List, ◌∷◌, suc, arith,
  ◌==◌, ◌!=◌, String_eq, ℕ_eq, Result, ok, err, Result-cases, Bool-cases, inl, inr, ap, ◌∙◌, find,
  eq_iff, any,
}
use repo_plane.Contracts.{LimitError, Limits, normalize_limits}
use repo_plane.Catalog.{Capability}
use repo_plane.Store.{Record, not_found}
use repo_plane.Store.Records.Rows.{is_at}
use repo_plane.Store.Records.Write.{get_record}
use repo_plane.Runner.{RunPayload}
use repo_plane.Runner.Host.{Host, Start, unsupported, fails, starts}
use repo_plane.Runner.Machine.{
  RunError, Machine, Act, ◌>>=◌, ◌>>◌, pure, store, invalid, run_state, not_executable, platform,
  reject, from_option, stored,
}
use repo_plane.Runner.Plan.{check_plan}
use repo_plane.Runner.Frame.{Keeps, bind-Keeps, from_option-Keeps, reject-Keeps, update_run-Keeps}
use repo_plane.Runner.Receipt.{valid_run_id, load_run, update_run}
use repo_plane.Runner.Execute.{
  ExecuteRequest, ExecuteResponse, Waiting, running_payload, start_fails, start_runs, started,
  start_process, launch, execute_plan, execute, from_result, from_limits, time_limit,
}
use repo_plane.Runner.Execute.Started.{Loaded, load_run-Loaded, ProcessStarted, execute-Started}

abbrev pub Answer : Type 0
Answer = Result RunError (ExecuteResponse × Option Waiting) × Machine

-- A process has been started for the run: what had been checked before that, on the receipt that the
-- store had.
pub record Begun (h : Host) (id : String) (m : Machine) (q : Answer) : Type 0 where
  pub receipt : Record
  pub payload : RunPayload
  pub checked : Capability × String × String
  pub found : find (is_at h.project_id h.workspace_id id) m.db.tables.records ≡ some receipt
  pub decoded : h.decode receipt.payload ≡ some payload
  pub first : receipt.revision ≡ 1
  pub prepared : payload.state ≡ "prepared"
  pub ready : payload.ready ≡ true
  pub current : check_plan h payload ≡ ok checked
  pub no_reuse : (payload.cache.status == "hit") ≡ false
  pub started : q.1.processes ≡ id ∷ m.processes

-- It is left to a goroutine that waits for it, or the call fails and the run is not running.
pub data Answered (h : Host) (id : String) (m : Machine) (q : Answer) : Type 0 where
  waits :
      {response : ExecuteResponse} {w : Waiting} → q.0 ≡ ok (response, some w) → Answered h id m q
  gives_up : {e : RunError} → q.0 ≡ err e → q.1.running ≡ m.running → Answered h id m q

abbrev pub Starts : Host → String → Machine → Answer → Type 0
Starts h id m q = (q.1.processes ≡ m.processes) ⊎ (Begun h id m q × Answered h id m q)

-- A goal about a sequence whose first part starts nothing.
bind-Starts :
    (h : Host) (id : String) (m : Machine) {A : Type 0} (a : Act A)
    (f : A → Act (ExecuteResponse × Option Waiting)) (n : Machine)
    → (a n).1.processes ≡ m.processes
    → ((x : A) → (a n).0 ≡ ok x → Starts h id m (f x (a n).1))
    → Starts h id m ((a >>= f) n)
bind-Starts h id m a f n kept rest = elim (Result-cases (a n).0) [
  | inl (e, q) ↦ rw q (inl kept)
  | inr (x, q) ↦ rw q (rest x q)
]

check-Starts :
    (h : Host) (id : String) (m : Machine) (bad : Bool) (e : RunError)
    (k : Act (ExecuteResponse × Option Waiting)) (n : Machine)
    → n.processes ≡ m.processes
    → (bad ≡ false → Starts h id m (k n))
    → Starts h id m ((reject bad e >> k) n)
check-Starts h id m true e k n kept rest = inl kept
check-Starts h id m false e k n kept rest = rest refl

result-Starts :
    (h : Host) (id : String) (m : Machine) {A : Type 0} (x : Result RunError A)
    (f : A → Act (ExecuteResponse × Option Waiting)) (n : Machine)
    → n.processes ≡ m.processes
    → ((a : A) → x ≡ ok a → Starts h id m (f a n))
    → Starts h id m ((from_result x >>= f) n)
result-Starts h id m (ok a) f n kept rest = rest a refl
result-Starts h id m (err e) f n kept rest = inl kept

limits-Starts :
    (h : Host) (id : String) (m : Machine) (x : Result LimitError Limits)
    (f : Limits → Act (ExecuteResponse × Option Waiting)) (n : Machine)
    → n.processes ≡ m.processes
    → ((l : Limits) → Starts h id m (f l n))
    → Starts h id m ((from_limits x >>= f) n)
limits-Starts h id m (ok l) f n kept rest = rest l
limits-Starts h id m (err e) f n kept rest = inl kept

load_run-Keeps : (h : Host) (id : String) → Keeps (λ m. m.processes) (load_run h id)
unfolding load_run
load_run-Keeps h id =
    let part : Machine → List String = λ m. m.processes in
    bind-Keeps part (stored (get_record h.project_id h.workspace_id id)) _ (λ m. refl)
      (λ found.
        bind-Keeps part
          (reject (found.kind != "run" || found.writer_class != "server") (store not_found)) _
          (reject-Keeps part _ _)
          (λ u.
            bind-Keeps part (from_option platform (h.decode found.payload)) _
              (from_option-Keeps part _ _) (λ payload m. refl)))

-- After the start: the receipt is written, or the process is terminated.
module _ (h : Host) (id : String) (r : Record) (payload : RunPayload) (m : Machine) where
  start_runs-Answered :
      ((start_runs h id r payload m).1.processes ≡ m.processes)
      × Answered h id m (start_runs h id r payload m)
  unfolding start_runs
  start_runs-Answered =
      let before = record m { readings = suc m.readings } in
      let write = update_run h r (running_payload payload (h.clock m.readings)) "current" in
      let kept : (write before).1.processes ≡ m.processes =
        update_run-Keeps (λ m. m.processes) h r _ "current" (λ m db n. refl) before in
      let run : (write before).1.running ≡ m.running =
        update_run-Keeps (λ m. m.running) h r _ "current" (λ m db n. refl) before in
      elim (Result-cases (write before).0) [
        | inl (e, q) ↦ rw q (kept, gives_up refl run)
        | inr (new, q) ↦ rw q (elim (Bool-cases (any (λ x. x == id) (write before).1.running)) [
          | inl exists ↦ rw exists (kept, gives_up refl run)
          | inr free ↦ rw free (kept, waits refl)
        ])
      ]

module _ (h : Host) (id : String) (r : Record) (payload : RunPayload) (m m' : Machine)
    (loaded : Loaded h id m r payload m') (kept : m'.processes ≡ m.processes)
    (checked : Capability × String × String) (first : r.revision ≡ 1)
    (prepared : payload.state ≡ "prepared") (ready : payload.ready ≡ true)
    (current : check_plan h payload ≡ ok checked) where
  start_fails-Keeps : Keeps (λ m. m.processes) (start_fails h id r payload)
  unfolding start_fails
  start_fails-Keeps n = update_run-Keeps (λ m. m.processes) h r _ "current" (λ m db n. refl) _

  started-Starts :
      (payload.cache.status == "hit") ≡ false
      → (how : Start) → Starts h id m (started h how id r payload m')
  unfolding started
  started-Starts no_reuse unsupported = inl kept
  started-Starts no_reuse fails = inl (start_fails-Keeps m' ∙ kept)
  started-Starts no_reuse starts =
      let n = record m' { processes = id ∷ m'.processes } in
      let (same, answer) = start_runs-Answered h id r payload n in
      inr (
        record {
          receipt = r;
          payload = payload;
          checked = checked;
          found = loaded.found;
          decoded = loaded.decoded;
          first = first;
          prepared = prepared;
          ready = ready;
          current = current;
          no_reuse = no_reuse;
          started = same ∙ ap (λ xs. id ∷ xs) kept;
        },
        elim answer [
          | waits done ↦ waits done
          | gives_up failed run ↦ gives_up failed (run ∙ loaded.running)
        ],
      )

  process-Starts :
      (executable cwd : String)
      → (payload.cache.status == "hit") ≡ false
      → Starts h id m (start_process h id executable cwd r payload m')
  unfolding start_process
  process-Starts executable cwd no_reuse =
      check-Starts h id m (not (h.creates_logs id)) platform
        (started h (h.start executable payload.argv cwd) id r payload) m' kept
        (λ logs. started-Starts no_reuse (h.start executable payload.argv cwd))

module _ (h : Host) (hit : Record → RunPayload → Capability → Act ExecuteResponse)
    (quiet : (r : Record) (p : RunPayload) (c : Capability) → Keeps (λ m. m.processes) (hit r p c))
    (id : String) (m : Machine) where
  launch-Starts :
      (reuse : Bool) (r : Record) (payload : RunPayload) (m' : Machine)
      → Loaded h id m r payload m'
      → m'.processes ≡ m.processes
      → (checked : Capability × String × String) → r.revision ≡ 1
      → payload.state ≡ "prepared"
      → payload.ready ≡ true
      → check_plan h payload ≡ ok checked
      → (payload.cache.status == "hit") ≡ reuse
      → Starts h id m (launch h hit reuse id r payload checked m')
  unfolding launch
  launch-Starts true r payload m' loaded kept checked first prepared ready current is_hit =
      bind-Starts h id m (hit r payload checked.0) (λ response. pure (response, none)) m'
        (quiet r payload checked.0 m' ∙ kept)
        (λ response done. inl (quiet r payload checked.0 m' ∙ kept))
  launch-Starts false r payload m' loaded kept checked first prepared ready current is_hit =
      process-Starts h id r payload m m' loaded kept checked first prepared ready current checked.1
        checked.2 is_hit

  plan-Starts :
      (r : Record) (payload : RunPayload) (m' : Machine)
      → Loaded h id m r payload m'
      → m'.processes ≡ m.processes
      → Starts h id m (execute_plan h hit id r payload m')
  unfolding execute_plan
  plan-Starts r payload m' loaded kept =
      check-Starts h id m (r.revision != 1 || payload.state != "prepared") run_state _ m' kept
        (λ state. check-Starts h id m (not payload.ready) not_executable _ m' kept (λ ready.
          result-Starts h id m (check_plan h payload) _ m' kept (λ checked current.
            launch-Starts (payload.cache.status == "hit") r payload m' loaded kept checked
              (ground (arith, state)) (ground (arith, state, eq_iff payload.state "prepared"))
              (ground (arith, ready)) current refl)))

-- What a call of Execute has done: it has started no process; or it has started one, which runs on with a
-- written receipt; or it has started one and fails, and leaves no run that was not running.
pub data Outcome (h : Host) (id : String) (m : Machine) (q : Answer) : Type 0 where
  nothing_started : q.1.processes ≡ m.processes → Outcome h id m q
  runs_on :
      {response : ExecuteResponse} {w : Waiting}
      → Begun h id m q
      → q.0 ≡ ok (response, some w)
      → ProcessStarted h id m w q.1
      → Outcome h id m q
  terminated :
      {e : RunError} → Begun h id m q → q.0 ≡ err e → q.1.running ≡ m.running → Outcome h id m q

module _ (h : Host) (hit : Record → RunPayload → Capability → Act ExecuteResponse)
    (quiet : (r : Record) (p : RunPayload) (c : Capability) → Keeps (λ m. m.processes) (hit r p c))
    (request : ExecuteRequest) (m : Machine) where
  pub execute-Begins : Starts h request.plan_id m (execute h hit request m)
  unfolding execute
  execute-Begins =
      let id = request.plan_id in
      check-Starts h id m (not (valid_run_id id)) invalid _ m refl (λ valid.
        limits-Starts h id m (normalize_limits (time_limit request.time_limit_ms)) _ m refl (λ l.
          bind-Starts h id m (load_run h id) _ m (load_run-Keeps h id m) (λ loaded got.
            plan-Starts h hit quiet id m loaded.0 loaded.1 (load_run h id m).1
              (load_run-Loaded h id m got) (load_run-Keeps h id m))))

-- Whatever a call of Execute answers, it has started no process, or it has started one process of that
-- plan alone, after it had found the receipt as a prepared and ready run at its first revision that is no
-- hit, and had checked the plan again; then either the receipt is written as running in one update that
-- expects that revision and the run, which was not running, is, or the call fails and leaves the
-- running runs as they were. A reuse is taken to start no process.
pub execute-Starts :
    (h : Host) (hit : Record → RunPayload → Capability → Act ExecuteResponse)
    → ((r : Record) (p : RunPayload) (c : Capability) → Keeps (λ m. m.processes) (hit r p c))
    → (request : ExecuteRequest) (m : Machine)
    → Outcome h request.plan_id m (execute h hit request m)
execute-Starts h hit quiet request m = elim (execute-Begins h hit quiet request m) [
  | inl kept ↦ nothing_started kept
  | inr (begun, answer) ↦ elim answer [
    | waits done ↦ runs_on begun done (execute-Started h hit request m done)
    | gives_up failed run ↦ terminated begun failed run
  ]
]
