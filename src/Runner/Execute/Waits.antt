-- ===== src/Runner/Execute/Waits.antt =====
-- How waitForRun of internal/runner/execute.go ends a run.
use text.Mathlib.Text.{starts_with}
use repo_plane.Base.{
  ℕ, suc, String, ◌≡◌, refl, Bool, true, false, not, Option, none, some, List, [], ◌∷◌, arith, ◌==◌,
  String_eq, Result, ok, err, ap, ◌∙◌, any, filter, Bool-cases, inl, inr,
}
use repo_plane.Store.Cache.{CacheEntry, CacheOutput}
use repo_plane.Runner.{RunPayload}
use repo_plane.Runner.Capture.{snapshot}
use repo_plane.Runner.Host.{Host}
use repo_plane.Runner.Machine.{
  RunError, Machine, Act, ◌>>=◌, ◌>>◌, pure, attempt, ignored, remove_running,
}
use repo_plane.Runner.Receipt.{update_run}
use repo_plane.Runner.Artifacts.{
  Observation, incomplete, observe_each, observe_sized, observe_after, observe_artifacts,
  unchanged_output, publish_cache_observation, publish_outputs, publishes, published, cache_outputs,
}
use repo_plane.Runner.Execute.{
  Waiting, Ended, final_state, exit_code, termination_reason, ended_payload, observed_payload,
  wait_for_run,
}

-- The action succeeds, whatever the machine, with an answer of which P holds.
abbrev Yields : {A : Type 0} → (A → Type 0) → Act A → Type 0
Yields {A} P a = (m : Machine) → (x : A) × ((a m).0 ≡ ok x) × P x

bind-Yields :
    {A B : Type 0} (P : A → Type 0) (Q : B → Type 0) (a : Act A) (f : A → Act B)
    → Yields P a
    → ((x : A) → P x → Yields Q (f x))
    → Yields Q (a >>= f)
bind-Yields P Q a f y g m =
    let (x, got, holds) = y m in
    let (z, got', holds') = g x holds (a m).1 in (z, rw got got', holds')

abbrev Anything : {A : Type 0} → A → Type 0
Anything x = Unit {0}

attempt-Yields : {A : Type 0} (a : Act A) → Yields Anything (attempt a)
attempt-Yields a m = ((a m).0, refl, tt)

pure-Yields : {A : Type 0} (P : A → Type 0) (x : A) → P x → Yields P (pure x)
pure-Yields P x p m = (x, refl, p)

module _ (h : Host) (run : String) where
  sized-Yields :
      (payload : RunPayload) (path hash : String) (size : Option ℕ) (o : Observation)
      → Yields Anything (observe_sized h run payload path hash size o)
  unfolding observe_sized
  sized-Yields payload path hash none o m = (incomplete o, refl, tt)
  sized-Yields payload path hash (some size) o m = (_, refl, tt)

  each-Yields :
      (payload : RunPayload) (after : List (String × String)) (o : Observation)
      → Yields Anything (observe_each h run payload after o)
  unfolding observe_each
  each-Yields payload [] o m = (o, refl, tt)
  each-Yields payload ((path, hash) ∷ rest) o m =
      elim (Bool-cases (unchanged_output h payload path hash)) [
        | inl same ↦ rw same (each-Yields payload rest o m)
        | inr differs ↦ rw differs (
            bind-Yields Anything Anything
              (observe_sized h run payload path hash (h.output_size path) o)
              (observe_each h run payload rest)
              (sized-Yields payload path hash (h.output_size path) o)
              (λ x p. each-Yields payload rest x) m)
      ]

  after-Yields :
      (payload : RunPayload) (after : Option (List (String × String)))
      → Yields Anything (observe_after h run payload after)
  unfolding observe_after
  after-Yields payload none m = (([], [], true), refl, tt)
  after-Yields payload (some after) m =
      let start : Observation = record { refs = []; partial = false; captured = 0 } in
      bind-Yields Anything Anything (observe_each h run payload after start)
        (λ o. pure (o.refs, after, o.partial)) (each-Yields payload after start)
        (λ o p. pure-Yields Anything (o.refs, after, o.partial) tt) m

  -- The receipt with another cache decision.
  abbrev Decided : RunPayload → RunPayload → Type 0
  Decided payload out = out ≡ record payload { cache = out.cache }

  published-Decided :
      (payload : RunPayload) (r : Result RunError CacheEntry)
      → Decided payload (published h payload r)
  unfolding published
  published-Decided payload (err e) = refl
  published-Decided payload (ok entry) = elim (Bool-cases (entry.state == "quarantined")) [
    | inl held ↦ rw held refl
    | inr free ↦ rw free refl
  ]

  outputs-Yields :
      (payload : RunPayload) (r : Result RunError (List CacheOutput))
      → Yields (Decided payload) (publish_outputs h run payload r)
  unfolding publish_outputs
  outputs-Yields payload (err e) m = (_, refl, refl)
  outputs-Yields payload (ok []) m = (_, refl, refl)
  outputs-Yields payload (ok (o ∷ os)) m = (_, refl, published-Decided payload _)

  publish-Yields :
      (payload : RunPayload) → Yields (Decided payload) (publish_cache_observation h run payload)
  unfolding publish_cache_observation
  publish-Yields payload m = elim (Bool-cases (publishes h payload)) [
    | inr off ↦ rw off (payload, refl, refl)
    | inl on ↦ elim (Bool-cases (any (λ o. starts_with o.0 "pattern:") payload.outputs_after)) [
      | inl missing ↦ rw (on, missing) (_, refl, refl)
      | inr complete ↦
          rw (on, complete)
            (bind-Yields Anything (Decided payload)
              (attempt (cache_outputs h payload.artifact_refs)) (publish_outputs h run payload)
              (attempt-Yields (cache_outputs h payload.artifact_refs))
              (λ r p. outputs-Yields payload r) m)
    ]
  ]

-- The receipt as the process left it at the first reading of the clock of m, and the machine after that
-- reading.
abbrev pub left : Host → Waiting → Ended → Machine → RunPayload
left h w e m = ended_payload w.payload e (h.clock m.readings)

abbrev pub read_once : Machine → Machine
read_once m = record m { readings = suc m.readings }

-- What waitForRun does from m: `seen` are the outputs it observes, `payload` the receipt after the
-- observation is published, which it writes in the machine that the publication leaves.
pub record Ends (h : Host) (w : Waiting) (e : Ended) (m after : Machine) : Type 0 where
  pub seen : List String × List (String × String) × Bool
  pub payload : RunPayload
  pub observes : (observe_artifacts h w.id (left h w e m) (read_once m)).0 ≡ ok seen
  pub publishes :
      (publish_cache_observation h w.id
        (observed_payload (left h w e m) seen)
        (observe_artifacts h w.id (left h w e m) (read_once m)).1).0
      ≡ ok payload
  pub written :
      after.db
      ≡ (update_run h w.running_record payload "current"
          (publish_cache_observation h w.id
            (observed_payload (left h w e m) seen)
            (observe_artifacts h w.id (left h w e m) (read_once m)).1).1).1.db
  pub state : payload.state ≡ final_state e.termination e.wait_error
  pub code : payload.exit_code ≡ some (exit_code e.wait_error)
  pub reason : payload.termination_reason ≡ termination_reason e.termination
  pub stdout : (payload.stdout_bytes, payload.stdout_truncated) ≡ snapshot e.stdout
  pub stderr : (payload.stderr_bytes, payload.stderr_truncated) ≡ snapshot e.stderr
  pub gone : any (λ r. r == w.id) after.running ≡ false

any-filter_out :
    (id : String) (xs : List String) → any (λ r. r == id) (filter (λ r. not (r == id)) xs) ≡ false
any-filter_out id [] = refl
any-filter_out id (x ∷ xs) = ground (arith, any-filter_out id xs)

bind-goes :
    {A B : Type 0} (a : Act A) (f : A → Act B) (m : Machine) {x : A}
    → (a m).0 ≡ ok x
    → (a >>= f) m ≡ f x (a m).1
bind-goes a f m got = rw got refl

artifacts-Yields :
    (h : Host) (run : String) (payload : RunPayload)
    → Yields Anything (observe_artifacts h run payload)
unfolding observe_artifacts
artifacts-Yields h run payload =
    after-Yields h run payload (h.snapshot_patterns payload.output_paths)

-- The parts of waitForRun after the outputs are observed, and after the observation is published.
abbrev write_run : Host → Waiting → RunPayload → Act Unit
write_run h w payload = do
  ignored (update_run h w.running_record payload "current")
  remove_running w.id

abbrev finish_run :
    Host → Waiting → Ended → RunPayload → List String × List (String × String) × Bool → Act Unit
finish_run h w e ended seen =
    publish_cache_observation h w.id (observed_payload ended seen) >>= write_run h w

-- However the process ended and whatever fails while its outputs are observed, recorded and published,
-- waitForRun comes to its end: its last write of the durable records is one update of the receipt that
-- the publication gave, run in the state that the publication left, with the state, exit code and reason
-- of that ending and the byte counts of the captures, and the run is no longer running.
pub wait_for_run-Ends :
    (h : Host) (w : Waiting) (e : Ended) (m : Machine)
    → ((wait_for_run h w e m).0 ≡ ok tt) × Ends h w e m (wait_for_run h w e m).1
unfolding wait_for_run final_state ended_payload
wait_for_run-Ends h w e m =
    let m1 = read_once m in
    let ended = left h w e m in
    let (seen, got, _) = artifacts-Yields h w.id ended m1 in
    let m2 = (observe_artifacts h w.id ended m1).1 in
    let (out, got', same) = publish-Yields h w.id (observed_payload ended seen) m2 in
    let end =
      bind-goes (observe_artifacts h w.id ended) (finish_run h w e ended) m1 got
      ∙ bind-goes (publish_cache_observation h w.id (observed_payload ended seen)) (write_run h w)
          m2 got' in
    (
      ap (λ q. q.0) end,
      record {
        seen = seen;
        payload = out;
        observes = got;
        publishes = got';
        written = ap (λ q. q.1.db) end;
        state = ap (λ x. x.state) same;
        code = ap (λ x. x.exit_code) same;
        reason = ap (λ x. x.termination_reason) same;
        stdout = ap (λ x. (x.stdout_bytes, x.stdout_truncated)) same;
        stderr = ap (λ x. (x.stderr_bytes, x.stderr_truncated)) same;
        gone = ap (λ q. any (λ r. r == w.id) q.1.running) end ∙ any-filter_out w.id _;
      },
    )
