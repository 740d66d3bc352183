-- ===== src/Runner/Frame.antt =====
-- The parts of the runner's state (internal/runner) that an action leaves as they are.
use repo_plane.Base.{
  ℕ, ◌≡◌, refl, ◌∙◌, Bool, true, false, String, Option, none, some, Result-cases, inl, inr,
}
use repo_plane.Store.{Record}
use repo_plane.Store.Tx.{Db}
use repo_plane.Store.Records.Write.{update_observation}
use repo_plane.Runner.{RunPayload}
use repo_plane.Runner.Host.{Host}
use repo_plane.Runner.Machine.{
  RunError, Machine, Act, ◌>>=◌, reject, from_option, limit_exceeded, now, stored,
}
use repo_plane.Runner.Receipt.{update_run, run_update, encoded_run}

abbrev pub Keeps : {X A : Type 0} → (Machine → X) → Act A → Type 0
Keeps part a = (m : Machine) → part (a m).1 ≡ part m

-- A part that neither a write of the durable records nor a reading of the clock changes.
abbrev pub IsFramed : {X : Type 0} → (Machine → X) → Type 0
IsFramed part =
    (m : Machine) (db : Db) (readings : ℕ)
    → part (record m { db = db; readings = readings }) ≡ part m

module _ {X : Type 0} (part : Machine → X) where
  pub bind-Keeps :
      {A B : Type 0} (a : Act A) (f : A → Act B)
      → Keeps part a
      → ((x : A) → Keeps part (f x))
      → Keeps part (a >>= f)
  bind-Keeps a f ka kf m = elim (Result-cases (a m).0) [
    | inl (e, q) ↦ rw q (ka m)
    | inr (x, q) ↦ rw q (kf x (a m).1 ∙ ka m)
  ]

  pub reject-Keeps : (bad : Bool) (e : RunError) → Keeps part (reject bad e)
  reject-Keeps true e m = refl
  reject-Keeps false e m = refl

  pub from_option-Keeps : {A : Type 0} (e : RunError) (o : Option A) → Keeps part (from_option e o)
  from_option-Keeps e none m = refl
  from_option-Keeps e (some x) m = refl

  pub update_run-Keeps :
      (h : Host) (r : Record) (payload : RunPayload) (validity : String)
      → IsFramed part
      → Keeps part (update_run h r payload validity)
  unfolding update_run
  update_run-Keeps h r payload validity framed =
      bind-Keeps (from_option limit_exceeded (encoded_run h (h.encode payload)))
        (λ text. now h.clock >>= λ at.
          stored (update_observation h.json "run" (run_update h r text validity) at))
        (from_option-Keeps limit_exceeded (encoded_run h (h.encode payload)))
        (λ text m. framed m _ _)
