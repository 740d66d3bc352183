-- ===== src/Runner/Machine.antt =====
-- The state that the runner of internal/runner/service.go shares between calls (the durable records,
-- the table of reusable runs, the map of running processes), and what the platform answers to it.
use repo_plane.Base.{
  ℕ, suc, String, Bool, true, false, Option, none, some, List, ◌∷◌, ◌==◌, String_eq, filter, not,
  any, Result, ok, err, ◌≡◌, refl, sym, ap, ◌∙◌, arith, Result-cases, inl, inr,
}
use repo_plane.Store.{StoreError}
use repo_plane.Store.Tx.{Tx, Db}
use repo_plane.Store.Cache.{CacheEntry}
use repo_plane.Contracts.{LimitError}
use repo_plane.Runner.Stream.{StreamError}

-- `invalid` is an error of a request, `platform` one of the operating system or of a component called.
pub data RunError : Type 0 where
  invalid run_state not_executable plan_stale limit_exceeded start_failed platform : RunError
  limits : LimitError → RunError
  store : StoreError → RunError
  streams : StreamError → RunError

-- `readings` and `draws` count the calls of time.Now and of crypto/rand. `processes` names the run of each
-- process that command.Start has started, the last first; also of one that is terminated at once.
pub record Machine : Type 0 where
  pub db : Db
  pub entries : List CacheEntry
  pub running : List String
  pub processes : List String
  pub readings : ℕ
  pub draws : ℕ

abbrev pub Act : Type 0 → Type 0
Act A = Machine → Result RunError A × Machine

abbrev continue : {A B : Type 0} → Result RunError A → (A → Act B) → Act B
continue (ok a) f m = f a m
continue (err e) f m = (err e, m)

infixl 5 ◌>>=◌ ◌>>◌
abbrev pub ◌>>=◌ : {A B : Type 0} → Act A → (A → Act B) → Act B
◌>>=◌ a f m = let (r, m') = a m in continue r f m'

abbrev pub ◌>>◌ : {B : Type 0} → Act Unit → Act B → Act B
a >> b = a >>= λ _. b

abbrev pub pure : {A : Type 0} → A → Act A
pure a m = (ok a, m)

abbrev pub raise : {A : Type 0} → RunError → Act A
raise e m = (err e, m)

abbrev pub reject : Bool → RunError → Act Unit
reject true e m = (err e, m)
reject false e m = (ok tt, m)

abbrev pub from_option : {A : Type 0} → RunError → Option A → Act A
from_option e none m = (err e, m)
from_option e (some a) m = (ok a, m)

abbrev pub store_result : {A : Type 0} → Result StoreError A → Result RunError A
store_result (ok a) = ok a
store_result (err e) = err (store e)

-- A call of the durable records.
abbrev pub stored : {A : Type 0} → Tx A → Act A
stored tx m = let (r, db) = tx m.db in (store_result r, record m { db = db })

-- A call whose error is dropped: `_, _ = f()`.
abbrev pub ignored : {A : Type 0} → Act A → Act Unit
ignored a m = let (r, m') = a m in (ok tt, m')

abbrev pub attempt : {A : Type 0} → Act A → Act (Result RunError A)
attempt a m = let (r, m') = a m in (ok r, m')

abbrev pub now : (ℕ → ℕ) → Act ℕ
now clock m = (ok (clock m.readings), record m { readings = suc m.readings })

abbrev pub is_running : String → Act Bool
is_running id m = (ok (any (λ r. r == id) m.running), m)

abbrev pub add_running : String → Act Unit
add_running id m = (ok tt, record m { running = id ∷ m.running })

abbrev pub remove_running : String → Act Unit
remove_running id m = (ok tt, record m { running = filter (λ r. not (r == id)) m.running })

abbrev pub mark_process : String → Act Unit
mark_process id m = (ok tt, record m { processes = id ∷ m.processes })

-- A call of the table of reusable runs.
abbrev pub cached : {A : Type 0} → (List CacheEntry → Result StoreError A × List CacheEntry) → Act A
cached f m = let (r, rows) = f m.entries in (store_result r, record m { entries = rows })

-- A sequence that succeeds: its first part succeeds, and the rest goes on from there.
pub bind-ok :
    {A B : Type 0} (a : Act A) (f : A → Act B) (m : Machine) {b : B}
    → ((a >>= f) m).0 ≡ ok b
    → (x : A) × ((a m).0 ≡ ok x) × ((a >>= f) m ≡ f x (a m).1)
bind-ok a f m h = elim (Result-cases (a m).0) [
  | inl (e, q) ↦ absurd (ground (arith, rw q at h))
  | inr (x, q) ↦ (x, q, rw q refl)
]

pub reject-ok :
    {B : Type 0} (bad : Bool) (e : RunError) (k : Act B) (m : Machine) {b : B}
    → ((reject bad e >> k) m).0 ≡ ok b
    → (bad ≡ false) × ((reject bad e >> k) m ≡ k m)
reject-ok true e k m h = absurd (ground (arith, h))
reject-ok false e k m h = (refl, refl)

pub from_option-ok :
    {A B : Type 0} (e : RunError) (o : Option A) (f : A → Act B) (m : Machine) {b : B}
    → ((from_option e o >>= f) m).0 ≡ ok b
    → (x : A) × (o ≡ some x) × ((from_option e o >>= f) m ≡ f x m)
from_option-ok e none f m h = absurd (ground (arith, h))
from_option-ok e (some x) f m h = (x, refl, refl)

pub stored-ok :
    {A B : Type 0} (tx : Tx A) (f : A → Act B) (m : Machine) {b : B}
    → ((stored tx >>= f) m).0 ≡ ok b
    → (x : A) × ((tx m.db).0 ≡ ok x) × ((stored tx >>= f) m ≡ f x (record m { db = (tx m.db).1 }))
stored-ok tx f m h = elim (Result-cases (tx m.db).0) [
  | inl (e, q) ↦ absurd (ground (arith, rw q at h))
  | inr (x, q) ↦ (x, q, rw q refl)
]

-- The rest of a sequence succeeds as the sequence does.
pub rest-ok :
    {B : Type 0} {p q : Result RunError B × Machine} {b : B} → p ≡ q → p.0 ≡ ok b → q.0 ≡ ok b
rest-ok e h = sym (ap (λ x. x.0) e) ∙ h
