-- ===== src/RecordService/Mutate/Retired.antt =====
-- What a retirement by internal/records/service.go leaves of a record.
use repo_plane.Base.{
  ℕ, ◌+◌, String, ◌≡◌, refl, sym, ◌∙◌, ap, Bool, true, false, ◌||◌, Option, some, arith, ◌==◌, ◌!=◌,
  String_eq, ℕ_eq, find, Result, ok, err, Result-cases, inl, inr,
}
use repo_plane.Store.{Record, RecordUpdate, StoreError}
use repo_plane.Store.Tx.{Db, Tx, Tables}
use repo_plane.Store.Records.Rows.{is_at, row_of, add_revision, set_record}
use repo_plane.Store.Records.Write.{get_record, updated, update_checkpoint, update_memo}
use repo_plane.Store.Records.Effects.{update-Updated, get_record-ok}
use repo_plane.RecordService.Mutate.{
  ServiceError, conflict, Act, ◌>>=◌, ◌>>◌, reject, stored, service_result, Owner, Mutation,
  update_of, update_one, mutate_update, mutate,
}

service_result-ok :
    {A : Type 0} (r : Result StoreError A) {a : A} → service_result r ≡ ok a → r ≡ ok a
service_result-ok (ok x) h = ap ok (ground (arith, h))
service_result-ok (err e) h = absurd (ground (arith, h))

stored-ok :
    {A B : Type 0} (tx : Tx A) (f : A → Act B) (db : Db) {b : B}
    → ((stored tx >>= f) db).0 ≡ ok b
    → (x : A) × ((tx db).0 ≡ ok x) × ((stored tx >>= f) db ≡ f x (tx db).1)
stored-ok tx f db h = elim (Result-cases (tx db).0) [
  | inl (e, q) ↦ absurd (ground (arith, rw q at h))
  | inr (x, q) ↦ (x, q, rw q refl)
]

reject-ok :
    {B : Type 0} (bad : Bool) (e : ServiceError) (k : Act B) (db : Db) {b : B}
    → ((reject bad e >> k) db).0 ≡ ok b
    → (bad ≡ false) × ((reject bad e >> k) db ≡ k db)
reject-ok true e k db h = absurd (ground (arith, h))
reject-ok false e k db h = (refl, refl)

-- Both calls are the update of the kind.
update_one-Updated :
    (o : Owner) (checkpoint : Bool) (u : RecordUpdate) (at : ℕ) (db : Db) {new : Record}
    → (update_one o checkpoint u at db).0 ≡ ok new
    → (current : Record) × (find (is_at u.project_id u.workspace_id u.id) db.tables.records
        ≡ some current)
      × (new ≡ updated u at current)
      × ((update_one o checkpoint u at db).1.tables
          ≡ add_revision (row_of new) (set_record new db.tables))
unfolding update_checkpoint update_memo
update_one-Updated o true u at db h =
    let (current, d) = update-Updated o.json "checkpoint" u at db h in
    (current, d.found, d.result, d.written)
update_one-Updated o false u at db h =
    let (current, d) = update-Updated o.json "memo" u at db h in
    (current, d.found, d.result, d.written)

-- What an update leaves: `new` of `current`, and its row of the history.
record Left (o : Owner) (m : Mutation) (retires : Bool) (at : ℕ) (new : Record)
    (before after : Tables) : Type 0 where
  current : Record
  found : find (is_at o.project_id o.workspace_id m.id) before.records ≡ some current
  expected : current.revision ≡ m.expected
  result : new ≡ updated (update_of o m retires current) at current
  written : after ≡ add_revision (row_of new) (set_record new before)

mutate_update-Left :
    (o : Owner) (m : Mutation) (retires : Bool) (at : ℕ) (db : Db) {new : Record}
    → (mutate_update o m retires at db).0 ≡ ok new
    → Left o m retires at new db.tables (mutate_update o m retires at db).1.tables
unfolding mutate_update
mutate_update-Left o m retires at db {new} h =
    let (current, got, s1) = stored-ok (get_record o.project_id o.workspace_id m.id) _ db h in
    let (found, same) = get_record-ok o.project_id o.workspace_id m.id db got in
    let db1 = (get_record o.project_id o.workspace_id m.id db).1 in
    let u = update_of o m retires current in
    let tx = update_one o (m.kind == "checkpoint") u at in
    let (good, s2) =
      reject-ok (current.kind != m.kind || current.revision != m.expected) conflict (stored tx) db1
        (sym (ap (λ x. x.0) s1) ∙ h) in
    let done = service_result-ok (tx db1).0 (sym (ap (λ x. x.0) (s1 ∙ s2)) ∙ h) in
    let (again, found', result, written) =
      update_one-Updated o (m.kind == "checkpoint") u at db1 done in
    let equal : again ≡ current = ground (arith, found, found', same) in
    record {
      current = current;
      found = found;
      expected = ground (arith, good);
      result = result ∙ ap (updated u at) equal;
      written =
          ap (λ x. x.1.tables) (s1 ∙ s2)
          ∙ written
          ∙ ap (λ t. add_revision (row_of new) (set_record new t)) same;
    }

-- A retirement that succeeds found the record at the revision the client expects; whatever payload and
-- references the request carries, the record returned is that one with the next revision, the time and
-- the validity superseded, and the call writes that record and its row of the history and nothing else.
pub mutate-superseded :
    (o : Owner) (m : Mutation) (drawn : Option String) (now at : ℕ) (db : Db) {new : Record}
    → (mutate o m "supersede" drawn now at db).0 ≡ ok new
    → (current : Record) × (find (is_at o.project_id o.workspace_id m.id) db.tables.records
        ≡ some current)
      × (current.revision ≡ m.expected)
      × (new ≡ record current {
        revision = current.revision + 1;
        updated_at = at;
        validity = "superseded";
      })
      × ((mutate o m "supersede" drawn now at db).1.tables
          ≡ add_revision (row_of new) (set_record new db.tables))
unfolding mutate
mutate-superseded o m drawn now at db h =
    let left = mutate_update-Left o m true at db h in
    (left.current, left.found, left.expected, left.result, left.written)
