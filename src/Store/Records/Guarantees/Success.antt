-- ===== src/Store/Records/Guarantees/Success.antt =====
-- When an update of internal/store/sqlite/records.go succeeds.
use repo_plane.Base.{
  ℕ, ◌+◌, String, ◌≡◌, refl, false, ◌||◌, [], arith, ok, find, any, some, any_of_count, eq_iff,
  ◌!=◌, String_eq, ℕ_eq,
}
use repo_plane.Store.{Record, RecordUpdate}
use repo_plane.Store.Tx.{Tables, statement, transaction}
use repo_plane.Store.Records.Rows.{
  Json, has_id, is_at, is_row, violates_index, changes_topic, others, set_record,
}
use repo_plane.Store.Records.Write.{
  update, update_body, update_row, updated, bad_update, get_record, scan_record, insert_revision,
}
use repo_plane.Store.Records.History.{IsConsistent}
use repo_plane.Store.Records.Guarantees.{find-at}

-- The row of the next revision is not taken.
next_row-free :
    (t : Tables) (r : Record)
    → IsConsistent t
    → find (has_id r.id) t.records ≡ some r
    → any (is_row r.id (r.revision + 1)) t.revisions ≡ false
next_row-free t r c here =
    any_of_count (is_row r.id (r.revision + 1)) t.revisions
      (ground (arith, c.history r.id (r.revision + 1), here))

-- On a consistent database whose engine fails no statement, a well-formed update succeeds when it names
-- a record of its owner, of its kind and at the expected revision, and neither the topic trigger nor a
-- unique index refuses the new row; the answer is the current record with the fields of the update.
pub update_succeeds :
    (j : Json) (kind : String) (u : RecordUpdate) (now : ℕ) (t : Tables) {current : Record}
    → IsConsistent t
    → bad_update j u ≡ false
    → find (is_at u.project_id u.workspace_id u.id) t.records ≡ some current
    → current.kind ≡ kind
    → current.revision ≡ u.expected_revision
    → changes_topic j current (updated u now current) ≡ false
    → violates_index j (updated u now current) (others current.id t.records) ≡ false
    → (update j kind u now (record { tables = t; faults = [] })).0 ≡ ok (updated u now current)
unfolding update update_body update_row get_record scan_record insert_revision transaction statement
    set_record
update_succeeds j kind u now t {current} c good found of_kind at_revision topic index =
    let free = next_row-free t current c (find-at u.project_id u.workspace_id u.id t c found) in
    let guard : (current.kind != kind || current.revision != u.expected_revision) ≡ false =
      ground (arith, of_kind, at_revision, eq_iff current.kind kind) in
    rw (good, found, guard, topic, index, free) refl
