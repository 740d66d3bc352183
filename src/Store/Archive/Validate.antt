-- ===== src/Store/Archive/Validate.antt =====
-- `validateRecordArchive` of internal/store/sqlite/records.go.
use repo_plane.Base.{
  ℕ, zero, suc, String, len, Bool, true, false, not, ◌&&◌, ◌||◌, Option, none, some, List, [], ◌∷◌,
  ltb, ◌==◌, ◌!=◌, String_eq, ℕ_eq, if◌then◌else◌, length, any, all, find, count, Result, ok, err,
  reject, ◌>>◌,
}
use repo_plane.Store.{StoreError, conflict, Record, RecordRevision, ReportReceipt, RecordArchive}
use repo_plane.Store.Records.Rows.{Json, max_payload, max_evidence, has_id, has_record_id, is_row}

module _ (j : Json) where
  unfoldable pub is_stored_record : Record → Bool
  is_stored_record r = not (
      r.id == ""
      || r.kind == ""
      || r.schema_version == ""
      || r.project_id == ""
      || r.workspace_id == ""
      || r.revision == 0
      || r.source == ""
      || r.writer_class == ""
      || r.validity == ""
      || r.created_at == 0
      || r.updated_at == 0
      || not (j.valid r.payload)
      || ltb max_payload (len r.payload)
      || ltb max_evidence (length r.evidence_refs))

  unfoldable pub is_stored_revision : RecordRevision → Bool
  is_stored_revision v = not (
      v.revision == 0
      || v.updated_at == 0
      || not (j.valid v.payload)
      || ltb max_payload (len v.payload)
      || ltb max_evidence (length v.evidence_refs)
      || v.validity == "")

  -- The owner is empty until the first record gives it; `seen` holds the records before this one.
  unfoldable pub validate_records :
      String → String → List Record → List Record → Result StoreError (Unit {0})
  validate_records p w seen [] = ok tt
  validate_records p w seen (r ∷ rs) =
      let rest =
        validate_records (if p == "" then r.project_id else p)
          (if p == "" then r.workspace_id else w) (r ∷ seen) rs in
      if not (is_stored_record r)
      then err conflict
      else if r.project_id != (if p == "" then r.project_id else p)
          || r.workspace_id != (if p == "" then r.workspace_id else w)
      then err conflict
      else if any (has_id r.id) seen
      then err conflict
      else rest

  unfoldable pub validate_revisions :
      List Record → List RecordRevision → List RecordRevision → Result StoreError (Unit {0})
  validate_revisions records seen [] = ok tt
  validate_revisions records seen (v ∷ vs) =
      let rest = validate_revisions records (v ∷ seen) vs in
      if not (any (has_id v.record_id) records) || not (is_stored_revision v)
      then err conflict
      else if any (is_row v.record_id v.revision) seen
      then err conflict
      else rest

-- for revision := 1; revision <= n; revision++
unfoldable pub has_revisions : String → ℕ → List RecordRevision → Bool
has_revisions id zero rows = true
has_revisions id (suc n) rows = has_revisions id n rows && any (is_row id (suc n)) rows

unfoldable pub equal_strings : List String → List String → Bool
equal_strings [] [] = true
equal_strings (a ∷ as') (b ∷ bs) = a == b && equal_strings as' bs
equal_strings _ _ = false

unfoldable pub agrees : Record → Option RecordRevision → Bool
agrees r none = false
agrees r (some v) =
    v.updated_at == r.updated_at
    && v.payload == r.payload
    && v.validity == r.validity
    && v.supersedes == r.supersedes
    && equal_strings v.evidence_refs r.evidence_refs

unfoldable pub has_history : List RecordRevision → Record → Bool
has_history rows r =
    count (has_record_id r.id) rows == r.revision
    && has_revisions r.id r.revision rows
    && agrees r (find (is_row r.id r.revision) rows)

unfoldable pub is_receipt : List Record → ReportReceipt → Bool
is_receipt records v =
    any (λ r. has_id v.record_id r && r.kind == "verification") records
    && v.source_hash != ""
    && v.parser_revision != ""
    && v.imported_at != 0

-- The code's maps of records and revisions hold the rows of the archive, which have distinct keys
-- once the loops over them have passed.
unfoldable pub validate_record_archive : Json → RecordArchive → Result StoreError (Unit {0})
validate_record_archive j a = do
  validate_records j "" "" [] a.records
  validate_revisions j a.records [] a.revisions
  reject (not (all (has_history a.revisions) a.records)) conflict
  reject (not (all (is_receipt a.records) a.imports)) conflict
