-- ===== src/RecordService/Page.antt =====
-- The pages of records in internal/records/service.go: readPage, fromCursor, persist, singleResponse
-- and ambiguousResponse. The results are of any type; encoding/json on them and on a response, and
-- SHA-256, are a parameter.
pub mod Longest
mod Examples
use Prim.Native.String.{◌++◌ as join}
use repo_plane.Base.{
  ℕ, zero, suc, ◌+◌, ◌*◌, ◌%◌, ◌^◌, String, Bool, true, false, not, ◌&&◌, ◌||◌, Option, none, some,
  List, [], ◌∷◌, ltb, leb, ◌==◌, String_eq, ℕ_eq, if◌then◌else◌, length, take, Result, ok, err,
  ◌>>=◌,
}
use repo_plane.Contracts.{
  Response, Warning, status_ok, status_partial, count_exact, count_lower_bound, scan_complete,
  scan_partial, scan_not_applicable,
}
use repo_plane.Cursor.{Wire, CursorError, encode, decode}
use repo_plane.Store.{StoreError}
use repo_plane.Store.Results.{
  ResultItem, ResultSet, ResultPage, Faults, create_result_set, read_result_page,
}

pub data PageError : Type 0 where
  response_too_large malformed no_random : PageError
  stored_error : StoreError → PageError
  cursor_error : CursorError → PageError

pub record Format (Item : Type 0) : Type 0 where
  pub wire : Wire
  pub key : List ℕ
  pub workspace_id : String
  pub ref_of : Item → String
  pub encode_item : Item → String
  pub decode_item : String → Option Item
  -- the value of `complete` in the metadata of a set
  pub encode_metadata : Bool → String
  pub decode_metadata : String → Option Bool
  pub hash : String → String
  -- the length of the JSON of a response
  pub size : Response Item → ℕ

abbrev pub from_store : {A : Type 0} → Result StoreError A → Result PageError A
from_store (ok a) = ok a
from_store (err e) = err (stored_error e)

abbrev pub from_cursors : {A : Type 0} → Result CursorError A → Result PageError A
from_cursors (ok a) = ok a
from_cursors (err e) = err (cursor_error e)

abbrev pub well_formed : {A : Type 0} → Option A → Result PageError A
well_formed (some a) = ok a
well_formed none = err malformed

-- 30 minutes, in nanoseconds.
abbrev pub result_set_ttl : ℕ
result_set_ttl = 30 * 60 * 1000000000

-- What readPage knows of a page before it chooses how many items to show.
pub record Shown (Item : Type 0) : Type 0 where
  pub set_id : String
  pub from : ℕ
  pub expires : ℕ
  pub total : ℕ
  pub complete : Bool
  pub items : List Item

module _ {Item : Type 0} (f : Format Item) where
  unfoldable pub decode_items : List ResultItem → Result PageError (List Item)
  decode_items [] = ok []
  decode_items (i ∷ is) = do
    item ← well_formed (f.decode_item i.payload)
    rest ← decode_items is
    ok (item ∷ rest)

  -- Metadata that are empty leave the set complete.
  abbrev pub metadata_of : String → Result PageError Bool
  metadata_of text = if text == "" then ok true else well_formed (f.decode_metadata text)

  abbrev pub next_of : Shown Item → ℕ → ℕ
  next_of s returned = (s.from + returned) % 2 ^ 64

  abbrev pub cursor_at : Shown Item → ℕ → Result PageError (Option String)
  cursor_at s next = do
    encoded ← from_cursors (encode f.wire f.key f.workspace_id s.set_id next s.expires)
    ok (some encoded)

  unfoldable pub next_cursor : Shown Item → ℕ → Result PageError (Option String)
  next_cursor s returned =
      if ltb (next_of s returned) s.total then cursor_at s (next_of s returned) else ok none

  abbrev snapshot_limit : Warning
  snapshot_limit = record {
    code = "record_snapshot_limit";
    message = "record snapshot exceeded its bounded item limit";
    ref = none;
  }

  abbrev pub response : Shown Item → ℕ → Option String → Response Item
  response s returned cursor = record {
    status = if s.complete then status_ok else status_partial;
    items = take returned s.items;
    counts = record {
      matched = some s.total;
      relation = if s.complete then count_exact else count_lower_bound;
      returned = returned;
    };
    scan = if s.complete then scan_complete else scan_partial;
    truncated = some (ltb (next_of s returned) s.total || not s.complete);
    next_cursor = cursor;
    snapshot_ref = some (join "snapshot:" s.set_id);
    warnings = if s.complete then [] else snapshot_limit ∷ [];
  }

  unfoldable pub tried : Shown Item → ℕ → Result PageError (Response Item)
  tried s returned = do cursor ← next_cursor s returned; ok (response s returned cursor)

  -- One turn of the loop, whose other turns give `rest`.
  unfoldable pub chosen :
      ℕ
      → Shown Item
      → ℕ
      → Result PageError (Response Item)
      → Result PageError (Response Item)
      → Result PageError (Response Item)
  chosen byte_limit s returned (err e) rest = err e
  chosen byte_limit s returned (ok r) rest =
      if leb (f.size r) byte_limit
      then (if returned == 0 && ltb 0 (length s.items) then err response_too_large else ok r)
      else rest

  unfoldable pub fit : ℕ → Shown Item → ℕ → Result PageError (Response Item)
  fit byte_limit s zero = chosen byte_limit s 0 (tried s 0) (err response_too_large)
  fit byte_limit s (suc n) =
      let rest = fit byte_limit s n in chosen byte_limit s (suc n) (tried s (suc n)) rest

  unfoldable pub read_page :
      Bool → String → ℕ → ℕ → ℕ → ℕ → List ResultSet → Result PageError (Response Item)
  read_page fault set_id from item_limit byte_limit expires sets = do
    page ← from_store (read_result_page fault set_id from item_limit sets)
    complete ← metadata_of page.metadata
    items ← decode_items page.items
    fit byte_limit
        (record {
          set_id = set_id;
          from = from;
          expires = expires;
          total = page.total;
          complete = complete;
          items = items;
        })
        (length items)

  -- A cursor counts its expiry in seconds.
  unfoldable pub from_cursor :
      Bool → ℕ → String → ℕ → ℕ → List ResultSet → Result PageError (Response Item)
  from_cursor fault now encoded item_limit byte_limit sets = do
    payload ← from_cursors (decode f.wire f.key now encoded f.workspace_id)
    read_page fault payload.result_set_id payload.next_ordinal item_limit byte_limit
        (payload.expires * 1000000000) sets

  unfoldable pub items_from : ℕ → List Item → List ResultItem
  items_from n [] = []
  items_from n (x ∷ xs) =
      record {
        ordinal = n;
        item_ref = f.ref_of x;
        item_hash = f.hash (f.encode_item x);
        payload = f.encode_item x;
      }
      ∷ items_from (n + 1) xs

  -- `query_hash` is the hash of the request's JSON.
  unfoldable pub set_of : String → String → ℕ → Bool → List Item → ResultSet
  set_of id query_hash now complete results = record {
    id = id;
    workspace_id = f.workspace_id;
    query_hash = query_hash;
    generation_id = "records.v1";
    created_at = now;
    expires_at = now + result_set_ttl;
    metadata = f.encode_metadata complete;
    items = items_from 0 results;
  }

  stored_page :
      Bool
      → ResultSet
      → ℕ
      → ℕ
      → Result StoreError (Unit {0}) × List ResultSet
      → Result PageError (Response Item) × List ResultSet
  stored_page fault s item_limit byte_limit (err e, sets) = (err (stored_error e), sets)
  stored_page fault s item_limit byte_limit (ok _, sets) =
      (read_page fault s.id 0 item_limit byte_limit s.expires_at sets, sets)

  -- `valid` is json.Valid, and `fault` that of the read; `drawn` is what crypto/rand gives.
  unfoldable pub persist :
      (String → Bool)
      → Faults
      → Bool
      → Option String
      → String
      → ℕ
      → Bool
      → List Item
      → ℕ
      → ℕ
      → List ResultSet
      → Result PageError (Response Item) × List ResultSet
  unfolding stored_page
  persist valid faults fault none query_hash now complete results item_limit byte_limit sets =
      (err no_random, sets)
  persist valid faults fault (some hex) query_hash now complete results item_limit byte_limit sets =
      let s = set_of (join "record_results_" hex) query_hash now complete results in
      stored_page fault s item_limit byte_limit (create_result_set valid faults s sets)

  unfoldable pub single_response : Item → ℕ → Result PageError (Response Item)
  single_response item byte_limit =
      let r : Response Item = record {
        status = status_ok;
        items = item ∷ [];
        counts = record { matched = some 1; relation = count_exact; returned = 1 };
        scan = scan_not_applicable;
        truncated = some false;
        next_cursor = none;
        snapshot_ref = none;
        warnings = [];
      } in
      if ltb byte_limit (f.size r) then err response_too_large else ok r

  abbrev pub ambiguous : List Item → ℕ → Warning → ℕ → Response Item
  ambiguous items matched warning returned = record {
    status = status_partial;
    items = take returned items;
    counts = record { matched = some matched; relation = count_exact; returned = returned };
    scan = scan_complete;
    truncated = some (ltb returned matched);
    next_cursor = none;
    snapshot_ref = none;
    warnings = warning ∷ [];
  }

  unfoldable pub ambiguous_from : List Item → ℕ → Warning → ℕ → ℕ → Result PageError (Response Item)
  ambiguous_from items matched warning byte_limit zero = err response_too_large
  ambiguous_from items matched warning byte_limit (suc n) =
      let rest = ambiguous_from items matched warning byte_limit n in
      if leb (f.size (ambiguous items matched warning (suc n))) byte_limit
      then ok (ambiguous items matched warning (suc n))
      else rest

  unfoldable pub ambiguous_response : List Item → ℕ → Warning → ℕ → Result PageError (Response Item)
  ambiguous_response items matched warning byte_limit =
      ambiguous_from items matched warning byte_limit (length items)
