-- ===== src/Contracts.antt =====
-- internal/contracts/limits.go and response.go: the bounded-work limits of a request, and the parts of
-- a response. A duration counts nanoseconds.
pub mod Bounds
mod Examples
use repo_plane.Base.{
  ℕ, ◌*◌, String, Bool, Option, List, ltb, ◌==◌, ℕ_eq, if◌then◌else◌, Result, ok, err, reject,
  ◌>>=◌, ◌>>◌,
}
use repo_plane.Base.Int.{ℤ, pos, times, is_negative, is_zero, exceeds}

pub data Status : Type 0 where
  status_ok status_partial status_error status_unsupported : Status

pub data CountRelation : Type 0 where
  count_exact count_lower_bound count_unknown count_not_applicable : CountRelation

pub data ScanState : Type 0 where
  scan_complete scan_partial scan_not_applicable : ScanState

pub record Counts : Type 0 where
  pub matched : Option ℕ
  pub relation : CountRelation
  pub returned : ℕ

pub record Warning : Type 0 where
  pub code : String
  pub message : String
  pub ref : Option String

pub record Response (Item : Type 0) : Type 0 where
  pub status : Status
  pub items : List Item
  pub counts : Counts
  pub scan : ScanState
  pub truncated : Option Bool
  pub next_cursor : Option String
  pub snapshot_ref : Option String
  pub warnings : List Warning

pub record Limits : Type 0 where
  pub item_limit : ℕ
  pub byte_limit : ℕ
  pub time_limit : ℤ

pub record LimitRequest : Type 0 where
  pub item_limit : ℕ
  pub byte_limit : ℕ
  pub time_limit_ms : ℤ

-- The field that an ErrLimitExceeded names.
pub data LimitError : Type 0 where
  time_limit_ms item_limit byte_limit : LimitError

abbrev pub default_item_limit : ℕ
default_item_limit = 50

abbrev pub maximum_item_limit : ℕ
maximum_item_limit = 500

abbrev pub default_byte_limit : ℕ
default_byte_limit = 64 * 1024

abbrev pub maximum_byte_limit : ℕ
maximum_byte_limit = 1024 * 1024

abbrev pub millisecond : ℕ
millisecond = 1000000

abbrev pub default_time_limit : ℕ
default_time_limit = 5000 * millisecond

abbrev pub maximum_time_limit : ℕ
maximum_time_limit = 30000 * millisecond

unfoldable pub normalize_limits : LimitRequest → Result LimitError Limits
normalize_limits req =
    let item = if req.item_limit == 0 then default_item_limit else req.item_limit in
    let byte = if req.byte_limit == 0 then default_byte_limit else req.byte_limit in
    let time =
      if is_zero req.time_limit_ms
      then pos default_time_limit
      else times req.time_limit_ms millisecond in
    do
      reject (is_negative req.time_limit_ms) time_limit_ms
      reject (ltb maximum_item_limit item) item_limit
      reject (ltb maximum_byte_limit byte) byte_limit
      reject (exceeds time maximum_time_limit) time_limit_ms
      ok (record { item_limit = item; byte_limit = byte; time_limit = time })
