-- ===== src/ToolboxClient.antt =====
-- internal/toolboxclient/cache.go: the client-side cache of toolbox contracts, which tells a cached
-- contract from one that is resident in the model's context. `encoding/json` is a parameter, and the
-- mutex makes each method one step.
pub mod Residency
mod Examples
use text.Mathlib.Text.{starts_with}
use Prim.Native.String.{◌++◌ as join}
use repo_plane.Base.{
  ℕ, String, len, ◌≡◌, ◌↔◌, ap, Bool, true, false, not, ◌&&◌, ◌||◌, Option, none, some, List, [],
  ◌∷◌, arith, Eq, ◌==◌, ◌!=◌, String_eq, ℕ_eq, eq_iff, if◌then◌else◌, lookup, insert, Result, ok,
  err,
}

pub data CacheError : Type 0 where
  contract_missing rehydrate_required contract_invalid : CacheError

pub record Key : Type 0 where
  pub server_identity : String
  pub surface : String
  pub toolbox : String
  pub operation : String

abbrev pub same_key : Key → Key → Bool
same_key a b =
    a.server_identity == b.server_identity
    && a.surface == b.surface
    && a.toolbox == b.toolbox
    && a.operation == b.operation

pub same_key_iff : (a b : Key) → (same_key a b ≡ true) ↔ (a ≡ b)
same_key_iff a b = ground (
  arith,
  eq_iff a.server_identity b.server_identity,
  eq_iff a.surface b.surface,
  eq_iff a.toolbox b.toolbox,
  eq_iff a.operation b.operation,
)

instance abbrev pub Key_eq : Eq Key
Key_eq = record { beq = same_key; beq_iff = same_key_iff }

pub record Entry : Type 0 where
  pub handle : String
  pub contract : String
  pub resident : Bool

abbrev pub Cache : Type 0
Cache = List (Key × Entry)

-- json.Valid, and whether `json.Unmarshal` into a map succeeds with a map that is not nil.
pub record Json : Type 0 where
  pub valid : String → Bool
  pub is_object : String → Bool

abbrev pub new : Cache
new = []

unfoldable pub valid_key : Key → Bool
valid_key k =
    k.server_identity != "" && k.surface == "toolbox.v1" && k.toolbox != "" && k.operation != ""

unfoldable pub is_acceptable : Json → Key → String → String → Bool
unfolding valid_key
is_acceptable j k handle contract =
    valid_key k
    && starts_with handle (join (join "schema:" k.operation) "@sha256:")
    && len contract != 0
    && j.valid contract
    && j.is_object contract

unfoldable pub remember :
    Json → Key → String → String → Cache → Result CacheError (Unit {0}) × Cache
remember j k handle contract c =
    if is_acceptable j k handle contract
    then (ok tt, insert k (record { handle = handle; contract = contract; resident = true }) c)
    else (err contract_invalid, c)

-- The handle that `DescribeArguments` adds to its map, if it adds one.
describe_entry : Option Entry → Option String
describe_entry none = none
describe_entry (some e) = if e.resident then some e.handle else none

unfoldable pub describe_arguments : Key → Cache → Option String
unfolding describe_entry
describe_arguments k c = describe_entry (lookup k c)

-- The handle that `CallArguments` puts beside the operation and the arguments.
call_entry : Option Entry → Result CacheError String
call_entry none = err contract_missing
call_entry (some e) = if e.resident then ok e.handle else err rehydrate_required

unfoldable pub call_arguments : Key → Cache → Result CacheError String
unfolding call_entry
call_arguments k c = call_entry (lookup k c)

unfoldable pub compact : Cache → Cache
compact [] = []
compact ((k, e) ∷ c) = (k, record e { resident = false }) ∷ compact c

rehydrate_entry : Key → Cache → Option Entry → Result CacheError String × Cache
rehydrate_entry k c none = (err contract_missing, c)
rehydrate_entry k c (some e) = (ok e.contract, insert k (record e { resident = true }) c)

unfoldable pub rehydrate : Key → Cache → Result CacheError String × Cache
unfolding rehydrate_entry
rehydrate k c = rehydrate_entry k c (lookup k c)
