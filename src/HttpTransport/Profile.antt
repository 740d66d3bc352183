-- ===== src/HttpTransport/Profile.antt =====
-- internal/httptransport/profile.go: `normalize`, the check of an HTTP profile with its defaults. The
-- address and path functions of the standard library are a parameter. An `int` is a sign and a size.
pub mod Safe
mod Examples
use text.Mathlib.Text.{starts_with}
use repo_plane.Base.{
  ℕ, ◌*◌, String, Bool, true, false, not, ◌&&◌, ◌||◌, Option, none, some, List, [], ◌∷◌, ltb, leb,
  ◌==◌, ◌!=◌, String_eq, ℕ_eq, if◌then◌else◌, length, any, Result, ok, err, reject, ◌>>=◌, ◌>>◌,
}
use repo_plane.Base.Int.{ℤ, pos, negsuc, is_zero}

-- One for each message.
pub data ProfileError : Type 0 where
  bad_endpoint bad_resource bad_listen half_tls tls_required https_required bad_mode local_only :
      ProfileError
  token_required scopes_required bad_introspection issuers_required bad_issuer
        credentials_required :
      ProfileError
  too_many_allowed bad_host bad_limits : ProfileError

pub record Auth : Type 0 where
  pub mode : String
  pub token_file : String
  pub scopes : List String
  pub introspection_url : String
  pub client_id_env : String
  pub client_secret_env : String
  pub authorization_servers : List String
  pub audience : String

pub record Limits : Type 0 where
  pub body_bytes : ℤ
  pub concurrent_requests : ℤ
  pub per_principal : ℤ
  pub requests_per_minute : ℤ
  pub read_header_seconds : ℤ
  pub read_seconds : ℤ
  pub idle_seconds : ℤ
  pub shutdown_seconds : ℤ
  pub retention_days : ℤ

pub record Profile : Type 0 where
  pub listen : String
  pub endpoint : String
  pub resource_uri : String
  pub allowed_origins : List String
  pub allowed_hosts : List String
  pub cert_file : String
  pub key_file : String
  pub auth : Auth
  pub limits : Limits

pub record Url : Type 0 where
  pub scheme : String
  pub host : String
  pub fragment : String

-- url.Parse, the host of net.SplitHostPort, strings.EqualFold, net.ParseIP with IsLoopback,
-- strings.Contains, strings.ContainsAny, filepath.IsAbs and filepath.Join; `none` is an error.
pub record Net : Type 0 where
  pub parse_url : String → Option Url
  pub split_host : String → Option String
  pub equal_fold : String → String → Bool
  pub ip_is_loopback : String → Bool
  pub contains : String → String → Bool
  pub contains_any : String → String → Bool
  pub is_abs : String → Bool
  pub join_path : String → String → String

abbrev or_text : String → String → String
or_text s d = if s == "" then d else s

abbrev pub or_number : ℤ → ℕ → ℤ
or_number n d = if is_zero n then pos d else n

-- n >= lo && n <= hi
abbrev pub within : ℕ → ℕ → ℤ → Bool
within lo hi (pos n) = leb lo n && leb n hi
within lo hi (negsuc n) = false

-- n >= 1
abbrev pub is_positive : ℤ → Bool
is_positive (pos n) = leb 1 n
is_positive (negsuc n) = false

abbrev pub at_most : ℤ → ℤ → Bool
at_most (pos m) (pos n) = leb m n
at_most (pos m) (negsuc n) = false
at_most (negsuc m) (pos n) = true
at_most (negsuc m) (negsuc n) = leb n m

abbrev required {ℓ} : {A : Type ℓ} → Option A → ProfileError → Result ProfileError A
required none e = err e
required (some a) e = ok a

unfoldable pub default_limits : Limits → Limits
default_limits l = record {
  body_bytes = or_number l.body_bytes (1024 * 1024);
  concurrent_requests = or_number l.concurrent_requests 16;
  per_principal = or_number l.per_principal 4;
  requests_per_minute = or_number l.requests_per_minute 120;
  read_header_seconds = or_number l.read_header_seconds 10;
  read_seconds = or_number l.read_seconds 30;
  idle_seconds = or_number l.idle_seconds 60;
  shutdown_seconds = or_number l.shutdown_seconds 30;
  retention_days = or_number l.retention_days 30;
}

unfoldable pub supported : Limits → Bool
supported l =
    within 1024 (16 * 1024 * 1024) l.body_bytes
    && within 1 1024 l.concurrent_requests
    && (is_positive l.per_principal && at_most l.per_principal l.concurrent_requests)
    && within 1 100000 l.requests_per_minute
    && within 1 300 l.read_header_seconds
    && within 1 3600 l.read_seconds
    && within 1 3600 l.idle_seconds
    && within 1 300 l.shutdown_seconds
    && within 1 3650 l.retention_days

module _ (n : Net) (dir : String) where
  unfoldable pub is_loopback : String → Bool
  is_loopback host = n.equal_fold host "localhost" || n.ip_is_loopback host

  abbrev anchored : String → String
  anchored path = if n.is_abs path then path else n.join_path dir path

  abbrev is_https : Option Url → Bool
  is_https none = false
  is_https (some u) = u.scheme == "https" && u.host != ""

  unfoldable pub local_auth : Bool → Auth → Result ProfileError Auth
  local_auth loopback a = do
    reject (not loopback) local_only
    reject (a.token_file == "") token_required
    reject (length a.scopes == 0) scopes_required
    ok (record a { token_file = anchored a.token_file })

  unfoldable pub oauth : String → Url → Auth → Result ProfileError Auth
  oauth resource_uri resource a = do
    reject (resource.scheme != "https") https_required
    reject (not (is_https (n.parse_url a.introspection_url))) bad_introspection
    reject (length a.authorization_servers == 0) issuers_required
    reject (any (λ s. not (is_https (n.parse_url s))) a.authorization_servers) bad_issuer
    reject (a.client_id_env == "" || a.client_secret_env == "") credentials_required
    ok (record a { audience = or_text a.audience resource_uri })

  unfoldable pub checked_auth : Bool → String → Url → Auth → Result ProfileError Auth
  checked_auth loopback resource_uri resource a =
      if a.mode == "local_token"
      then local_auth loopback a
      else if a.mode == "oauth_introspection"
      then oauth resource_uri resource a
      else err bad_mode

  -- The TLS and the resource fit the address that is listened on.
  unfoldable pub check_tls : Bool → Url → String → String → Result ProfileError (Unit {0})
  check_tls loopback resource cert key = do
    reject ((cert == "" || key == "") && not (cert == "" && key == "")) half_tls
    reject (not loopback && cert == "") tls_required
    reject (cert != "" && resource.scheme != "https") https_required

  unfoldable pub check_hosts : List String → List String → Result ProfileError (Unit {0})
  check_hosts hosts origins = do
    reject (ltb 64 (length hosts) || ltb 64 (length origins)) too_many_allowed
    reject (any (λ h. h == "" || n.contains_any h "/\\") hosts) bad_host

  unfoldable pub finish : Bool → Url → Profile → Result ProfileError Profile
  finish loopback resource p = do
    check_tls loopback resource p.cert_file p.key_file
    auth ← checked_auth loopback p.resource_uri resource p.auth
    check_hosts (if length p.allowed_hosts == 0 then resource.host ∷ [] else p.allowed_hosts)
        p.allowed_origins
    reject (not (supported (default_limits p.limits))) bad_limits
    ok (record p {
      allowed_hosts = if length p.allowed_hosts == 0 then resource.host ∷ [] else p.allowed_hosts;
      cert_file = if p.cert_file == "" then "" else anchored p.cert_file;
      key_file = if p.cert_file == "" then p.key_file else anchored p.key_file;
      auth = auth;
      limits = default_limits p.limits;
    })

  unfoldable pub with_defaults : Profile → Profile
  with_defaults p = record p {
    listen = or_text p.listen "127.0.0.1:8080";
    endpoint = or_text p.endpoint "/mcp";
  }

  unfoldable pub normalize_named : Profile → Result ProfileError Profile
  normalize_named p = do
    reject (not (starts_with p.endpoint "/") || n.contains p.endpoint "?" || p.endpoint == "/")
        bad_endpoint
    resource ← required (n.parse_url p.resource_uri) bad_resource
    reject (resource.scheme == "" || resource.host == "" || resource.fragment != "") bad_resource
    host ← required (n.split_host p.listen) bad_listen
    finish (is_loopback host) resource p

  unfoldable pub normalize : Profile → Result ProfileError Profile
  normalize p = normalize_named (with_defaults p)
