-- ===== src/HttpTransport/Profile/Examples.antt =====
-- A profile with a local token on 127.0.0.1.
use repo_plane.Base.{◌≡◌, refl, true, false, some, [], ◌∷◌, ok, ◌==◌, String_eq}
use repo_plane.Base.Int.{pos}
use repo_plane.HttpTransport.Profile.{
  Profile, Net, default_limits, supported, is_loopback, local_auth, checked_auth, check_tls,
  check_hosts, finish, with_defaults, normalize_named, normalize,
}
use repo_plane.HttpTransport.Profile.Safe.{Safe, normalize-Safe}

abbrev net : Net
net = record {
  parse_url = λ s. some (record { scheme = "http"; host = "127.0.0.1"; fragment = "" });
  split_host = λ s. some "127.0.0.1";
  equal_fold = λ a b. a == b;
  ip_is_loopback = λ s. s == "127.0.0.1";
  contains = λ a b. false;
  contains_any = λ a b. false;
  is_abs = λ s. true;
  join_path = λ a b. b;
}

abbrev given : Profile
given = record {
  listen = "";
  endpoint = "";
  resource_uri = "http://127.0.0.1:8080/mcp";
  allowed_origins = [];
  allowed_hosts = [];
  cert_file = "";
  key_file = "";
  auth = record {
    mode = "local_token";
    token_file = "/token";
    scopes = "read" ∷ [];
    introspection_url = "";
    client_id_env = "";
    client_secret_env = "";
    authorization_servers = [];
    audience = "";
  };
  limits = record {
    body_bytes = pos 0;
    concurrent_requests = pos 0;
    per_principal = pos 0;
    requests_per_minute = pos 0;
    read_header_seconds = pos 0;
    read_seconds = pos 0;
    idle_seconds = pos 0;
    shutdown_seconds = pos 0;
    retention_days = pos 0;
  };
}

abbrev filled : Profile
filled = record given {
  listen = "127.0.0.1:8080";
  endpoint = "/mcp";
  allowed_hosts = "127.0.0.1" ∷ [];
  limits = record {
    body_bytes = pos 1048576;
    concurrent_requests = pos 16;
    per_principal = pos 4;
    requests_per_minute = pos 120;
    read_header_seconds = pos 10;
    read_seconds = pos 30;
    idle_seconds = pos 60;
    shutdown_seconds = pos 30;
    retention_days = pos 30;
  };
}

accepts : normalize net "/etc" given ≡ ok filled
unfolding normalize normalize_named with_defaults finish check_tls check_hosts checked_auth
    local_auth is_loopback supported default_limits
accepts = refl

normalize-Safe_example : Safe net "/etc" given filled
normalize-Safe_example = normalize-Safe net "/etc" given accepts
