-- ===== src/HttpTransport/Profile/Safe.antt =====
-- What holds of a profile that internal/httptransport/profile.go accepts.
use repo_plane.Base.{
  String, ◌≡◌, ◌≢◌, sym, ◌∙◌, ◌⊎◌, inl, inr, Bool, true, false, some, [], ◌∷◌, arith, ◌==◌,
  String_eq, ℕ_eq, eq_iff, length, Bool-cases, Option-cases, Result-cases, ok, if◌then◌else◌,
}
use repo_plane.HttpTransport.Profile.{
  Auth, Profile, Url, Net, supported, is_loopback, local_auth, oauth, checked_auth, check_tls,
  check_hosts, finish, with_defaults, normalize_named, normalize,
}

-- The host that is listened on, and what it allows.
pub record Safe (n : Net) (dir : String) (p q : Profile) : Type 0 where
  pub host : String
  pub listens : n.split_host q.listen ≡ some host
  pub tls : is_loopback n dir host ≡ false → (p.cert_file ≢ "") × (p.key_file ≢ "")
  pub local_only : q.auth.mode ≡ "local_token" → is_loopback n dir host ≡ true
  pub modes : (q.auth.mode ≡ "local_token") ⊎ (q.auth.mode ≡ "oauth_introspection")
  pub limits : supported q.limits ≡ true

module _ (n : Net) (dir : String) where
  auth-mode :
      (loopback : Bool) (resource_uri : String) (resource : Url) (a : Auth) {b : Auth}
      → checked_auth n dir loopback resource_uri resource a ≡ ok b
      → (b.mode ≡ "local_token" → loopback ≡ true)
        × ((b.mode ≡ "local_token") ⊎ (b.mode ≡ "oauth_introspection"))
  unfolding checked_auth local_auth oauth
  auth-mode loopback resource_uri resource a {b} h = elim (Bool-cases (a.mode == "local_token")) [
    | inl local ↦
        (let same : b.mode ≡ a.mode = ground (arith, local, h) in
          ((λ e. ground (arith, local, h)), inl (same ∙ (eq_iff a.mode "local_token").0 local)))
    | inr other ↦ elim (Bool-cases (a.mode == "oauth_introspection")) [
      | inl remote ↦
          (let same : b.mode ≡ a.mode = ground (arith, other, remote, h) in
            (
              (λ e. ground (arith, other, (eq_iff a.mode "local_token").1 (sym same ∙ e))),
              inr (same ∙ (eq_iff a.mode "oauth_introspection").0 remote),
            ))
      | inr neither ↦ absurd (ground (arith, other, neither, h))
    ]
  ]

  -- What the checks of `finish` leave.
  record Finished (loopback : Bool) (resource : Url) (p q : Profile) : Type 0 where
    auth : checked_auth n dir loopback p.resource_uri resource p.auth ≡ ok q.auth
    listen : q.listen ≡ p.listen
    limits : supported q.limits ≡ true
    tls : loopback ≡ false → (p.cert_file ≢ "") × (p.key_file ≢ "")

  tls-files :
      (loopback : Bool) (resource : Url) (cert key : String)
      → check_tls n dir loopback resource cert key ≡ ok tt
      → loopback ≡ false
      → (cert ≢ "") × (key ≢ "")
  unfolding check_tls
  tls-files loopback resource cert key h l = ground (arith, h, l, eq_iff cert "", eq_iff key "")

  finish-Finished :
      (loopback : Bool) (resource : Url) (p : Profile) {q : Profile}
      → finish n dir loopback resource p ≡ ok q
      → Finished loopback resource p q
  unfolding finish
  finish-Finished loopback resource p {q} h =
      elim (Result-cases (check_tls n dir loopback resource p.cert_file p.key_file)) [
        | inl bad ↦ absurd (ground (arith, bad.1, h))
        | inr (u, tls) ↦
            elim (Result-cases (checked_auth n dir loopback p.resource_uri resource p.auth)) [
              | inl bad ↦ absurd (ground (arith, tls, bad.1, h))
              | inr (a, found) ↦
                  elim (Result-cases (
                    check_hosts n dir
                      (if length p.allowed_hosts == 0 then resource.host ∷ [] else p.allowed_hosts)
                      p.allowed_origins)) [
                        | inl bad ↦ absurd (ground (arith, tls, found, bad.1, h))
                        | inr (v, hosts) ↦ record {
                          auth = ground (arith, tls, found, hosts, h);
                          listen = ground (arith, tls, found, hosts, h);
                          limits = ground (arith, tls, found, hosts, h);
                          tls = tls-files loopback resource p.cert_file p.key_file tls;
                        }
                      ]
            ]
      ]

  named-Safe : (p : Profile) {q : Profile} → normalize_named n dir p ≡ ok q → Safe n dir p q
  unfolding normalize_named
  named-Safe p {q} h = elim (Option-cases (n.parse_url p.resource_uri)) [
    | inl bad ↦ absurd (ground (arith, bad, h))
    | inr (resource, parsed) ↦ elim (Option-cases (n.split_host p.listen)) [
      | inl bad ↦ absurd (ground (arith, parsed, bad, h))
      | inr (host, listens) ↦
          (let f =
              finish-Finished (is_loopback n dir host) resource p {q = q}
                (ground (arith, parsed, listens, h)) in
            let m = auth-mode (is_loopback n dir host) p.resource_uri resource p.auth f.auth in
            record {
              host = host;
              listens = ground (arith, listens, f.listen);
              tls = f.tls;
              local_only = m.0;
              modes = m.1;
              limits = f.limits;
            })
    ]
  ]

-- An accepted profile listens on a loopback address or was given both TLS files; local tokens are used
-- on a loopback address only, and no third way of authentication exists; and its limits, defaults put
-- in, are within the supported bounds.
pub normalize-Safe :
    (n : Net) (dir : String) (p : Profile) {q : Profile} → normalize n dir p ≡ ok q → Safe n dir p q
unfolding normalize with_defaults
normalize-Safe n dir p h =
    let s = named-Safe n dir (with_defaults n dir p) h in
    record {
      host = s.host;
      listens = s.listens;
      tls = s.tls;
      local_only = s.local_only;
      modes = s.modes;
      limits = s.limits;
    }
