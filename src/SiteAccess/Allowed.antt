-- ===== src/SiteAccess/Allowed.antt =====
-- domain/site_access.py: which URLs are accepted.
use job_searching_assistant.Prelude.{
  elem-insert_text, ℕ, ◌≡◌, refl, sym, ap, ◌∙◌, Bool, true, false, ◌||◌, not, Option, some, List,
  [], ◌∷◌, String, length, elem, any, ◌==◌, string_eq, Result, ok, raise, some_or, is_some, bind-ok,
  raise_if-ok, some_or-ok, ok-injective, arith,
}
use job_searching_assistant.SiteAccess.{
  SplitResult, UrlLibrary, ValidatedSiteAccess, checked_port, canonical_url, validate_parsed,
  validate_site_access, host_text, is_no_site, has_secret, is_outside,
}
use job_searching_assistant.SiteAccess.Text.{Unicode, strip, text_length, is_text, ends_with_colon}
use job_searching_assistant.SiteAccess.Hosts.{
  InvalidSiteAccess, invalid, Idna, normalize_host, normalize_hosts,
}

checks-hold :
    (https host user pass fragment : Bool)
    → (not https || not host) ≡ false
    → (user || pass || fragment) ≡ false
    → (https ≡ true) × (user ≡ false) × (pass ≡ false) × (fragment ≡ false)
checks-hold https host user pass fragment h k = ground arith

listed-holds : (listed : Bool) → not listed ≡ false → listed ≡ true
listed-holds listed h = ground arith

module _ (unicode : Unicode) (idna : Idna) where
  -- One of the hosts is normalized to this one.
  abbrev pub is_result : String → Result InvalidSiteAccess String → Bool
  is_result host (ok h) = host == h
  is_result host (raise e) = false

  abbrev pub is_listed : String → List String → Bool
  is_listed host allowed_hosts =
      any (λ a. is_result host (normalize_host idna unicode a)) allowed_hosts

  normalize_hosts-is_listed :
      (x : String) (allowed_hosts hosts : List String)
      → normalize_hosts idna unicode allowed_hosts ≡ ok hosts
      → elem x hosts ≡ is_listed x allowed_hosts
  unfolding normalize_hosts
  normalize_hosts-is_listed x [] hosts h = let e = ok-injective h in rw (← e) refl
  normalize_hosts-is_listed x (a ∷ rest_hosts) hosts h =
      let (n, first, h') = bind-ok (normalize_host idna unicode a) _ hosts h in
      let (rest, others, h'') = bind-ok (normalize_hosts idna unicode rest_hosts) _ hosts h' in
      let e = ok-injective h'' in
      rw (← e) (
        elem-insert_text x n rest
        ∙ ap (λ b. x == n || b) (normalize_hosts-is_listed x rest_hosts rest others)
        ∙ ap (λ r. is_result x r || is_listed x rest_hosts) (sym first))

  module _ (urls : UrlLibrary) where
    -- What makes an accepted URL safe to open with these hosts.
    pub record IsAllowed (login_url : String) (allowed_hosts : List String)
        (v : ValidatedSiteAccess) : Type 0 where
      pub parsed : SplitResult
      pub host : String
      pub port : Option ℕ
      pub is_parsed : urls.urlsplit (strip unicode login_url) ≡ some parsed
      pub is_https : (urls.casefold parsed.scheme == "https") ≡ true
      pub no_username : is_some parsed.username ≡ false
      pub no_password : is_some parsed.password ≡ false
      pub no_fragment : is_text parsed.fragment ≡ false
      pub is_host : normalize_host idna unicode (host_text parsed.hostname) ≡ ok host
      pub host_listed : is_listed host allowed_hosts ≡ true
      pub url_built : v.login_url ≡ canonical_url urls parsed host port

    checked_port-ok :
        (parsed : SplitResult) (port : Option ℕ)
        → checked_port urls parsed ≡ ok port
        → ((urls.casefold parsed.scheme == "https") ≡ true)
          × (is_some parsed.username ≡ false)
          × (is_some parsed.password ≡ false)
          × (is_text parsed.fragment ≡ false)
    unfolding checked_port
    checked_port-ok parsed port h =
        let (site, h1) = raise_if-ok (is_no_site urls parsed) _ _ port h in
        let (secret, _) = raise_if-ok (has_secret parsed) _ _ port h1 in
        checks-hold _ _ _ _ _ site secret

    -- If a login URL is accepted with a list of allowed hosts, then it is an https URL without
    -- user name, password and fragment, its host in normal form is the normal form of one of the
    -- allowed hosts, and the URL returned is built from that host.
    pub validate_site_access-IsAllowed :
        (login_url : String) (allowed_hosts : List String) (v : ValidatedSiteAccess)
        → validate_site_access unicode idna urls login_url allowed_hosts ≡ ok v
        → IsAllowed login_url allowed_hosts v
    unfolding validate_site_access validate_parsed
    validate_site_access-IsAllowed login_url allowed_hosts v h =
        let stripped = strip unicode login_url in
        let (_, h1) = raise_if-ok (is_outside 1 2000 (text_length stripped)) _ _ v h in
        let (_, h2) = raise_if-ok (is_outside 1 50 (length allowed_hosts)) _ _ v h1 in
        let (parsed, found, h3) = bind-ok (some_or (urls.urlsplit stripped) invalid) _ v h2 in
        let (port, checked, h4) = bind-ok (checked_port urls parsed) _ v h3 in
        let (_, h5) = raise_if-ok (ends_with_colon parsed.netloc) _ _ v h4 in
        let (hosts, normalized, h6) = bind-ok (normalize_hosts idna unicode allowed_hosts) _ v h5 in
        let (host, own, h7) =
          bind-ok (normalize_host idna unicode (host_text parsed.hostname)) _ v h6 in
        let (listed, h8) = raise_if-ok (not (elem host hosts)) _ _ v h7 in
        let built = ok-injective h8 in
        let (https, user, pass, fragment) = checked_port-ok parsed port checked in
        record {
          parsed = parsed;
          host = host;
          port = port;
          is_parsed = some_or-ok _ _ parsed found;
          is_https = https;
          no_username = user;
          no_password = pass;
          no_fragment = fragment;
          is_host = own;
          host_listed =
              sym (normalize_hosts-is_listed host allowed_hosts hosts normalized)
              ∙ listed-holds _ listed;
          url_built = sym (ap (λ w. w.login_url) built);
        }
