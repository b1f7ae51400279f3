-- ===== src/SiteAccess.antt =====
-- domain/site_access.py: validating a login URL against an exact list of allowed hosts. Hosts is
-- normalize_host. What urllib, the idna codec and Python's character tables do are parameters.
pub mod Text
pub mod Hosts
pub mod Allowed
pub mod Examples
use job_searching_assistant.Prelude.{
  ℕ, ◌≡◌, Bool, true, false, ◌&&◌, ◌||◌, not, Option, some, none, List, [], ◌∷◌, String, length,
  leb, elem, ◌==◌, string_eq, if◌then◌else◌, Result, ok, raise, ◌>>=◌, ◌>>◌, raise_if, some_or,
  is_some,
}
use Prim.Native.String.{◌++◌ as str_append}
use job_searching_assistant.SiteAccess.Text.{Unicode, strip, text_length, is_text}
use job_searching_assistant.SiteAccess.Hosts.{
  InvalidSiteAccess, invalid, host_not_allowed, Idna, normalize_host, normalize_hosts,
}

-- urllib.parse.SplitResult; `port` is none where reading it raises ValueError.
pub record SplitResult : Type 0 where
  pub scheme : String
  pub hostname : Option String
  pub username : Option String
  pub password : Option String
  pub fragment : String
  pub port : Option (Option ℕ)
  pub netloc : String
  pub path : String
  pub query : String

-- urllib.parse, with `authority host port` for f"{host}:{port}"; urlsplit raises ValueError as none.
pub record UrlLibrary : Type 0 where
  pub urlsplit : String → Option SplitResult
  pub urlunsplit : (netloc path query : String) → String
  pub authority : (host : String) (port : ℕ) → String
  pub casefold : String → String

pub record ValidatedSiteAccess : Type 0 where
  pub login_url : String
  pub allowed_hosts : List String

-- `x or default`, on a text
abbrev or_text : String → String → String
or_text s default = if is_text s then s else default

abbrev pub has_host : Option String → Bool
has_host none = false
has_host (some h) = is_text h

abbrev pub host_text : Option String → String
host_text none = ""
host_text (some h) = h

abbrev pub has_secret : SplitResult → Bool
has_secret parsed = is_some parsed.username || is_some parsed.password || is_text parsed.fragment

-- `not low <= n <= high`
abbrev pub is_outside : ℕ → ℕ → ℕ → Bool
is_outside low high n = not (leb low n && leb n high)

module _ (urls : UrlLibrary) where
  abbrev pub is_no_site : SplitResult → Bool
  is_no_site parsed = not (urls.casefold parsed.scheme == "https") || not (has_host parsed.hostname)

  -- The tests on a parsed URL, up to the port.
  unfoldable pub checked_port : SplitResult → Result InvalidSiteAccess (Option ℕ)
  checked_port parsed =
      raise_if (is_no_site parsed) invalid
      >> (raise_if (has_secret parsed) invalid >> some_or parsed.port invalid)

  abbrev netloc_of : String → Option ℕ → String
  netloc_of host none = host
  netloc_of host (some port) = urls.authority host port

  unfoldable pub canonical_url : SplitResult → String → Option ℕ → String
  canonical_url parsed host port =
      urls.urlunsplit (netloc_of host port) (or_text parsed.path "/") parsed.query

module _ (unicode : Unicode) (idna : Idna) (urls : UrlLibrary) where
  unfoldable pub validate_parsed :
      SplitResult → List String → Result InvalidSiteAccess ValidatedSiteAccess
  unfolding checked_port canonical_url
  validate_parsed parsed allowed_hosts = checked_port urls parsed >>= λ port.
      raise_if (Text.ends_with_colon parsed.netloc) invalid
      >> (normalize_hosts idna unicode allowed_hosts >>= λ hosts.
          normalize_host idna unicode (host_text parsed.hostname) >>= λ host.
          raise_if (not (elem host hosts)) host_not_allowed
          >> ok (record { login_url = canonical_url urls parsed host port; allowed_hosts = hosts }))

  unfoldable pub validate_site_access :
      (login_url : String) (allowed_hosts : List String)
      → Result InvalidSiteAccess ValidatedSiteAccess
  unfolding validate_parsed
  validate_site_access login_url allowed_hosts =
      let stripped = strip unicode login_url in
      raise_if (is_outside 1 2000 (text_length stripped)) invalid
      >> (raise_if (is_outside 1 50 (length allowed_hosts)) invalid
          >> (some_or (urls.urlsplit stripped) invalid >>= λ parsed.
              validate_parsed parsed allowed_hosts))
