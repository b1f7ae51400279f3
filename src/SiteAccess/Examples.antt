-- ===== src/SiteAccess/Examples.antt =====
-- A login URL on the host `jobs.example.com`, with a library that knows this one URL.
use job_searching_assistant.SiteAccess.Hosts.{normalize_hosts}
use Prim.Native.Char.{code}
use job_searching_assistant.Prelude.{
  ◌≡◌, refl, some, none, List, [], ◌∷◌, String, nat_beq, ◌==◌, string_eq, if◌then◌else◌, ok, raise,
}
use Prim.Native.String.{◌++◌ as str_append}
use job_searching_assistant.SiteAccess.{
  SplitResult, UrlLibrary, ValidatedSiteAccess, validate_site_access,
}
use job_searching_assistant.SiteAccess.Text.{Unicode}
use job_searching_assistant.SiteAccess.Hosts.{Idna, invalid, host_not_allowed, normalize_host}
use job_searching_assistant.SiteAccess.Allowed.{IsAllowed, validate_site_access-IsAllowed}

abbrev pub ascii : Unicode
ascii = record { is_space = λ c. nat_beq (code c) 32 }

abbrev pub as_written : Idna
as_written = record { encoded = λ label. some label }

abbrev login_parts : SplitResult
login_parts = record {
  scheme = "https";
  hostname = some "jobs.example.com";
  username = none;
  password = none;
  fragment = "";
  port = some none;
  netloc = "jobs.example.com";
  path = "/login";
  query = "";
}

abbrev pub one_url : UrlLibrary
one_url = record {
  urlsplit = λ s. if s == "https://jobs.example.com/login" then some login_parts else none;
  urlunsplit = λ netloc path query. str_append "https://" (str_append netloc path);
  authority = λ host port. host;
  casefold = λ s. s;
}

abbrev pub two_hosts : List String
two_hosts = "www.example.com" ∷ " jobs.example.com." ∷ []

abbrev accepted : ValidatedSiteAccess
accepted = record {
  login_url = "https://jobs.example.com/login";
  allowed_hosts = "jobs.example.com" ∷ "www.example.com" ∷ [];
}

accepts :
    validate_site_access ascii as_written one_url "https://jobs.example.com/login" two_hosts
    ≡ ok accepted
unfolding validate_site_access normalize_hosts
accepts = refl

refuses :
    validate_site_access ascii as_written one_url "https://jobs.example.com/login"
      ("example.com" ∷ [])
    ≡ raise host_not_allowed
unfolding validate_site_access normalize_hosts
refuses = refl

refuses_wildcard : normalize_host as_written ascii "*.example.com" ≡ raise invalid
unfolding normalize_host
refuses_wildcard = refl

refuses_dash : normalize_host as_written ascii "jobs-.example.com" ≡ raise invalid
unfolding normalize_host
refuses_dash = refl

validate_site_access-IsAllowed_example :
    IsAllowed ascii as_written one_url "https://jobs.example.com/login" two_hosts accepted
validate_site_access-IsAllowed_example =
    validate_site_access-IsAllowed ascii as_written one_url "https://jobs.example.com/login"
      two_hosts accepted accepts
