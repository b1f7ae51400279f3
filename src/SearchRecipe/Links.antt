-- ===== src/SearchRecipe/Links.antt =====
-- domain/search_recipe.py: which links of a page of results are followed.
use job_searching_assistant.Prelude.{
  ◌≡◌, refl, Bool, true, false, ◌&&◌, ◌||◌, not, Option, some, none, List, String, ◌==◌, string_eq,
  if◌then◌else◌, Result, ok, raise, arith,
}
use job_searching_assistant.SiteAccess.{SplitResult, UrlLibrary}
use job_searching_assistant.SiteAccess.Text.{Unicode, strip}
use job_searching_assistant.SearchRecipe.{
  MalformedUrl, malformed_url, LinkLibrary, has_text, is_allowed_host, is_no_link, is_safe_link,
  resolve_hit_url,
}

abbrev hit_of : Option String → Result MalformedUrl (Option String)
hit_of hit = ok hit

chosen :
    (b : Bool) (address url : String)
    → (if b then ok (some address) else ok none) ≡ hit_of (some url)
    → (b ≡ true) × (url ≡ address)
chosen true address url h = (refl, cc)
chosen false address url h = cc

-- What the tests of a link, its URL and the URL's tests leave, when the result is an address.
followed :
    (no_link : Bool) (parsed : Option SplitResult) (is_safe : SplitResult → Bool)
    (address : SplitResult → String) (url : String)
    → (if no_link then ok none else elim parsed [
      | none ↦ raise malformed_url
      | some absolute ↦ if is_safe absolute then ok (some (address absolute)) else ok none
    ])
      ≡ ok (some url)
    → (absolute : SplitResult) × (no_link ≡ false)
      × (parsed ≡ some absolute)
      × (is_safe absolute ≡ true)
      × (url ≡ address absolute)
followed true parsed is_safe address url h = absurd (ground arith)
followed false none is_safe address url h = absurd (ground arith)
followed false (some absolute) is_safe address url h =
    let (safe, built) = chosen (is_safe absolute) (address absolute) url h in
    (absolute, refl, refl, safe, built)

module _ (unicode : Unicode) (lower : String → String) (urls : UrlLibrary) where
  -- An address that may be followed: the joined URL, which is https without credentials and on an
  -- allowed host, less its fragment.
  pub record IsHit (links : LinkLibrary) (base_url href : String) (allowed_hosts : List String)
      (url : String) : Type 0 where
    pub absolute : SplitResult
    pub is_link : is_no_link (strip unicode href) ≡ false
    pub is_parsed : urls.urlsplit (links.urljoin base_url (strip unicode href)) ≡ some absolute
    pub is_https : (absolute.scheme == "https") ≡ true
    pub no_username : has_text absolute.username ≡ false
    pub no_password : has_text absolute.password ≡ false
    pub on_allowed_host : is_allowed_host unicode lower urls absolute.hostname allowed_hosts ≡ true
    pub without_fragment : url ≡ links.without_fragment absolute

  tests-hold :
      (https user pass host : Bool)
      → (https && not (user || pass) && host) ≡ true
      → (https ≡ true) × (user ≡ false) × (pass ≡ false) × (host ≡ true)
  tests-hold https user pass host h = ground arith

  -- If a link of a page of results yields an address, then the link is not empty and no anchor,
  -- script, mail or telephone link, and the address is the URL that the link names from the base URL,
  -- less its fragment, which is https, has no credentials and is on an allowed host.
  pub resolve_hit_url-IsHit :
      (links : LinkLibrary) (base_url href : String) (allowed_hosts : List String) (url : String)
      → resolve_hit_url unicode lower urls links base_url href allowed_hosts ≡ ok (some url)
      → IsHit links base_url href allowed_hosts url
  unfolding resolve_hit_url
  resolve_hit_url-IsHit links base_url href hosts url h =
      let (absolute, link, parsed, safe, built) =
        followed (is_no_link (strip unicode href))
          (urls.urlsplit (links.urljoin base_url (strip unicode href)))
          (λ a. is_safe_link unicode lower urls a hosts) (λ a. links.without_fragment a) url h in
      let (https, user, pass, host) = tests-hold _ _ _ _ safe in
      record {
        absolute = absolute;
        is_link = link;
        is_parsed = parsed;
        is_https = https;
        no_username = user;
        no_password = pass;
        on_allowed_host = host;
        without_fragment = built;
      }
