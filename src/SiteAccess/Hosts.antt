-- ===== src/SiteAccess/Hosts.antt =====
-- domain/site_access.py: normalize_host, and the set of hosts in order.
use Prim.Native.Char.{Char, code}
use job_searching_assistant.Prelude.{
  insert_text, Bool, ◌||◌, not, Option, List, [], ◌∷◌, String, ltb, any, elem, string_eq, nat_eq,
  if◌then◌else◌, Result, ok, ◌>>=◌, ◌>>◌, raise_if, some_or,
}
use job_searching_assistant.SiteAccess.Text.{
  Unicode, strip, text_length, is_text, any_char, ends_with, starts_with, is_dot, is_dash,
  drop_last, split_dots, join_dots,
}

-- InvalidSiteAccess, with its message.
pub data InvalidSiteAccess : Type 0 where
  invalid host_not_allowed : InvalidSiteAccess

-- `label.encode("idna").decode("ascii").casefold()`, which may raise.
pub record Idna : Type 0 where
  pub encoded : String → Option String

-- The characters of "/\\*:@?#[]".
abbrev pub is_delimiter : Char → Bool
is_delimiter c = elem (code c) (b'/' ∷ b'\\' ∷ b'*' ∷ b':' ∷ b'@' ∷ b'?' ∷ b'#' ∷ b'[' ∷ b']' ∷ [])

abbrev pub is_bad_label : String → Bool
is_bad_label label =
    not (is_text label)
    || ltb 63 (text_length label)
    || starts_with is_dash label
    || ends_with is_dash label

-- Without the dot at the end.
abbrev pub without_dot : String → String
without_dot host = if ends_with is_dot host then drop_last host else host

module _ (idna : Idna) where
  -- `[... for label in source_labels]`, of a call that may raise
  unfoldable pub encode_labels : List String → Result InvalidSiteAccess (List String)
  encode_labels [] = ok []
  encode_labels (label ∷ labels) = some_or (idna.encoded label) invalid >>= λ encoded.
      encode_labels labels >>= λ rest. ok (encoded ∷ rest)

  unfoldable pub join_labels : List String → Result InvalidSiteAccess String
  join_labels labels =
      raise_if (any is_bad_label labels) invalid
      >> (let normalized = join_dots labels in
          raise_if (ltb 253 (text_length normalized)) invalid >> ok normalized)

  unfoldable pub normalize_labels : List String → Result InvalidSiteAccess String
  unfolding encode_labels join_labels
  normalize_labels labels =
      raise_if (any (λ l. not (is_text l)) labels) invalid >> (encode_labels labels >>= join_labels)

  unfoldable pub normalize_host : Unicode → String → Result InvalidSiteAccess String
  unfolding normalize_labels
  normalize_host unicode value =
      let host = strip unicode value in
      raise_if (not (is_text host) || ltb 253 (text_length host) || any_char unicode.is_space host)
        invalid
      >> (raise_if (not (is_text (without_dot host)) || any_char is_delimiter (without_dot host))
            invalid
          >> normalize_labels (split_dots (without_dot host)))

  unfoldable pub normalize_hosts : Unicode → List String → Result InvalidSiteAccess (List String)
  unfolding normalize_host
  normalize_hosts unicode [] = ok []
  normalize_hosts unicode (host ∷ hosts) = normalize_host unicode host >>= λ normalized.
      normalize_hosts unicode hosts >>= λ rest. ok (insert_text normalized rest)
