-- ===== src/Auth.antt =====
-- src/auth: the credential of a request, and the providers with a fixed token: `AnonymousAuth`,
-- `StaticTokenAuth` and, of src/source/github.rs, `GithubAuth`.
pub mod Confined
use link_r.Prelude.{
  ℕ, ◌+◌, ◌-◌, Bool, false, ◌&&◌, ◌||◌, Option, none, some, Bytes, codes, length, get_elem?, ltb,
  if◌then◌else◌, ◌==◌, bytes_eq, nat_eq,
}
use link_r.External.{UrlApi}
use link_r.Resource.{Resource}
use link_r.Crawl.Scope.{ends_with, byte_is}

pub data Credential : Type 0 where
  anonymous : Credential
  bearer : Bytes → Credential
  header : Bytes → Bytes → Credential
  presigned : Credential

-- `TokenKind`: a bearer token, or a header of a name.
pub data TokenKind : Type 0 where
  as_bearer : TokenKind
  as_header : Bytes → TokenKind

pub record StaticTokenAuth : Type 0 where
  pub kind : TokenKind
  pub token : Bytes
  pub scope_host : Option Bytes

unfoldable pub with_bearer : Bytes → StaticTokenAuth
with_bearer token = record { kind = as_bearer; token = token; scope_host = none }

unfoldable pub bearer_scoped : Bytes → Bytes → StaticTokenAuth
bearer_scoped token host = record { kind = as_bearer; token = token; scope_host = some host }

unfoldable github_pat : Bytes → StaticTokenAuth
unfolding with_bearer
github_pat token = with_bearer token

unfoldable with_header : Bytes → Bytes → StaticTokenAuth
with_header name token = record { kind = as_header name; token = token; scope_host = none }

unfoldable pub host_in_scope : Bytes → Bytes → Bool
host_in_scope host base =
    host == base
    || (ltb (length base) (length host)
        && (ends_with host base && byte_is (get_elem? host (length host - length base - 1)) 46))

-- `is_some_and(|h| host_in_scope(h, scope))`
abbrev pub in_scope : Option Bytes → Bytes → Bool
in_scope none scope = false
in_scope (some h) scope = host_in_scope h scope

-- The credential with the token.
unfoldable pub exposed : TokenKind → Bytes → Credential
exposed as_bearer value = bearer value
exposed (as_header name) value = header name value

pub record GithubAuth : Type 0 where
  pub token : Option Bytes
  pub api_host : Bytes
  pub raw_host : Bytes

unfoldable new : Option Bytes → GithubAuth
new token = record {
  token = token;
  api_host = codes "api.github.com";
  raw_host = codes "raw.githubusercontent.com";
}

unfoldable with_hosts : GithubAuth → Bytes → Bytes → GithubAuth
with_hosts self api_host raw_host = record self { api_host = api_host; raw_host = raw_host }

abbrev pub trusted : GithubAuth → Option Bytes → Bool
trusted self none = false
trusted self (some h) = h == self.api_host || h == self.raw_host

module _ {Url : Type 0} ⦃u : UrlApi Url⦄ where
  unfoldable pub credential : StaticTokenAuth → Resource Url → Credential
  credential self resource = elim self.scope_host [
    | none ↦ exposed self.kind self.token
    | some scope ↦
        if in_scope (u.host_str resource.url) scope then exposed self.kind self.token else anonymous
  ]

  unfoldable pub github_credential : GithubAuth → Resource Url → Credential
  github_credential self resource = elim self.token [
    | none ↦ anonymous
    | some token ↦ if trusted self (u.host_str resource.url) then bearer token else anonymous
  ]
