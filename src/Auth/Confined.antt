-- ===== src/Auth/Confined.antt =====
-- Where the providers with a fixed token send it (src/auth/static_token.rs).
use link_r.Prelude.{
  ◌≡◌, ◌≢◌, refl, sym, ap, ◌∙◌, ◌↔◌, inl, inr, Bool, true, false, Option, none, some, Bytes,
  Bool-cases, arith,
}
use link_r.External.{UrlApi}
use link_r.Resource.{Resource}
use link_r.Crawl.Scope.{host_under}
use link_r.Crawl.Scope.Hosts.{InDomain, host_under_iff}
use link_r.Auth.{
  Credential, StaticTokenAuth, TokenKind, exposed, credential, host_in_scope, in_scope,
}

-- A host that is there, and is the base or a subdomain of it.
abbrev pub HostInDomain : Option Bytes → Bytes → Type 0
HostInDomain host base = (h : Bytes) × (host ≡ some h) × InDomain base h

host_in_scope_lem : (host base : Bytes) → host_in_scope host base ≡ host_under host base
unfolding host_in_scope host_under
host_in_scope_lem host base = refl

in_scope_iff :
    (host : Option Bytes) (base : Bytes) → (in_scope host base ≡ true) ↔ HostInDomain host base
in_scope_iff none base = (λ e. ground arith, λ d. ground arith)
in_scope_iff (some h) base = (
  λ e. (h, refl, (host_under_iff h base).0 (sym (host_in_scope_lem h base) ∙ e)),
  λ d.
      let (k, same, within) = d in
      let here : h ≡ k = cc in
      ap (λ x. in_scope (some x) base) here
      ∙ (host_in_scope_lem k base ∙ (host_under_iff k base).1 within),
)

abbrev is_anonymous : Credential → Bool
is_anonymous Credential.anonymous = true
is_anonymous _ = false

exposed-is_anonymous :
    (kind : TokenKind) (token : Bytes) → is_anonymous (exposed kind token) ≡ false
unfolding exposed
exposed-is_anonymous TokenKind.as_bearer token = refl
exposed-is_anonymous (TokenKind.as_header name) token = refl

false_ne_true : (false ≢ true)
false_ne_true e = ground arith

module _ {Url : Type 0} ⦃u : UrlApi Url⦄ where
  -- A provider with a scope sends its token with a request exactly when the host of the request is
  -- that of the scope or a subdomain of it, and sends no credential otherwise.
  pub credential_scoped :
      (self : StaticTokenAuth) (scope : Bytes) (resource : Resource Url)
      → self.scope_host ≡ some scope
      → ((credential self resource ≡ exposed self.kind self.token)
          ↔ HostInDomain (u.host_str resource.url) scope)
        × ((credential self resource ≢ exposed self.kind self.token)
            → credential self resource ≡ Credential.anonymous)
  unfolding credential
  credential_scoped self scope resource e =
      let sent : Credential = exposed self.kind self.token in
      let apart : sent ≢ Credential.anonymous = λ same.
        false_ne_true (sym (exposed-is_anonymous self.kind self.token) ∙ ap is_anonymous same) in
      let test = in_scope_iff (u.host_str resource.url) scope in
      elim (Bool-cases (in_scope (u.host_str resource.url) scope)) [
        | inl within ↦
            let now : credential self resource ≡ sent = rw (e, within) refl in
            ((λ same. test.0 within, λ d. now), λ differs. absurd (differs now))
        | inr beyond ↦
            let now : credential self resource ≡ Credential.anonymous = rw (e, beyond) refl in
            (
              (
                λ same. absurd (apart (sym same ∙ now)),
                λ d. absurd (false_ne_true (sym beyond ∙ test.1 d)),
              ),
              λ differs. now,
            )
      ]
