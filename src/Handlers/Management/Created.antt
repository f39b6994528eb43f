-- ===== src/Handlers/Management/Created.antt =====
-- What a request that creates a redirect has done when its response says so.
use gottem_link.Base.{
  ℕ, zero, suc, Str, Option, none, some, Result, ok, err, Unicode, ◌≡◌, refl, sym, ◌∙◌, ap, inl,
  inr, arith, Option-cases, Result-cases, subst,
}
use gottem_link.Base.Url.{Net}
use gottem_link.Validation.Slug.{validate_slug}
use gottem_link.Validation.Slug.Canonical.{validate_slug-lower}
use gottem_link.Validation.Destination.{validate_destination}
use gottem_link.Handlers.Slug.{GenerateError}
use gottem_link.Db.Sql.{
  Sqlite, SqliteLaws, Env, DbError, redirect_not_found, slug_conflict, no_rows, slug_conflicts, raw,
  wrapped,
}
use gottem_link.Db.Store.{Redirect, Store}
use gottem_link.Db.Redirects.{create_redirect_with_expiration}
use gottem_link.Db.Redirects.Get.{Shows, get-create, create_atomic}
use gottem_link.Handlers.Response.{
  Codec, Response, one_redirect, post, decode_management_json, validate_expiration,
  write_custom_result, CreateRedirectRequest,
}
use gottem_link.Handlers.Management.Keeps.{FailsClean}
use gottem_link.Handlers.Management.{
  max_generated_slug_attempts, after_create, create_custom_redirect, create_generated,
  create_generated_redirect, create_requested, post_redirect, collection_handler,
}

-- A response with status 201 comes with the row that it holds, which the store now shows.
abbrev Creates : Unicode → Sqlite → Env → Str → Str → Option Str → Store → Response × Store → Type 0
Creates uni q reader t url expires_at s r =
    r.0.status ≡ 201
    → (row : Redirect) × (r.0.body ≡ one_redirect row)
      × (validate_slug uni row.slug ≡ ok row.slug)
      × (row.url ≡ url)
      × (row.expires_at ≡ expires_at)
      × (row.disabled_at ≡ none)
      × Shows q reader t row.slug row s r.1

-- What a creation that succeeds has done.
abbrev Made :
    Unicode
    → Sqlite
    → Env
    → Str
    → Str
    → Option Str
    → Store
    → Result DbError Redirect × Store
    → Type 0
Made uni q reader t url expires_at s r =
    (row : Redirect) (s' : Store)
    → r ≡ (ok row, s')
    → (validate_slug uni row.slug ≡ ok row.slug)
      × (row.url ≡ url)
      × (row.expires_at ≡ expires_at)
      × (row.disabled_at ≡ none)
      × Shows q reader t row.slug row s s'

module _ (uni : Unicode) (net : Net) (codec : Codec) (q : Sqlite) (laws : SqliteLaws q)
    (reader : Env) (t : Str) where
  create-Made :
      (env : Env) (canonical url : Str) (expires_at : Option Str) (s : Store)
      → validate_slug uni canonical ≡ ok canonical
      → Made uni q reader t url expires_at s
          (create_redirect_with_expiration q env canonical url expires_at s)
  create-Made env canonical url expires_at s v row s' e =
      let (shown, (a, b, c, d, f, n), gone) =
        get-create q laws env reader t canonical url expires_at s s' row e in
      (
        subst (λ x. validate_slug uni x ≡ ok x) (sym a) v,
        b,
        c,
        d,
        subst (λ x. Shows q reader t x row s s') (sym a) shown,
      )

  custom-Creates :
      (url : Str) (expires_at : Option Str) (s : Store) (r : Result DbError Redirect × Store)
      → Made uni q reader t url expires_at s r
      → Creates uni q reader t url expires_at s (write_custom_result codec r)
  custom-Creates url expires_at s (ok row, s') m =
      λ _. (let (a, b, c, d, f) = m row s' refl in (row, refl, a, b, c, d, f))
  custom-Creates url expires_at s (err redirect_not_found, s') m = λ h. ground (arith, h)
  custom-Creates url expires_at s (err slug_conflict, s') m = λ h. ground (arith, h)
  custom-Creates url expires_at s (err no_rows, s') m = λ h. ground (arith, h)
  custom-Creates url expires_at s (err (slug_conflicts x), s') m = λ h. ground (arith, h)
  custom-Creates url expires_at s (err raw, s') m = λ h. ground (arith, h)
  custom-Creates url expires_at s (err (wrapped x), s') m = λ h. ground (arith, h)

  after_create-Creates :
      (retry : Store → Response × Store) (url : Str) (expires_at : Option Str) (s : Store)
      (r : Result DbError Redirect × Store)
      → Made uni q reader t url expires_at s r
      → FailsClean s r
      → Creates uni q reader t url expires_at s (retry s)
      → Creates uni q reader t url expires_at s (after_create codec retry r)
  after_create-Creates retry url expires_at s (ok row, s') m c k =
      λ _. (let (a, b, c, d, f) = m row s' refl in (row, refl, a, b, c, d, f))
  after_create-Creates retry url expires_at s (err slug_conflict, s') m c k =
      subst (λ x. Creates uni q reader t url expires_at s (retry x)) (sym (c _ s' refl)) k
  after_create-Creates retry url expires_at s (err redirect_not_found, s') m c k =
      λ h. ground (arith, h)
  after_create-Creates retry url expires_at s (err no_rows, s') m c k = λ h. ground (arith, h)
  after_create-Creates retry url expires_at s (err (slug_conflicts x), s') m c k =
      λ h. ground (arith, h)
  after_create-Creates retry url expires_at s (err raw, s') m c k = λ h. ground (arith, h)
  after_create-Creates retry url expires_at s (err (wrapped x), s') m c k = λ h. ground (arith, h)

  create_generated-Creates :
      (generate : ℕ → Result GenerateError Str) (env : ℕ → Env) (url : Str)
      (expires_at : Option Str) (left i : ℕ) (s : Store)
      → Creates uni q reader t url expires_at s
          (create_generated uni net codec q generate env url expires_at left i s)
  unfolding create_generated
  create_generated-Creates generate env url expires_at zero i s = λ h. ground (arith, h)
  create_generated-Creates generate env url expires_at (suc left) i s =
      elim (Result-cases (generate i)) [
        | inr (e, h) ↦ rw (create_generated, h) (λ h. ground (arith, h))
        | inl (candidate, h) ↦ elim (Result-cases (validate_slug uni candidate)) [
          | inr (e, f) ↦ rw (create_generated, h, f) (λ h. ground (arith, h))
          | inl (canonical, f) ↦
              rw (create_generated, h, f)
                (after_create-Creates _ url expires_at s _
                  (create-Made (env i) canonical url expires_at s
                    (validate_slug-lower uni candidate candidate canonical f refl).1)
                  (create_atomic q (env i) canonical url expires_at s)
                  (create_generated-Creates generate env url expires_at left (suc i) s))
        ]
      ]

  create_custom-Creates :
      (env : Env) (slug url : Str) (expires_at : Option Str) (s : Store)
      → Creates uni q reader t url expires_at s
          (create_custom_redirect uni net codec q env slug url expires_at s)
  unfolding create_custom_redirect
  create_custom-Creates env slug url expires_at s = elim (Result-cases (validate_slug uni slug)) [
    | inr (e, f) ↦ rw (create_custom_redirect, f) (λ h. ground (arith, h))
    | inl (canonical, f) ↦
        rw (create_custom_redirect, f)
          (custom-Creates url expires_at s _ (
            create-Made env canonical url expires_at s
              (validate_slug-lower uni slug slug canonical f refl).1))
  ]

  create_requested-Creates :
      (generate : ℕ → Result GenerateError Str) (env : ℕ → Env) (slug : Option Str) (url : Str)
      (expires_at : Option Str) (s : Store)
      → Creates uni q reader t url expires_at s
          (create_requested uni net codec q generate env slug url expires_at s)
  unfolding create_requested create_generated_redirect
  create_requested-Creates generate env none url expires_at s =
      create_generated-Creates generate env url expires_at max_generated_slug_attempts 0 s
  create_requested-Creates generate env (some slug) url expires_at s =
      create_custom-Creates (env 0) slug url expires_at s

  abbrev Served : Option CreateRedirectRequest → Store → Response × Store → Type 0
  Served request s r =
      r.0.status ≡ 201
      → (value : CreateRedirectRequest) × (row : Redirect) × (request ≡ some value)
        × (r.0.body ≡ one_redirect row)
        × (validate_slug uni row.slug ≡ ok row.slug)
        × (validate_destination uni net value.url ≡ ok row.url)
        × (validate_expiration codec value.expires_at ≡ some row.expires_at)
        × (row.disabled_at ≡ none)
        × Shows q reader t row.slug row s r.1

  Served-of_Creates :
      (value : CreateRedirectRequest) (url : Str) (expires_at : Option Str) (s : Store)
      (r : Response × Store)
      → validate_destination uni net value.url ≡ ok url
      → validate_expiration codec value.expires_at ≡ some expires_at
      → Creates uni q reader t url expires_at s r
      → Served (some value) s r
  Served-of_Creates value url expires_at s r h f k created =
      let (row, body, v, u, x, d, shown) = k created in
      (value, row, refl, body, v, h ∙ ap ok (sym u), f ∙ ap some (sym x), d, shown)

  post_redirect-Served :
      (generate : ℕ → Result GenerateError Str) (env : ℕ → Env)
      (request : Option CreateRedirectRequest) (s : Store)
      → Served request s (post_redirect uni net codec q generate env request s)
  unfolding post_redirect
  post_redirect-Served generate env none s = λ h. ground (arith, h)
  post_redirect-Served generate env (some request) s =
      elim (Result-cases (validate_destination uni net request.url)) [
        | inr (e, h) ↦ rw (post_redirect, h) (λ h. ground (arith, h))
        | inl (destination, h) ↦
            elim (Option-cases (validate_expiration codec request.expires_at)) [
              | inl f ↦ rw (post_redirect, h, f) (λ h. ground (arith, h))
              | inr (expires_at, f) ↦
                  rw (post_redirect, h, f)
                    (Served-of_Creates request destination expires_at s
                      (create_requested uni net codec q generate env request.slug destination
                        expires_at s)
                      h f
                      (create_requested-Creates generate env request.slug destination expires_at s))
            ]
      ]

  -- The row that a response with status 201 to a request to create a redirect holds has a slug that
  -- validation accepts as it stands, the destination of the request, which validation accepts, and
  -- its expiration, and is enabled. After it every spelling of the slug shows this row, and other
  -- slugs show what they showed.
  pub collection_handler-created :
      (generate : ℕ → Result GenerateError Str) (env : ℕ → Env) (body : Str) (s : Store)
      → (collection_handler uni net codec q generate env post body s).0.status ≡ 201
      → (request : CreateRedirectRequest) × (row : Redirect) × (decode_management_json codec
            codec.decode_create body
          ≡ some request)
        × ((collection_handler uni net codec q generate env post body s).0.body ≡ one_redirect row)
        × (validate_slug uni row.slug ≡ ok row.slug)
        × (validate_destination uni net request.url ≡ ok row.url)
        × (validate_expiration codec request.expires_at ≡ some row.expires_at)
        × (row.disabled_at ≡ none)
        × Shows q reader t row.slug row s
            (collection_handler uni net codec q generate env post body s).1
  unfolding collection_handler
  collection_handler-created generate env body s = post_redirect-Served generate env _ s
