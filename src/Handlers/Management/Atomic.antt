-- ===== src/Handlers/Management/Atomic.antt =====
-- A request of the management that is answered with an error changes nothing.
use gottem_link.Base.{
  ℕ, zero, suc, ◌≤◌, Str, false, Option, none, some, Result, Unicode, ◌≡◌, refl, sym, ap, inl, inr,
  Option-cases, Result-cases,
}
use gottem_link.Base.Url.{Net}
use gottem_link.Validation.Slug.{validate_slug}
use gottem_link.Validation.Destination.{validate_destination}
use gottem_link.Handlers.Slug.{GenerateError}
use gottem_link.Db.Sql.{Sqlite, Env, rows_affected}
use gottem_link.Db.Store.{Store}
use gottem_link.Db.Redirects.{
  list_redirects, update_redirect, disable_redirect, enable_redirect, set_redirect_expiration,
}
use gottem_link.Db.Redirects.Get.{create_atomic}
use gottem_link.Handlers.Response.{
  CreateRedirectRequest, Method, get_, post, put, delete_, other, Codec, Response,
  validate_expiration,
}
use gottem_link.Handlers.Management.{
  max_generated_slug_attempts, create_custom_redirect, create_generated, create_generated_redirect,
  post_redirect, create_requested, collection_handler, put_redirect, item_handler, disable_handler,
  enable_handler, expiration_of, put_expiration, expiration_handler,
}
use gottem_link.Handlers.Management.Keeps.{
  Keeps, write_redirect_result-Keeps, write_custom_result-Keeps, after_create-Keeps,
  update-FailsClean, delete-Keeps,
}

-- The routes to the handlers of the management that change redirects.
pub data Operation : Type 0 where
  on_collection : Operation
  on_item on_disable on_enable on_expiration : Str → Operation

module _ (uni : Unicode) (net : Net) (codec : Codec) (q : Sqlite) where
  create_custom-Keeps :
      (env : Env) (slug url : Str) (expires_at : Option Str) (s : Store)
      → Keeps s (create_custom_redirect uni net codec q env slug url expires_at s)
  unfolding create_custom_redirect
  create_custom-Keeps env slug url expires_at s = elim (Result-cases (validate_slug uni slug)) [
    | inr (e, h) ↦ rw (create_custom_redirect, h) (λ _. refl)
    | inl (canonical, h) ↦
        rw (create_custom_redirect, h)
          (write_custom_result-Keeps codec s _ (create_atomic q env canonical url expires_at s))
  ]

  put_redirect-Keeps :
      (env : Env) (slug : Str) (url : Option Str) (s : Store)
      → Keeps s (put_redirect uni net codec q env slug url s)
  unfolding put_redirect update_redirect
  put_redirect-Keeps env slug none s = λ _. refl
  put_redirect-Keeps env slug (some url) s =
      elim (Result-cases (validate_destination uni net url)) [
        | inr (e, h) ↦ rw (put_redirect, h) (λ _. refl)
        | inl (destination, h) ↦
            rw (put_redirect, h)
              (write_redirect_result-Keeps s _ (update-FailsClean q env _ _ slug s))
      ]

  put_expiration-Keeps :
      (env : Env) (slug : Str) (value : Option (Option Str)) (s : Store)
      → Keeps s (put_expiration uni net codec q env slug value s)
  unfolding put_expiration set_redirect_expiration
  put_expiration-Keeps env slug none s = λ _. refl
  put_expiration-Keeps env slug (some none) s = λ _. refl
  put_expiration-Keeps env slug (some (some text)) s =
      elim (Option-cases (expiration_of uni net codec q text)) [
        | inl h ↦ rw (put_expiration, h) (λ _. refl)
        | inr (expires_at, h) ↦
            rw (put_expiration, h)
              (write_redirect_result-Keeps s _ (update-FailsClean q env _ _ slug s))
      ]

  item_handler-Keeps :
      (env : Env) (method : Method) (slug body : Str) (s : Store)
      → env.fails rows_affected ≡ false
      → Keeps s (item_handler uni net codec q env method slug body s)
  unfolding item_handler
  item_handler-Keeps env get_ slug body s c =
      write_redirect_result-Keeps s _ (λ e s' h. ap (λ p. p.1) (sym h))
  item_handler-Keeps env put slug body s c = put_redirect-Keeps env slug _ s
  item_handler-Keeps env delete_ slug body s c = delete-Keeps q env slug s c
  item_handler-Keeps env post slug body s c = λ _. refl
  item_handler-Keeps env other slug body s c = λ _. refl

  -- The loop goes on after conflicts only, which have changed nothing.
  create_generated-Keeps :
      (generate : ℕ → Result GenerateError Str) (env : ℕ → Env) (url : Str)
      (expires_at : Option Str) (left i : ℕ) (s : Store)
      → Keeps s (create_generated uni net codec q generate env url expires_at left i s)
  unfolding create_generated
  create_generated-Keeps generate env url expires_at zero i s = λ _. refl
  create_generated-Keeps generate env url expires_at (suc left) i s =
      elim (Result-cases (generate i)) [
        | inr (e, h) ↦ rw (create_generated, h) (λ _. refl)
        | inl (candidate, h) ↦ elim (Result-cases (validate_slug uni candidate)) [
          | inr (e, f) ↦ rw (create_generated, h, f) (λ _. refl)
          | inl (canonical, f) ↦
              rw (create_generated, h, f)
                (after_create-Keeps codec _ s _ (create_atomic q (env i) canonical url expires_at s)
                  (create_generated-Keeps generate env url expires_at left (suc i)))
        ]
      ]

  create_requested-Keeps :
      (generate : ℕ → Result GenerateError Str) (env : ℕ → Env) (slug : Option Str) (url : Str)
      (expires_at : Option Str) (s : Store)
      → Keeps s (create_requested uni net codec q generate env slug url expires_at s)
  unfolding create_requested create_generated_redirect
  create_requested-Keeps generate env none url expires_at s =
      create_generated-Keeps generate env url expires_at max_generated_slug_attempts 0 s
  create_requested-Keeps generate env (some slug) url expires_at s =
      create_custom-Keeps (env 0) slug url expires_at s

  post_redirect-Keeps :
      (generate : ℕ → Result GenerateError Str) (env : ℕ → Env)
      (request : Option CreateRedirectRequest) (s : Store)
      → Keeps s (post_redirect uni net codec q generate env request s)
  unfolding post_redirect
  post_redirect-Keeps generate env none s = λ _. refl
  post_redirect-Keeps generate env (some request) s =
      elim (Result-cases (validate_destination uni net request.url)) [
        | inr (e, h) ↦ rw (post_redirect, h) (λ _. refl)
        | inl (destination, h) ↦
            elim (Option-cases (validate_expiration codec request.expires_at)) [
              | inl f ↦ rw (post_redirect, h, f) (λ _. refl)
              | inr (expires_at, f) ↦
                  rw (post_redirect, h, f)
                    (create_requested-Keeps generate env request.slug destination expires_at s)
            ]
      ]

  collection_handler-Keeps :
      (generate : ℕ → Result GenerateError Str) (env : ℕ → Env) (method : Method) (body : Str)
      (s : Store)
      → Keeps s (collection_handler uni net codec q generate env method body s)
  unfolding collection_handler
  collection_handler-Keeps generate env get_ body s =
      elim (Result-cases (list_redirects q (env 0) s)) [
        | inl (rows, h) ↦ rw (collection_handler, h) (λ _. refl)
        | inr (e, h) ↦ rw (collection_handler, h) (λ _. refl)
      ]
  collection_handler-Keeps generate env post body s = post_redirect-Keeps generate env _ s
  collection_handler-Keeps generate env put body s = λ _. refl
  collection_handler-Keeps generate env delete_ body s = λ _. refl
  collection_handler-Keeps generate env other body s = λ _. refl

  abbrev pub serve :
      (ℕ → Result GenerateError Str)
      → (ℕ → Env)
      → Operation
      → Method
      → Str
      → Store
      → Response × Store
  serve generate env on_collection method body s =
      collection_handler uni net codec q generate env method body s
  serve generate env (on_item slug) method body s =
      item_handler uni net codec q (env 0) method slug body s
  serve generate env (on_disable slug) method body s =
      disable_handler uni net codec q (env 0) method slug s
  serve generate env (on_enable slug) method body s =
      enable_handler uni net codec q (env 0) method slug s
  serve generate env (on_expiration slug) method body s =
      expiration_handler uni net codec q (env 0) method slug body s

  -- Whatever a request of the management holds and whichever calls of the database fail, apart from
  -- reading how many rows a deletion removed: where the response's status is 400 or more, the store
  -- is as it was.
  pub errors_change_nothing :
      (generate : ℕ → Result GenerateError Str) (env : ℕ → Env) (operation : Operation)
      (method : Method) (body : Str) (s : Store)
      → (env 0).fails rows_affected ≡ false
      → 400 ≤ (serve generate env operation method body s).0.status
      → (serve generate env operation method body s).1 ≡ s
  unfolding disable_handler disable_redirect enable_handler enable_redirect expiration_handler
  errors_change_nothing generate env on_collection method body s c =
      collection_handler-Keeps generate env method body s
  errors_change_nothing generate env (on_item slug) method body s c =
      item_handler-Keeps (env 0) method slug body s c
  errors_change_nothing generate env (on_disable slug) post body s c =
      write_redirect_result-Keeps s _ (update-FailsClean q (env 0) _ _ slug s)
  errors_change_nothing generate env (on_disable slug) _ body s c = λ _. refl
  errors_change_nothing generate env (on_enable slug) post body s c =
      write_redirect_result-Keeps s _ (update-FailsClean q (env 0) _ _ slug s)
  errors_change_nothing generate env (on_enable slug) _ body s c = λ _. refl
  errors_change_nothing generate env (on_expiration slug) put body s c =
      put_expiration-Keeps (env 0) slug _ s
  errors_change_nothing generate env (on_expiration slug) _ body s c = λ _. refl
