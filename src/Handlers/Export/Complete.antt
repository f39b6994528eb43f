-- ===== src/Handlers/Export/Complete.antt =====
-- An export that succeeds holds every redirect.
use gottem_link.Base.{
  not, ◌||◌, ◌+◌, ◌≤◌, Str, Option, none, some, is_some, List, [], ◌∷◌, ◌++◌, Result, ok, err,
  ◌>>=◌, length, Unicode, ◌≡◌, refl, ap, arith, inl, inr, Bool-cases, ok-injective, subst,
}
use gottem_link.Base.Int.{pos}
use gottem_link.Backup
use gottem_link.Db.Sql.{Sqlite, Env, DbError}
use gottem_link.Db.Store.{Redirect, Store}
use gottem_link.Db.Redirects.{list_redirects}
use gottem_link.Handlers.Response.{Codec, get_}
use gottem_link.Handlers.Transfer.{portable_timestamp, portable_optional_timestamp}
use gottem_link.Backup.Decode.{max_bytes}
use gottem_link.Handlers.Export.{
  ExportError, internal_error, invalid_lifecycle_timestamp, invalid_usage_timestamp, or_error,
  export_redirect, export_redirects, sized, listed, export_handler,
}

-- What an exported redirect keeps of the row.
abbrev pub Carries : Redirect → Backup.Redirect → Type 0
Carries row r =
    (r.slug ≡ row.slug)
    × (r.url ≡ row.url)
    × (r.disabled ≡ is_some row.disabled_at)
    × (r.click_count ≡ pos row.click_count)
    × (is_some r.last_accessed_at ≡ is_some row.last_accessed_at)
    × (is_some r.expires_at ≡ is_some row.expires_at)

pub data CarriesAll : List Redirect → List Backup.Redirect → Type 0 where
  carries_none : CarriesAll [] []
  carries_next :
      {row : Redirect} {r : Backup.Redirect} {rows : List Redirect} {rs : List Backup.Redirect}
      → Carries row r
      → CarriesAll rows rs
      → CarriesAll (row ∷ rows) (r ∷ rs)

bind_ok :
    {A B : Type 0} (m : Result ExportError A) (f : A → Result ExportError B) {b : B}
    → (m >>= f) ≡ ok b
    → (a : A) × (f a ≡ ok b) × (m ≡ ok a)
bind_ok (err e) f h = cc
bind_ok (ok a) f h = (a, h, refl)

or_error_ok :
    {A : Type 0} (e : ExportError) (o : Option A) (a : A) → or_error e o ≡ ok a → o ≡ some a
or_error_ok e none a h = cc
or_error_ok e (some b) a h = ap some (ok-injective h)

portable-is_some :
    (codec : Codec) (o r : Option Str)
    → portable_optional_timestamp codec o ≡ some r
    → is_some r ≡ is_some o
unfolding portable_optional_timestamp
portable-is_some codec none none h = refl
portable-is_some codec none (some t) h = cc
portable-is_some codec (some v) (some t) h = refl
portable-is_some codec (some v) none h = ground (arith, h)

export_redirect-Carries :
    (uni : Unicode) (codec : Codec) (row : Redirect) (r : Backup.Redirect)
    → export_redirect uni codec row ≡ ok r
    → Carries row r
unfolding export_redirect
export_redirect-Carries uni codec row r h =
    elim (Bool-cases (not (is_some (uni.decode row.slug)) || not (is_some (uni.decode row.url)))) [
      | inl e ↦ ground (arith, e, h)
      | inr e ↦
          let (updated, h1, e1) =
            bind_ok
              (or_error invalid_lifecycle_timestamp
                (portable_timestamp codec row.destination_updated_at))
              _ (rw (export_redirect, e) at h) in
          let (expires, h2, e2) =
            bind_ok
              (or_error invalid_lifecycle_timestamp
                (portable_optional_timestamp codec row.expires_at))
              _ h1 in
          let (last, h3, e3) =
            bind_ok
              (or_error invalid_usage_timestamp
                (portable_optional_timestamp codec row.last_accessed_at))
              _ h2 in
          subst (Carries row) (ok-injective h3) (
            refl,
            refl,
            refl,
            refl,
            portable-is_some codec row.last_accessed_at last (or_error_ok _ _ last e3),
            portable-is_some codec row.expires_at expires (or_error_ok _ _ expires e2),
          )
    ]

export_redirects-CarriesAll :
    (uni : Unicode) (codec : Codec) (rows : List Redirect) (rs : List Backup.Redirect)
    → export_redirects uni codec rows ≡ ok rs
    → CarriesAll rows rs
unfolding export_redirects
export_redirects-CarriesAll uni codec [] [] h = carries_none
export_redirects-CarriesAll uni codec [] (r ∷ rs) h = cc
export_redirects-CarriesAll uni codec (row ∷ rows) rs h =
    let (r, more, first) = bind_ok (export_redirect uni codec row) _ h in
    let (rest, whole, others) = bind_ok (export_redirects uni codec rows) _ more in
    subst (CarriesAll (row ∷ rows)) (ok-injective whole) (
      carries_next (export_redirect-Carries uni codec row r first)
        (export_redirects-CarriesAll uni codec rows rest others))

sized_ok :
    (payload body : Str)
    → sized payload ≡ ok body
    → (body ≡ payload ++ (10 ∷ [])) × (length payload + 1 ≤ max_bytes)
sized_ok payload body h = ground (arith, h)

listed_ok :
    (r : Result DbError (List Redirect)) (rows : List Redirect) → listed r ≡ ok rows → r ≡ ok rows
listed_ok (err e) rows h = cc
listed_ok (ok xs) rows h = ap ok (ok-injective h)

-- The body of an export that succeeds is a backup of the current version, as it is marshalled, and a
-- line feed, within 1 MiB. The backup has a redirect for each row that is listed, in its order, with
-- the slug, the destination, whether it is disabled, the count, and whether it has a last access and
-- an expiration.
pub export_handler-CarriesAll :
    (uni : Unicode) (codec : Codec) (marshal : Backup.Envelope → Option Str) (q : Sqlite)
    (env : Env) (s : Store) (body : Str)
    → export_handler uni codec marshal q env get_ s ≡ ok body
    → (rows : List Redirect) × (redirects : List Backup.Redirect) × (payload : Str)
      × (list_redirects q env s ≡ ok rows)
      × CarriesAll rows redirects
      × (marshal (record { version = Backup.version; redirects = redirects }) ≡ some payload)
      × (body ≡ payload ++ (10 ∷ []))
      × (length payload + 1 ≤ max_bytes)
unfolding export_handler
export_handler-CarriesAll uni codec marshal q env s body h =
    let (rows, h1, e1) = bind_ok (listed (list_redirects q env s)) _ h in
    let (redirects, h2, e2) = bind_ok (export_redirects uni codec rows) _ h1 in
    let (payload, h3, e3) =
      bind_ok
        (or_error internal_error
          (marshal (record { version = Backup.version; redirects = redirects })))
        _ h2 in
    let (whole, short) = sized_ok payload body h3 in
    (
      rows,
      redirects,
      payload,
      listed_ok (list_redirects q env s) rows e1,
      export_redirects-CarriesAll uni codec rows redirects e2,
      or_error_ok _ _ payload e3,
      whole,
      short,
    )
