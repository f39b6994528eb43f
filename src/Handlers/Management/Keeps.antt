-- ===== src/Handlers/Management/Keeps.antt =====
-- Responses with an error that leave the store, by the outcome that they are written for.
use gottem_link.Base.{
  ◌≤◌, Str, String, false, not, List, [], ◌∷◌, Result, ok, err, ◌≡◌, refl, sym, ◌∙◌, ap, inl, inr,
  arith, Bool-cases, keep,
}
use gottem_link.Db.Sql.{
  Sqlite, Env, rows_affected, DbError, redirect_not_found, slug_conflict, no_rows, slug_conflicts,
  raw, wrapped,
}
use gottem_link.Db.Store.{Redirect, Store, taken, has_slug}
use gottem_link.Db.Redirects.{update_returning, delete_redirect}
use gottem_link.Db.Redirects.Outcomes.{update-outcome}
use gottem_link.Handlers.Response.{
  Codec, Response, write_redirect_result, write_custom_result, write_deleted,
}
use gottem_link.Handlers.Management.{after_create}

-- What a response with an error leaves.
abbrev pub Keeps : Store → Response × Store → Type 0
Keeps s r = 400 ≤ r.0.status → r.1 ≡ s

abbrev pub FailsClean {ℓ} : {A : Type ℓ} → Store → Result DbError A × Store → Type ℓ
FailsClean s r = (e : DbError) (s' : Store) → r ≡ (err e, s') → s' ≡ s

pub write_redirect_result-Keeps :
    (s : Store) (r : Result DbError Redirect × Store)
    → FailsClean s r
    → Keeps s (write_redirect_result 200 r)
write_redirect_result-Keeps s (ok row, t) h = λ b. ground (arith, b)
write_redirect_result-Keeps s (err redirect_not_found, t) h = λ b. h _ t refl
write_redirect_result-Keeps s (err slug_conflict, t) h = λ b. h _ t refl
write_redirect_result-Keeps s (err no_rows, t) h = λ b. h _ t refl
write_redirect_result-Keeps s (err (slug_conflicts x), t) h = λ b. h _ t refl
write_redirect_result-Keeps s (err raw, t) h = λ b. h _ t refl
write_redirect_result-Keeps s (err (wrapped x), t) h = λ b. h _ t refl

pub write_custom_result-Keeps :
    (codec : Codec) (s : Store) (r : Result DbError Redirect × Store)
    → FailsClean s r
    → Keeps s (write_custom_result codec r)
write_custom_result-Keeps codec s (ok row, t) h = λ b. ground (arith, b)
write_custom_result-Keeps codec s (err redirect_not_found, t) h = λ b. h _ t refl
write_custom_result-Keeps codec s (err slug_conflict, t) h = λ b. h _ t refl
write_custom_result-Keeps codec s (err no_rows, t) h = λ b. h _ t refl
write_custom_result-Keeps codec s (err (slug_conflicts x), t) h = λ b. h _ t refl
write_custom_result-Keeps codec s (err raw, t) h = λ b. h _ t refl
write_custom_result-Keeps codec s (err (wrapped x), t) h = λ b. h _ t refl

pub after_create-Keeps :
    (codec : Codec) (retry : Store → Response × Store) (s : Store)
    (r : Result DbError Redirect × Store)
    → FailsClean s r
    → ((t : Store) → Keeps t (retry t))
    → Keeps s (after_create codec retry r)
after_create-Keeps codec retry s (ok row, t) h k = λ b. ground (arith, b)
after_create-Keeps codec retry s (err slug_conflict, t) h k = λ b. k t b ∙ h _ t refl
after_create-Keeps codec retry s (err redirect_not_found, t) h k = λ b. h _ t refl
after_create-Keeps codec retry s (err no_rows, t) h k = λ b. h _ t refl
after_create-Keeps codec retry s (err (slug_conflicts x), t) h k = λ b. h _ t refl
after_create-Keeps codec retry s (err raw, t) h k = λ b. h _ t refl
after_create-Keeps codec retry s (err (wrapped x), t) h k = λ b. h _ t refl

pub update-FailsClean :
    (q : Sqlite) (env : Env) (message : String) (change : Redirect → Redirect) (slug : Str)
    (s : Store)
    → FailsClean s (update_returning q env message change slug s)
update-FailsClean q env message change slug s e s' h =
    elim (update-outcome q env message change slug s) [
      | inl (f, kept) ↦ ap (λ p. p.1) (sym h ∙ kept)
      | inr (old, found, changed) ↦ cc (h, changed)
    ]

keep_free :
    (q : Sqlite) (slug : Str) (rows : List Redirect)
    → taken q slug rows ≡ false
    → keep (λ r. not (has_slug q slug r)) rows ≡ rows
keep_free q slug [] e = refl
keep_free q slug (r ∷ rows) e = elim (Bool-cases (has_slug q slug r)) [
  | inl f ↦ ground (arith, e, f)
  | inr f ↦ rw f (ap (λ rs. r ∷ rs) (keep_free q slug rows (rw f at e)))
]

-- Where the number of rows is read, a deletion that fails has removed nothing.
pub delete-Keeps :
    (q : Sqlite) (env : Env) (slug : Str) (s : Store)
    → env.fails rows_affected ≡ false
    → Keeps s (write_deleted (delete_redirect q env slug s))
unfolding delete_redirect
delete-Keeps q env slug s counted = elim (Bool-cases (taken q slug s.redirects)) [
  | inl e ↦ λ b. ground (arith, counted, e, b)
  | inr e ↦ λ b. ground (arith, counted, e, keep_free q slug s.redirects e)
]
