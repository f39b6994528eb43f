-- ===== src/Handlers/Management/Attempts.antt =====
-- The loop over generated slugs: how its five attempts end.
use gottem_link.Base.{
  ℕ, zero, suc, ◌+◌, ◌<◌, Str, false, not, Option, some, List, [], ◌∷◌, if◌then◌else◌, Result, ok,
  err, Unicode, ◌≡◌, refl, sym, ◌∙◌, inl, inr, arith, Bool-cases, any, subst, ok-injective,
}
use gottem_link.Base.Url.{Net}
use gottem_link.Validation.Slug.{validate_slug}
use gottem_link.Handlers.Slug.{GenerateError, Random, generate_slug}
use gottem_link.Handlers.Slug.Valid.{validate-generate_slug}
use gottem_link.Db.Sql.{Sqlite, Env, slug_conflict, begin, insert, clear_miss, commit}
use gottem_link.Db.Store.{Store, taken, max_count}
use gottem_link.Db.Redirects.{new_row, with_row, no_id_left, create_redirect_with_expiration}
use gottem_link.Db.Redirects.View.{Calm}
use gottem_link.Handlers.Response.{Codec}
use gottem_link.Handlers.Management.{
  max_generated_slug_attempts, create_generated, create_generated_redirect,
}

Calm-create :
    (q : Sqlite) (env : Env) (slug url : Str) (expires_at : Option Str) (s : Store)
    → Calm env
    → s.sequence < max_count
    → create_redirect_with_expiration q env slug url expires_at s ≡ (
        if taken q slug s.redirects then (err slug_conflict, s) else (
          ok (new_row env (s.sequence + 1) slug url expires_at),
          with_row q (new_row env (s.sequence + 1) slug url expires_at) s,
        ))
unfolding create_redirect_with_expiration
Calm-create q env slug url expires_at s calm room = elim (Bool-cases (taken q slug s.redirects)) [
  | inl e ↦ rw (calm begin, calm insert, no_full room, e)
  | inr e ↦ rw (calm begin, calm insert, no_full room, e, calm clear_miss, calm commit)
]
  where
    no_full : s.sequence < max_count → no_id_left s ≡ false
    no_full h = ground arith

-- The attempts from `i` on, of which `left` are left.
abbrev indices : ℕ → ℕ → List ℕ
indices zero i = []
indices (suc left) i = i ∷ indices left (suc i)

abbrev expected_status : Sqlite → (ℕ → Str) → Store → List ℕ → ℕ
expected_status q slugs s is =
    if any (λ i. not (taken q (slugs i) s.redirects)) is then 201 else 409

module _ (uni : Unicode) (net : Net) (codec : Codec) (q : Sqlite) where
  attempts-status :
      (generate : ℕ → Result GenerateError Str) (slugs : ℕ → Str) (env : ℕ → Env) (url : Str)
      (expires_at : Option Str) (left i : ℕ) (s : Store)
      → ((j : ℕ) → generate j ≡ ok (slugs j))
      → ((j : ℕ) → validate_slug uni (slugs j) ≡ ok (slugs j))
      → ((j : ℕ) → Calm (env j))
      → s.sequence < max_count
      → (create_generated uni net codec q generate env url expires_at left i s).0.status
        ≡ expected_status q slugs s (indices left i)
  unfolding create_generated
  attempts-status generate slugs env url expires_at zero i s g v calm room = refl
  attempts-status generate slugs env url expires_at (suc left) i s g v calm room =
      elim (Bool-cases (taken q (slugs i) s.redirects)) [
        | inl e ↦
            rw
              (
                create_generated,
                g i,
                v i,
                Calm-create q (env i) (slugs i) url expires_at s (calm i) room,
                e,
              )
              (attempts-status generate slugs env url expires_at left (suc i) s g v calm room)
        | inr e ↦
            rw
              (
                create_generated,
                g i,
                v i,
                Calm-create q (env i) (slugs i) url expires_at s (calm i) room,
                e,
              )
              refl
      ]

  -- Where the random source does not fail, no call of the database fails and ids are left: the
  -- request for a generated slug is answered with status 201 if one of the five slugs that are
  -- generated is free, and with 409 if none is.
  pub generated_decides :
      (random : ℕ → Random) (slugs : ℕ → Str) (env : ℕ → Env) (url : Str) (expires_at : Option Str)
      (s : Store)
      → ((i : ℕ) → generate_slug (some (random i)) ≡ ok (slugs i))
      → ((i : ℕ) → Calm (env i))
      → s.sequence < max_count
      → (create_generated_redirect uni net codec q
          (λ i. generate_slug (some (random i)))
          env
          url
          expires_at
          s).0.status
        ≡ (if any (λ i. not (taken q (slugs i) s.redirects)) (0 ∷ 1 ∷ 2 ∷ 3 ∷ 4 ∷ [])
            then 201
            else 409)
  unfolding create_generated_redirect
  generated_decides random slugs env url expires_at s g calm room =
      attempts-status _ slugs env url expires_at max_generated_slug_attempts 0 s g valid calm room
    where
      valid : (j : ℕ) → validate_slug uni (slugs j) ≡ ok (slugs j)
      valid j =
          let (c, made, accepted, n) = validate-generate_slug uni (random j) in
          subst (λ x. validate_slug uni x ≡ ok x) (ok-injective (sym made ∙ g j)) accepted
