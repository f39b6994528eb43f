-- ===== src/Backup/Validated.antt =====
-- What a backup that passes validation guarantees.
use gottem_link.Base.{
  ℕ, suc, Str, Bool, true, false, not, Option, none, some, is_some, List, [], ◌∷◌, ◌++◌,
  if◌then◌else◌, is_empty, any, All, Pairs, ◌≡◌, refl, sym, ◌∙◌, ap, arith, inl, inr, Bool-cases,
}
use gottem_link.Backup.{
  version, Redirect, Issue, SqliteNocaseKey, sqlite_nocase, same_key, issue_if, is_negative_count,
  is_zero_count, differ, unreadable_time, slug_issues, see, round_issues, issues_from, validate,
}

-- A redirect in which nothing of the current version is amiss.
pub record IsSane (readable : Str → Bool) (r : Redirect) : Type 0 where
  pub named : is_empty r.slug ≡ false
  pub directed : is_empty r.url ≡ false
  pub expires : unreadable_time readable r.expires_at ≡ false
  pub updated : readable r.destination_updated_at ≡ true
  pub counted : is_negative_count r.click_count ≡ false
  pub used : is_zero_count r.click_count ≡ not (is_some r.last_accessed_at)
  pub accessed : unreadable_time readable r.last_accessed_at ≡ false

append_nil : {A : Type 0} (xs ys : List A) → xs ++ ys ≡ [] → (xs ≡ []) × (ys ≡ [])
append_nil [] ys h = (refl, h)
append_nil (x ∷ xs) ys h = cc

issue_if_nil :
    (b : Bool) (index : ℕ) (field message : Str) → issue_if b index field message ≡ [] → b ≡ false
issue_if_nil true index field message h = cc
issue_if_nil false index field message h = refl

abbrev Unseen : List SqliteNocaseKey → Redirect → Type 0
Unseen seen r = any (λ k. same_key k (sqlite_nocase r.slug)) seen ≡ false

slug_issues_nil :
    (index : ℕ) (seen : List SqliteNocaseKey) (r : Redirect)
    → slug_issues index seen r ≡ []
    → (is_empty r.slug ≡ false) × Unseen seen r
slug_issues_nil index seen r h = elim (Bool-cases (is_empty r.slug)) [
  | inl e ↦ ground (arith, h, e)
  | inr e ↦ (e, issue_if_nil _ _ _ _ (rw e at h))
]

same_bit :
    (a b : Bool) (index : ℕ) (field message : Str)
    → issue_if (differ a b) index field message ≡ []
    → a ≡ b
same_bit true true index field message h = refl
same_bit true false index field message h = cc
same_bit false true index field message h = cc
same_bit false false index field message h = refl

round-IsSane :
    (readable : Str → Bool) (index : ℕ) (seen : List SqliteNocaseKey) (r : Redirect)
    → round_issues readable version index seen r ≡ []
    → IsSane readable r × Unseen seen r
unfolding round_issues
round-IsSane readable index seen r h =
    let (s, rest) = append_nil _ _ h in
    let (u, times) = append_nil _ _ rest in
    let (life, usage) = append_nil _ _ times in
    let (ex, up) = append_nil _ _ life in
    let (neg, more) = append_nil _ _ usage in
    let (bits, last) = append_nil _ _ more in
    let (named, unseen) = slug_issues_nil index seen r s in
    let updated = issue_if_nil _ _ _ _ up in
    (
      record {
        named = named;
        directed = issue_if_nil _ _ _ _ u;
        expires = issue_if_nil _ _ _ _ ex;
        updated = ground (arith, updated);
        counted = issue_if_nil _ _ _ _ neg;
        used = same_bit _ _ _ _ _ bits;
        accessed = issue_if_nil _ _ _ _ last;
      },
      unseen,
    )

see_lem :
    (seen : List SqliteNocaseKey) (r : Redirect)
    → is_empty r.slug ≡ false
    → Unseen seen r
    → see seen r ≡ sqlite_nocase r.slug ∷ seen
see_lem seen r e f = rw (e, f) refl

abbrev pub Distinct : Redirect → Redirect → Type 0
Distinct a b = same_key (sqlite_nocase a.slug) (sqlite_nocase b.slug) ≡ false

split-Unseen :
    (k : SqliteNocaseKey) (seen : List SqliteNocaseKey) (rs : List Redirect)
    → All (Unseen (k ∷ seen)) rs
    → All (λ r. same_key k (sqlite_nocase r.slug) ≡ false) rs × All (Unseen seen) rs
split-Unseen k seen [] h = (tt, tt)
split-Unseen k seen (r ∷ rs) (h, hs) =
    let (a, b) = split-Unseen k seen rs hs in ((ground (arith, h), a), (ground (arith, h), b))

issues-IsSane :
    (readable : Str → Bool) (index : ℕ) (seen : List SqliteNocaseKey) (rs : List Redirect)
    → issues_from readable version index seen rs ≡ []
    → All (IsSane readable) rs × All (Unseen seen) rs × Pairs Distinct rs
unfolding issues_from
issues-IsSane readable index seen [] h = (tt, tt, tt)
issues-IsSane readable index seen (r ∷ rs) h =
    let (now, later) = append_nil _ _ h in
    let (sane, unseen) = round-IsSane readable index seen r now in
    let (sanes, unseens, pairs) =
      issues-IsSane readable (suc index) (sqlite_nocase r.slug ∷ seen) rs (
        ap (λ k. issues_from readable version (suc index) k rs)
          (sym (see_lem seen r sane.named unseen))
        ∙ later) in
    let (apart, fresh) = split-Unseen (sqlite_nocase r.slug) seen rs unseens in
    ((sane, sanes), (unseen, fresh), (apart, pairs))

empty-nil : {A : Type 0} (xs : List A) → is_empty xs ≡ true → xs ≡ []
empty-nil [] h = refl
empty-nil (x ∷ xs) h = cc

-- In a backup of the current version that passes validation every redirect has a slug and a
-- destination, times that can be read and a count that is not negative, and has a last access exactly
-- where its count is not zero; no two slugs have the same key, which folds ASCII letters.
pub validate-IsSane :
    (readable : Str → Bool) (rs : List Redirect)
    → validate readable (record { version = version; redirects = rs }) ≡ none
    → All (IsSane readable) rs × Pairs Distinct rs
unfolding validate
validate-IsSane readable rs h =
    let (sane, _, pairs) =
      issues-IsSane readable 0 [] rs (no_issues (issues_from readable version 0 [] rs) h) in
    (sane, pairs)
  where
    no_issues :
        (issues : List Issue)
        → (if◌then◌else◌ {A = Option (List Issue)} (is_empty issues) none (some issues)) ≡ none
        → issues ≡ []
    no_issues [] e = refl
    no_issues (i ∷ issues) e = cc
