-- ===== src/Backup.antt =====
-- backup/backup.go: the portable form of the redirects and its validation.
pub mod Validated
pub mod Json
pub mod Decode
use gottem_link.Base.{
  ℕ, suc, ◌+◌, ◌==◌, leb, Str, Bool, true, false, not, ◌&&◌, Option, none, some, is_some, List, [],
  ◌∷◌, ◌++◌, if◌then◌else◌, codes, eqb, length, lower, is_empty, any,
}
use gottem_link.Base.Int.{ℤ, pos, negsuc}

abbrev pub lifecycle_version : ℕ
lifecycle_version = 2

abbrev pub version : ℕ
version = 3

pub record Redirect : Type 0 where
  pub slug : Str
  pub url : Str
  pub disabled : Bool
  pub expires_at : Option Str
  pub destination_updated_at : Str
  pub click_count : ℤ
  pub last_accessed_at : Option Str

pub record Envelope : Type 0 where
  pub version : ℕ
  pub redirects : List Redirect

pub record Issue : Type 0 where
  pub index : ℕ
  pub field : Str
  pub message : Str

-- The folded bytes before a NUL, and the length of the whole.
pub record SqliteNocaseKey : Type 0 where
  pub prefix : Str
  pub length : ℕ

-- What stands before the first NUL.
unfoldable pub before_nul : Str → Str
before_nul [] = []
before_nul (c ∷ s) = if c == 0 then [] else c ∷ before_nul s

unfoldable pub sqlite_nocase : Str → SqliteNocaseKey
unfolding before_nul
sqlite_nocase value = record { prefix = lower (before_nul value); length = length value }

abbrev pub same_key : SqliteNocaseKey → SqliteNocaseKey → Bool
same_key a b = eqb a.prefix b.prefix && a.length == b.length

abbrev pub issue_if : Bool → ℕ → Str → Str → List Issue
issue_if true index field message = record { index = index; field = field; message = message } ∷ []
issue_if false index field message = []

abbrev pub is_negative_count : ℤ → Bool
is_negative_count (pos n) = false
is_negative_count (negsuc n) = true

abbrev pub is_zero_count : ℤ → Bool
is_zero_count (pos n) = n == 0
is_zero_count (negsuc n) = false

abbrev pub differ : Bool → Bool → Bool
differ true b = not b
differ false b = b

-- The `readable` says whether time.Parse reads a text as RFC 3339.
abbrev pub unreadable_time : (Str → Bool) → Option Str → Bool
unreadable_time readable none = false
unreadable_time readable (some t) = not (readable t)

abbrev pub slug_issues : ℕ → List SqliteNocaseKey → Redirect → List Issue
slug_issues index seen r =
    if is_empty r.slug
    then issue_if true index (codes "slug") (codes "empty slug")
    else issue_if (any (λ k. same_key k (sqlite_nocase r.slug)) seen) index (codes "slug")
        (codes "duplicate slug")

-- The map of the keys seen so far: an empty slug is not added, nor one that is there.
abbrev pub see : List SqliteNocaseKey → Redirect → List SqliteNocaseKey
see seen r =
    if is_empty r.slug
    then seen
    else if any (λ k. same_key k (sqlite_nocase r.slug)) seen
    then seen
    else sqlite_nocase r.slug ∷ seen

abbrev pub lifecycle_issues : (Str → Bool) → ℕ → Redirect → List Issue
lifecycle_issues readable index r =
    issue_if (unreadable_time readable r.expires_at) index (codes "expires_at")
      (codes "invalid timestamp")
    ++ issue_if (not (readable r.destination_updated_at)) index (codes "destination_updated_at")
        (codes "invalid timestamp")

abbrev pub usage_issues : (Str → Bool) → ℕ → Redirect → List Issue
usage_issues readable index r =
    issue_if (is_negative_count r.click_count) index (codes "click_count")
      (codes "must not be negative")
    ++ (issue_if (differ (is_zero_count r.click_count) (not (is_some r.last_accessed_at))) index
          (codes "last_accessed_at") (codes "must be present exactly when click_count is nonzero")
        ++ issue_if (unreadable_time readable r.last_accessed_at) index (codes "last_accessed_at")
            (codes "invalid timestamp"))

-- The issues that one round of the loop appends.
unfoldable pub round_issues : (Str → Bool) → ℕ → ℕ → List SqliteNocaseKey → Redirect → List Issue
unfolding sqlite_nocase
round_issues readable v index seen r =
    slug_issues index seen r
    ++ (issue_if (is_empty r.url) index (codes "url") (codes "empty URL")
        ++ ((if leb lifecycle_version v then lifecycle_issues readable index r else [])
            ++ (if v == version then usage_issues readable index r else [])))

unfoldable pub issues_from :
    (Str → Bool) → ℕ → ℕ → List SqliteNocaseKey → List Redirect → List Issue
unfolding sqlite_nocase round_issues
issues_from readable v index seen [] = []
issues_from readable v index seen (r ∷ rs) =
    round_issues readable v index seen r ++ issues_from readable v (suc index) (see seen r) rs

-- `none` is no error, and else the issues of the error.
unfoldable pub validate : (Str → Bool) → Envelope → Option (List Issue)
unfolding issues_from
validate readable envelope =
    let issues = issues_from readable envelope.version 0 [] envelope.redirects in
    if is_empty issues then none else some issues
