-- ===== src/Db/Sql.antt =====
-- What the statements of db/ use of SQLite, which is not part of the repository.
use gottem_link.Base.{
  List, ℕ, Str, Bool, true, false, Option, none, some, All, ◌≡◌, ◌≢◌, eqb, lower, ltb, String,
}

-- The collation NOCASE and the date function, as parameters.
pub record Sqlite : Type 0 where
  -- a = b COLLATE NOCASE
  pub nocase : Str → Str → Bool
  -- a < b COLLATE NOCASE
  pub nocase_lt : Str → Str → Bool
  -- julianday, `none` for NULL, in milliseconds: only the order of the values is used
  pub julianday : Str → Option ℕ

-- The documented behaviour of the collation: it identifies texts as an equivalence relation does,
-- and texts without a NUL byte by their bytes, ASCII letters taken without case.
pub record SqliteLaws (q : Sqlite) : Type 0 where
  pub nocase_refl : (a : Str) → q.nocase a a ≡ true
  pub nocase_sym : (a b : Str) → q.nocase a b ≡ true → q.nocase b a ≡ true
  pub nocase_trans : (a b c : Str) → q.nocase a b ≡ true → q.nocase b c ≡ true → q.nocase a c ≡ true
  pub nocase_lower :
      (a b : Str) → All (λ c. c ≢ 0) a → All (λ c. c ≢ 0) b → q.nocase a b ≡ eqb (lower a) (lower b)

-- julianday(a) > julianday(b): not true if one of them is NULL.
unfoldable pub later_day : Option ℕ → Option ℕ → Bool
later_day none b = false
later_day (some a) none = false
later_day (some a) (some b) = ltb b a

-- The database calls of the operations, each of which may fail.
pub data Call : Type 0 where
  begin insert select update delete rows_affected clear_miss prune scan commit : Call
  -- the calls of a loop, by its index
  check insert_at clear_at : ℕ → Call

-- What an operation meets: CURRENT_TIMESTAMP, julianday('now'), and the calls that fail.
pub record Env : Type 0 where
  pub now : Str
  pub today : ℕ
  pub fails : Call → Bool

-- ErrRedirectNotFound, ErrSlugConflict, SlugConflictsError, sql.ErrNoRows, any other error as
-- SQLite gives it, and such an error with the text that wraps it.
pub data DbError : Type 0 where
  redirect_not_found slug_conflict no_rows : DbError
  slug_conflicts : List Str → DbError
  raw : DbError
  wrapped : String → DbError
