-- ===== src/Db/Redirects/Changed.antt =====
-- What an update of a destination and an access leave of a row, field by field.
use gottem_link.Base.{Str, Option, none, some, ◌≡◌, refl}
use gottem_link.Db.Sql.{Sqlite}
use gottem_link.Db.Store.{Redirect}
use gottem_link.Db.Counted.{CountedUp, Latest, first, counted-CountedUp, later-Latest}
use gottem_link.Db.Redirects.{latest, accessed}

-- A row with a new destination, set at a time.
pub record HasDestination (url at : Str) (old row : Redirect) : Type 0 where
  pub destination : row.url ≡ url
  pub times : (row.updated_at ≡ at) × (row.destination_updated_at ≡ at)
  pub others :
      (row.id ≡ old.id)
      × (row.slug ≡ old.slug)
      × (row.created_at ≡ old.created_at)
      × (row.disabled_at ≡ old.disabled_at)
      × (row.expires_at ≡ old.expires_at)
      × (row.click_count ≡ old.click_count)
      × (row.last_accessed_at ≡ old.last_accessed_at)

-- A row after one more access.
pub record IsAccessed (q : Sqlite) (value : Str) (old row : Redirect) : Type 0 where
  pub counted : CountedUp old.click_count row.click_count
  pub time : Str
  pub accessed_at : row.last_accessed_at ≡ some time
  pub latest_time : Latest q value old.last_accessed_at time
  pub others :
      (row.id ≡ old.id)
      × (row.slug ≡ old.slug)
      × (row.url ≡ old.url)
      × (row.created_at ≡ old.created_at)
      × (row.updated_at ≡ old.updated_at)
      × (row.disabled_at ≡ old.disabled_at)
      × (row.expires_at ≡ old.expires_at)
      × (row.destination_updated_at ≡ old.destination_updated_at)

latest_lem : (q : Sqlite) (value : Str) (o : Option Str) → Latest q value o (latest q o value)
unfolding latest
latest_lem q value none = first
latest_lem q value (some stored) = later-Latest q value stored

pub accessed-IsAccessed :
    (q : Sqlite) (value : Str) (r : Redirect) → IsAccessed q value r (accessed q value r)
unfolding accessed
accessed-IsAccessed q value r = record {
  counted = counted-CountedUp r.click_count;
  time = latest q r.last_accessed_at value;
  accessed_at = refl;
  latest_time = latest_lem q value r.last_accessed_at;
  others = (refl, refl, refl, refl, refl, refl, refl, refl);
}
