-- ===== src/Handlers/QrCode/Created.antt =====
-- The QR code of a redirect that was created.
use gottem_link.Base.{
  Str, true, false, Option, some, [], if◌then◌else◌, ok, codes, eqb, length, ◌≡◌, refl,
}
use gottem_link.Db.Sql.{Sqlite, SqliteLaws, Env, select}
use gottem_link.Db.Store.{Redirect, Store}
use gottem_link.Db.Redirects.{create_redirect_with_expiration}
use gottem_link.Db.Redirects.Get.{get-create}
use gottem_link.Handlers.QrCode.{QrPackage, png_image, reads, short_url, qr_code_handler}

module _ {Code : Type 0} (qr : QrPackage Code) (q : Sqlite) (laws : SqliteLaws q)
    (env reader : Env) where
  -- After a redirect was created, a GET or HEAD for the QR code under any spelling of its slug, whose
  -- read and whose encoding do not fail, is answered with the length of the image of the short URL
  -- with the slug as it was created, and a GET with that image, where a HEAD has no body.
  pub qr_code_handler-create :
      (origin method slug t url : Str) (expires_at : Option Str) (s s' : Store) (row : Redirect)
      (code : Code) (image : Str)
      → create_redirect_with_expiration q env slug url expires_at s ≡ (ok row, s')
      → q.nocase slug t ≡ true
      → reader.fails select ≡ false
      → reads method ≡ true
      → qr.encode_text (short_url qr.path_escape origin slug) ≡ some code
      → qr.to_png_bytes code ≡ some image
      → qr_code_handler qr q reader origin method t s'
        ≡ png_image (length image) (if eqb method (codes "GET") then image else [])
  unfolding qr_code_handler eqb
  qr_code_handler-create origin method slug t url expires_at s s' row code image made same calm
        allowed e f =
      let fresh = get-create q laws env reader t slug url expires_at s s' row made in
      rw (qr_code_handler, allowed, fresh.0, same, calm, fresh.1.0, e, f) refl
