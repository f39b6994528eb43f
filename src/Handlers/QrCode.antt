-- ===== src/Handlers/QrCode.antt =====
-- handlers/qr.go: the QR code of a redirect's short URL.
pub mod Created
use gottem_link.Base.{
  ℕ, Str, Bool, true, false, not, ◌&&◌, Option, none, some, [], ◌∷◌, ◌++◌, if◌then◌else◌, Result,
  ok, err, codes, eqb, length,
}
use gottem_link.Db.Sql.{Sqlite, Env, DbError, redirect_not_found}
use gottem_link.Db.Store.{Redirect, Store}
use gottem_link.Db.Redirects.{get_redirect}

-- PathEscape of net/url, and of the package go-qr EncodeText with the level High and ToPNGBytes with
-- `qrImageConfig`, `none` for an error.
pub record QrPackage (Code : Type 0) : Type 0 where
  pub path_escape : Str → Str
  pub encode_text : Str → Option Code
  pub to_png_bytes : Code → Option Str

-- Statuses 405, 404, 500 and 200, the last with its length and its body.
pub data QrReply : Type 0 where
  method_not_allowed redirect_missing internal_error : QrReply
  png_image : ℕ → Str → QrReply

abbrev pub reads : Str → Bool
reads method = not (not (eqb method (codes "GET")) && not (eqb method (codes "HEAD")))

-- A HEAD request is answered without the image.
abbrev pub write_image : Str → Option Str → QrReply
write_image method none = internal_error
write_image method (some image) =
    png_image (length image) (if eqb method (codes "GET") then image else [])

abbrev pub short_url : (Str → Str) → Str → Str → Str
short_url path_escape origin slug = origin ++ (b'/' ∷ path_escape slug)

module _ {Code : Type 0} (qr : QrPackage Code) where
  abbrev pub write_code : Str → Option Code → QrReply
  write_code method none = internal_error
  write_code method (some code) = write_image method (qr.to_png_bytes code)

  abbrev pub write_qr_code : Str → Str → Result DbError Redirect → QrReply
  write_qr_code origin method (err redirect_not_found) = redirect_missing
  write_qr_code origin method (err e) = internal_error
  write_qr_code origin method (ok redirect) =
      write_code method (qr.encode_text (short_url qr.path_escape origin redirect.slug))

  unfoldable pub qr_code_handler : Sqlite → Env → Str → Str → Str → Store → QrReply
  qr_code_handler q env origin method slug s =
      if not (reads method)
      then method_not_allowed
      else write_qr_code origin method (get_redirect q env slug s)
