-- ===== src/Examples/Codes.antt =====
-- An example for handlers/qr.go.
use gottem_link.Base.{Str, none, some, [], codes, eqb, lower_byte, length, ◌≡◌, refl}
use gottem_link.Examples.{
  sqlite, sqlite_laws, calm, docs, shouted, go_dev, docs_row, no_rows_yet, with_docs,
}
use gottem_link.Db.Redirects.{create_redirect_with_expiration}
use gottem_link.Handlers.QrCode.{QrPackage, png_image, qr_code_handler}
use gottem_link.Handlers.QrCode.Created.{qr_code_handler-create}

-- An image is its text here.
abbrev plain : QrPackage Str
plain = record {
  path_escape = λ s. s;
  encode_text = λ text. some text;
  to_png_bytes = λ code. some code;
}

abbrev link : Str
link = codes "https://gottem.link/docs"

qr_code_handler-create_example :
    qr_code_handler plain sqlite calm (codes "https://gottem.link") (codes "HEAD") shouted with_docs
    ≡ png_image (length link) []
unfolding create_redirect_with_expiration eqb lower_byte
qr_code_handler-create_example =
    qr_code_handler-create plain sqlite sqlite_laws calm calm (codes "https://gottem.link")
      (codes "HEAD") docs shouted go_dev none no_rows_yet with_docs docs_row link link refl refl
      refl refl refl refl
