-- ===== src/Handlers/Session/Valid.antt =====
-- Which cookies hasValidSession accepts.
use gottem_link.Base.{
  ℕ, ◌+◌, ◌≤◌, Str, Bool, true, false, ◌&&◌, some, eqb, eqb_refl, length, ltb, split, ◌≡◌, ◌∙◌,
  refl, ap, arith, split,
}
use gottem_link.Base.Decimal.{max_int64, format_int, no_byte-format_int, parse_int-format_int}
use gottem_link.Base.Splits.{split_two}
use gottem_link.Handlers.Auth.{Crypto, CryptoLaws}
use gottem_link.Handlers.Session.{
  SessionAuth, new_session_auth, session_lifetime, session_payload, session_value,
  set_session_cookie, valid_fields, valid_signed, valid_parts, has_valid_session,
}

module _ (c : Crypto) (laws : CryptoLaws c) (a b : SessionAuth) (t : ℕ) where
  -- The signature of the payload of `a` as `b` computes it.
  abbrev pub same_signature : Str → Bool
  same_signature payload = eqb (c.hmac a.secret payload) (c.hmac b.secret payload)

  fields_decide :
      (expires : ℕ)
      → expires ≤ max_int64
      → length a.token_fingerprint ≡ 32
      → valid_fields c b t (split b'.' (session_payload c a expires))
        ≡ ltb t expires && eqb a.token_fingerprint b.token_fingerprint
  unfolding valid_fields session_payload
  fields_decide expires h size =
      rw
        (
          split_two b'.' (format_int expires) (c.hex_encode a.token_fingerprint)
              (no_byte-format_int b'.' expires refl) (laws.hex_no_dot a.token_fingerprint),
          parse_int-format_int expires h,
          laws.hex_back a.token_fingerprint,
          size,
        )
        (ground arith)

  value_decides :
      (payload : Str)
      → has_valid_session c b t (some (session_value c a payload))
        ≡ same_signature payload && valid_fields c b t (split b'.' payload)
  unfolding has_valid_session session_value valid_parts valid_signed
  value_decides payload = rw (
    split_two b'.' (c.base64_encode payload) (c.base64_encode (c.hmac a.secret payload))
        (laws.base64_no_dot payload) (laws.base64_no_dot (c.hmac a.secret payload)),
    laws.base64_back payload,
    laws.base64_back (c.hmac a.secret payload),
  )

  -- A cookie that one server set is valid for another one exactly before its end, eight hours after
  -- it was set, where both sign its payload alike and have the same fingerprint of the management
  -- token: another token or another secret ends the sessions. The fingerprint has the 32 bytes of a
  -- sum, and the cookie's end is a 64-bit number.
  pub session_decides :
      (now : ℕ)
      → now + session_lifetime ≤ max_int64
      → length a.token_fingerprint ≡ 32
      → has_valid_session c b t (some (set_session_cookie c a now).value)
        ≡ same_signature (session_payload c a (now + session_lifetime))
          && (ltb t (now + session_lifetime) && eqb a.token_fingerprint b.token_fingerprint)
  unfolding set_session_cookie
  session_decides now h size =
      value_decides (session_payload c a (now + session_lifetime))
      ∙ ap (λ rest. same_signature (session_payload c a (now + session_lifetime)) && rest)
          (fields_decide (now + session_lifetime) h size)

-- The server that set a cookie accepts it before its end.
pub own_cookie :
    (c : Crypto) (laws : CryptoLaws c) (token secret origin : Str) (secure : Bool) (t now : ℕ)
    → let auth = new_session_auth c token secret origin secure in
      now + session_lifetime ≤ max_int64
      → has_valid_session c auth t (some (set_session_cookie c auth now).value)
        ≡ ltb t (now + session_lifetime)
unfolding new_session_auth
own_cookie c laws token secret origin secure t now h =
    let auth = new_session_auth c token secret origin secure in
    session_decides c laws auth auth t now h (laws.hmac_size secret _)
    ∙ rw
        (
          eqb_refl (c.hmac secret (session_payload c auth (now + session_lifetime))),
          eqb_refl auth.token_fingerprint,
        )
        (and_true (ltb t (now + session_lifetime)))
  where
    and_true : (x : Bool) → x && true ≡ x
    and_true true = refl
    and_true false = refl
