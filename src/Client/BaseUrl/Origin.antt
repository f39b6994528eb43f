-- ===== src/Client/BaseUrl/Origin.antt =====
-- What every base URL that `parseBaseURL` accepts is.
use gottem_link.Base.{
  Str, true, false, not, ◌&&◌, some, [], ok, codes, eqb, Unicode, is_empty, equal_fold, Bool-cases,
  Option-cases, ok-injective, inl, inr, ◌≡◌, ◌⊎◌, refl, subst, arith,
}
use gottem_link.Base.Url.{Url, Net}
use gottem_link.Client.BaseUrl.{
  is_port, has_web_scheme, exceeds_origin, parsed_base, parse_base_url,
}

pub record IsOrigin (uni : Unicode) (url : Url) : Type 0 where
  pub web_scheme :
      (equal_fold uni url.scheme (codes "http") ≡ true)
      ⊎ (equal_fold uni url.scheme (codes "https") ≡ true)
  pub has_host : is_empty url.hostname ≡ false
  pub no_user : url.has_user ≡ false
  pub no_query : (is_empty url.raw_query ≡ true) × (url.force_query ≡ false)
  pub no_path : (url.path ≡ []) × (url.escaped_path ≡ [])
  pub port_in_range : (is_empty url.port ≡ true) ⊎ (is_port url.port ≡ true)

module _ (uni : Unicode) (base_text : Str) (parsed : Url) where
  IsOrigin-part :
      has_web_scheme uni parsed ≡ true
      → exceeds_origin base_text parsed ≡ false
      → not (is_empty parsed.port) && not (is_port parsed.port) ≡ false
      → IsOrigin uni (record parsed { path = []; escaped_path = [] })
  unfolding has_web_scheme exceeds_origin
  IsOrigin-part w x p = record {
    web_scheme = ground (arith, w);
    has_host = ground (arith, x);
    no_user = ground (arith, x);
    no_query = ground (arith, x);
    no_path = (refl, refl);
    port_in_range = ground (arith, p);
  }

  parsed_base-IsOrigin :
      (url : Url) → parsed_base uni base_text (some parsed) ≡ ok url → IsOrigin uni url
  unfolding parsed_base
  parsed_base-IsOrigin url h = elim (Bool-cases (has_web_scheme uni parsed)) [
    | inr w ↦ cc (rw (parsed_base, w) at h)
    | inl w ↦ elim (Bool-cases (exceeds_origin base_text parsed)) [
      | inl x ↦ cc (rw (parsed_base, w, x) at h)
      | inr x ↦ elim (Bool-cases (not (is_empty parsed.port) && not (is_port parsed.port))) [
        | inl p ↦ cc (rw (parsed_base, w, x, p) at h)
        | inr p ↦
            elim (Bool-cases
              (not (is_empty parsed.escaped_path) && not (eqb parsed.escaped_path (codes "/")))) [
                | inl path ↦ cc (rw (parsed_base, w, x, p, path) at h)
                | inr path ↦
                    subst (IsOrigin uni) (ok-injective (rw (parsed_base, w, x, p, path) at h))
                      (IsOrigin-part w x p)
              ]
      ]
    ]
  ]

pub parse_base_url-IsOrigin :
    (uni : Unicode) (net : Net) (base_text : Str) (url : Url)
    → parse_base_url uni net base_text ≡ ok url
    → IsOrigin uni url
unfolding parse_base_url parsed_base
parse_base_url-IsOrigin uni net base_text url h = elim (Bool-cases (is_empty base_text)) [
  | inl e ↦ cc (rw (parse_base_url, e) at h)
  | inr e ↦ elim (Option-cases (net.parse_url base_text)) [
    | inl g ↦ cc (rw (parse_base_url, e, g) at h)
    | inr (parsed, g) ↦
        parsed_base-IsOrigin uni base_text parsed url (rw (parse_base_url, e, g) at h)
  ]
]
