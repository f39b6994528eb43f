-- ===== src/Validation/Destination/Hostname.antt =====
-- What the host names are that `validHostname` of validation/validation.go accepts.
use mathlib.Core.List.{Memᴰ}
use gottem_link.Base.{
  ℕ, ◌<◌, ◌≤◌, Str, Bool, true, false, ◌||◌, some, [], ◌∷◌, ◌++◌, All, all, is_lower, is_upper,
  is_digit, length, ltb, split, ◌==◌, ==_iff, ◌≡◌, ◌≢◌, ◌⊎◌, ◌∙◌, inl, inr, refl, sym, subst, ap,
  arith, Bool-cases, Option-cases, if◌then◌else◌,
}
use gottem_link.Base.Url.{Net}
use gottem_link.Base.Reflected.{all-All, All-all, any-Mem, Mem-any}
use gottem_link.Validation.Destination.{
  last_byte, label_byte, valid_label, is_dotted_numeric, valid_hostname,
}

-- A letter of ASCII, a digit or a dash.
pub data IsLabelByte : ℕ → Type 0 where
  lower_case : (c : ℕ) → 97 ≤ c → c ≤ 122 → IsLabelByte c
  upper_case : (c : ℕ) → 65 ≤ c → c ≤ 90 → IsLabelByte c
  digit : (c : ℕ) → 48 ≤ c → c ≤ 57 → IsLabelByte c
  dash : IsLabelByte 45

-- A label has 1 to 63 such bytes, with no dash at its ends.
pub record IsLabel (label : Str) : Type 0 where
  pub filled : 0 < length label
  pub short : length label ≤ 63
  pub first_byte : (t : Str) → label ≢ b'-' ∷ t
  pub final_byte : (t : Str) → label ≢ t ++ (b'-' ∷ [])
  pub bytes : All IsLabelByte label

abbrev pub IsDotOrDigit : ℕ → Type 0
IsDotOrDigit c = (c ≡ 46) ⊎ ((48 ≤ c) × (c ≤ 57))

-- A name that looks like an address of version 4.
abbrev pub IsDottedNumeric : Str → Type 0
IsDottedNumeric name = Memᴰ b'.' name × All IsDotOrDigit name

-- An address, or at most 253 bytes of labels with dots between them that do not look like one.
pub data IsHostname (net : Net) (name : Str) : Type 0 where
  address : (loopback : Bool) → net.parse_ip name ≡ some loopback → IsHostname net name
  labels :
      length name ≤ 253
      → (IsDottedNumeric name → ⊥)
      → All IsLabel (split b'.' name)
      → IsHostname net name

byte_back : (c : ℕ) → label_byte c ≡ true → IsLabelByte c
byte_back c h = elim (Bool-cases (is_lower c)) [
  | inl e ↦ lower_case c (ground (arith, e)) (ground (arith, e))
  | inr low ↦ elim (Bool-cases (is_upper c)) [
    | inl e ↦ upper_case c (ground (arith, e)) (ground (arith, e))
    | inr up ↦ elim (Bool-cases (is_digit c)) [
      | inl e ↦ digit c (ground (arith, e)) (ground (arith, e))
      | inr num ↦ subst IsLabelByte (sym ((==_iff c b'-').0 (ground (arith, h, low, up, num)))) dash
    ]
  ]
]

byte_forth : (c : ℕ) → IsLabelByte c → label_byte c ≡ true
byte_forth c (lower_case _ a b) = ground (arith, a, b)
byte_forth c (upper_case _ a b) = ground (arith, a, b)
byte_forth c (digit _ a b) = ground (arith, a, b)
byte_forth _ dash = refl

-- The last byte of a text, 0 where it has none.
last_of : Str → ℕ
last_of [] = 0
last_of (c ∷ s) = last_byte c s

last_of-append : (t : Str) (b : ℕ) → last_of (t ++ (b ∷ [])) ≡ b
unfolding last_of
last_of-append [] b = refl
last_of-append (c ∷ []) b = refl
last_of-append (c ∷ d ∷ t) b = last_of-append (d ∷ t) b

before_last : (c : ℕ) (s : Str) → (t : Str) × (c ∷ s ≡ t ++ (last_byte c s ∷ []))
before_last c [] = ([], refl)
before_last c (d ∷ s) = let (t, e) = before_last d s in (c ∷ t, ap (λ r. c ∷ r) e)

valid_label-IsLabel : (label : Str) → valid_label label ≡ true → IsLabel label
unfolding valid_label last_of
valid_label-IsLabel [] h = cc
valid_label-IsLabel (c ∷ s) h = record {
  filled = omega arith;
  short = ground (arith, h);
  first_byte = λ t e. first_dash (ap (λ r. elim r [ [] ↦ 0 | b ∷ rest ↦ b ]) e);
  final_byte = λ t e. final_dash (ap last_of e ∙ last_of-append t b'-');
  bytes = all-All IsLabelByte label_byte byte_back (c ∷ s) (ground (arith, h));
}
  where
    first_dash : c ≡ b'-' → ⊥
    first_dash e = ground (arith, h, e)

    final_dash : last_byte c s ≡ b'-' → ⊥
    final_dash e = ground (arith, h, e)

IsLabel-valid_label : (label : Str) → IsLabel label → valid_label label ≡ true
unfolding valid_label
IsLabel-valid_label [] l = absurd (omega (arith, l.filled))
IsLabel-valid_label (c ∷ s) l =
    ground (
      arith,
      l.short,
      no_first,
      no_final,
      All-all IsLabelByte label_byte byte_forth (c ∷ s) l.bytes,
    )
  where
    no_first : (c == b'-') ≡ false
    no_first = elim (Bool-cases (c == b'-')) [
      | inl e ↦ absurd (l.first_byte s (ap (λ b. b ∷ s) ((==_iff c b'-').0 e)))
      | inr e ↦ e
    ]

    no_final : (last_byte c s == b'-') ≡ false
    no_final = elim (Bool-cases (last_byte c s == b'-')) [
      | inl e ↦
          let (t, ends) = before_last c s in
          absurd
            (l.final_byte t (ends ∙ ap (λ b. t ++ (b ∷ [])) ((==_iff (last_byte c s) b'-').0 e)))
      | inr e ↦ e
    ]

numeric_back : (name : Str) → is_dotted_numeric name ≡ true → IsDottedNumeric name
unfolding is_dotted_numeric
numeric_back name h =
    let (c, found, e) = any-Mem (λ c. c == b'.') name (ground (arith, h)) in
    (
      subst (λ b. Memᴰ b name) ((==_iff c b'.').0 e) found,
      all-All IsDotOrDigit (λ c. c == b'.' || is_digit c) (λ c k. dot_or_digit c k) name
          (ground (arith, h)),
    )
  where
    dot_or_digit : (c : ℕ) → (c == b'.' || is_digit c) ≡ true → IsDotOrDigit c
    dot_or_digit c k = elim (Bool-cases (c == b'.')) [
      | inl e ↦ inl ((==_iff c b'.').0 e)
      | inr e ↦ inr (ground (arith, k, e), ground (arith, k, e))
    ]

numeric_forth : (name : Str) → IsDottedNumeric name → is_dotted_numeric name ≡ true
unfolding is_dotted_numeric
numeric_forth name (dot, bytes) = ground (
  arith,
  Mem-any (λ c. c == b'.') b'.' name dot refl,
  All-all IsDotOrDigit (λ c. c == b'.' || is_digit c) (λ c k. dot_or_digit c k) name bytes,
)
  where
    dot_or_digit : (c : ℕ) → IsDotOrDigit c → (c == b'.' || is_digit c) ≡ true
    dot_or_digit c (inl e) = ground (arith, e)
    dot_or_digit c (inr (a, b)) = ground (arith, a, b)

module _ (net : Net) (name : Str) where
  pub hostname_back : valid_hostname net name ≡ true → IsHostname net name
  unfolding valid_hostname
  hostname_back h = elim (Option-cases (net.parse_ip name)) [
    | inr (loopback, e) ↦ address loopback e
    | inl e ↦
        let tests = rw (valid_hostname, e) at h in
        labels (ground (arith, tests)) (λ numeric. cc (numeric_forth name numeric, looks tests))
          (all-All IsLabel valid_label valid_label-IsLabel (split b'.' name)
            (ground (arith, tests)))
  ]
    where
      looks :
          (if ltb 253 (length name) || is_dotted_numeric name
              then false
              else all valid_label (split b'.' name))
            ≡ true
          → is_dotted_numeric name ≡ false
      looks tests = ground (arith, tests)

  pub hostname_forth : IsHostname net name → valid_hostname net name ≡ true
  unfolding valid_hostname
  hostname_forth (address loopback e) = rw (valid_hostname, e) refl
  hostname_forth (labels short other parts) = ground (
    arith,
    short,
    not_numeric,
    All-all IsLabel valid_label IsLabel-valid_label (split b'.' name) parts,
  )
    where
      not_numeric : is_dotted_numeric name ≡ false
      not_numeric = elim (Bool-cases (is_dotted_numeric name)) [
        | inl e ↦ absurd (other (numeric_back name e))
        | inr e ↦ e
      ]
