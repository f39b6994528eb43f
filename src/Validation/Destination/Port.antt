-- ===== src/Validation/Destination/Port.antt =====
-- Where the port of a host is that `explicitPort` of validation/validation.go finds, and which are
-- accepted.
use gottem_link.Base.{
  ℕ, suc, ◌+◌, ◌≤◌, Str, Bool, true, false, not, Option, none, some, [], ◌∷◌, ◌++◌, codes,
  has_prefix, length, ◌≡◌, ◌∙◌, refl, sym, subst, ap, ◌⊎◌, inl, inr, ◌==◌, ==_iff, all, drop, arith,
  Bool-cases,
}
use native.Mathlib.Numerals.{add-one}
use gottem_link.Base.Int.{ℤ, pos, negsuc}
use gottem_link.Base.Decimal.{parse_int}
use gottem_link.Validation.Destination.{last_index_byte, explicit_port, valid_port, port_in_range}

-- A text without the byte.
abbrev pub lacks : ℕ → Str → Bool
lacks b = all (λ c. not (c == b))

last_index_byte-lacks : (b : ℕ) (s : Str) → lacks b s ≡ true → last_index_byte b s ≡ none
unfolding last_index_byte
last_index_byte-lacks b [] h = refl
last_index_byte-lacks b (c ∷ s) h = ground (arith, last_index_byte-lacks b s)

last_index_byte-append :
    (b : ℕ) (s t : Str) → lacks b t ≡ true → last_index_byte b (s ++ (b ∷ t)) ≡ some (length s)
unfolding last_index_byte
last_index_byte-append b [] t h = ground (arith, last_index_byte-lacks b t)
last_index_byte-append b (c ∷ s) t h = rw (last_index_byte-append b s t h)

drop_past : (s : Str) (b : ℕ) (t : Str) → drop (length s + 1) (s ++ (b ∷ t)) ≡ t
drop_past s b t = rw add-one (past s)
  where
    past : (r : Str) → drop (suc (length r)) (r ++ (b ∷ t)) ≡ t
    past [] = refl
    past (c ∷ r) = past r

bracket-append :
    (host rest : Str)
    → has_prefix host (codes "[") ≡ false
    → has_prefix (host ++ (b':' ∷ rest)) (codes "[") ≡ false
unfolding has_prefix
bracket-append [] rest h = refl
bracket-append (c ∷ host) rest h = h

-- The port that stands in a host, if one does: behind the last colon, or for a host that begins with a
-- bracket behind the last closing bracket and one more byte.
pub data HasPort : Str → Option Str → Type 0 where
  bare :
      (host : Str)
      → has_prefix host (codes "[") ≡ false
      → lacks b':' host ≡ true
      → HasPort host none
  after_colon :
      (host port : Str)
      → has_prefix (host ++ (b':' ∷ port)) (codes "[") ≡ false
      → lacks b':' port ≡ true
      → HasPort (host ++ (b':' ∷ port)) (some port)
  unclosed : (host : Str) → lacks b']' host ≡ true → HasPort (b'[' ∷ host) none
  closed : (host : Str) → HasPort (b'[' ∷ (host ++ (b']' ∷ []))) none
  after_bracket :
      (host : Str) (c : ℕ) (port : Str)
      → lacks b']' (c ∷ port) ≡ true
      → HasPort (b'[' ∷ (host ++ (b']' ∷ c ∷ port))) (some port)

abbrev flagged : Option Str → Str × Bool
flagged none = ([], false)
flagged (some port) = (port, true)

length-past :
    (host : Str) (b c : ℕ) (port : Str)
    → (suc (length host) == length (host ++ (b ∷ c ∷ port))) ≡ false
length-past [] b c port = ground arith
length-past (d ∷ host) b c port = ground (arith, length-past host b c port)

length-closed : (host : Str) (b : ℕ) → (suc (length host) == length (host ++ (b ∷ []))) ≡ true
length-closed [] b = refl
length-closed (d ∷ host) b = ground (arith, length-closed host b)

drop_beyond :
    (host : Str) (b c : ℕ) (port : Str) → drop (length host + 2) (host ++ (b ∷ c ∷ port)) ≡ port
drop_beyond host b c port =
    ap (λ n. drop n (host ++ (b ∷ c ∷ port))) {y = suc (suc (length host))} (omega arith)
    ∙ beyond host
  where
    beyond : (r : Str) → drop (suc (suc (length r))) (r ++ (b ∷ c ∷ port)) ≡ port
    beyond [] = refl
    beyond (d ∷ r) = beyond r

explicit_port_lem : (host : Str) (o : Option Str) → HasPort host o → explicit_port host ≡ flagged o
unfolding explicit_port has_prefix
explicit_port_lem _ _ (bare host h k) =
    rw (explicit_port, h, last_index_byte-lacks b':' host k) refl
explicit_port_lem _ _ (after_colon host port h k) =
    rw (explicit_port, h, last_index_byte-append b':' host port k, drop_past host b':' port) refl
explicit_port_lem _ _ (unclosed host k) = rw (last_index_byte-lacks b']' (b'[' ∷ host) k) refl
explicit_port_lem _ _ (closed host) =
    rw (last_index_byte-append b']' (b'[' ∷ host) [] refl, length-closed (b'[' ∷ host) b']') refl
explicit_port_lem _ _ (after_bracket host c port k) =
    rw
      (
        last_index_byte-append b']' (b'[' ∷ host) (c ∷ port) k,
        length-past (b'[' ∷ host) b']' c port,
        drop_beyond (b'[' ∷ host) b']' c port,
      )
      refl

-- A text lacks a byte, or is parted by the last one.
last_part :
    (b : ℕ) (s : Str)
    → (lacks b s ≡ true) ⊎ ((t rest : Str) × (s ≡ t ++ (b ∷ rest)) × (lacks b rest ≡ true))
last_part b [] = inl refl
last_part b (c ∷ s) = elim (last_part b s) [
  | inr (t, rest, e, k) ↦ inr (c ∷ t, rest, ap (λ r. c ∷ r) e, k)
  | inl k ↦ elim (Bool-cases (c == b)) [
    | inl e ↦ inr ([], s, ap (λ d. d ∷ s) ((==_iff c b).0 e), k)
    | inr e ↦ inl (ground (arith, e, k))
  ]
]

bracketed : (host : Str) → has_prefix host (codes "[") ≡ true → (t : Str) × (host ≡ b'[' ∷ t)
unfolding has_prefix
bracketed [] h = cc
bracketed (c ∷ t) h = (t, ap (λ d. d ∷ t) ((==_iff c b'[').0 (ground (arith, h))))

-- A host has a port or none, in one of the ways.
some_port : (host : Str) → (o : Option Str) × HasPort host o
some_port host = elim (Bool-cases (has_prefix host (codes "["))) [
  | inl e ↦
      let (t, h) = bracketed host e in
      subst (λ r. (o : Option Str) × HasPort r o) (sym h) (in_brackets t (last_part b']' t))
  | inr e ↦ outside e (last_part b':' host)
]
  where
    in_brackets :
        (t : Str)
        → (lacks b']' t ≡ true)
          ⊎ ((s rest : Str) × (t ≡ s ++ (b']' ∷ rest)) × (lacks b']' rest ≡ true))
        → (o : Option Str) × HasPort (b'[' ∷ t) o
    in_brackets t (inl k) = (none, unclosed t k)
    in_brackets t (inr (s, [], e, k)) =
        (none, subst (λ r. HasPort (b'[' ∷ r) none) (sym e) (closed s))
    in_brackets t (inr (s, c ∷ port, e, k)) =
        (some port, subst (λ r. HasPort (b'[' ∷ r) (some port)) (sym e) (after_bracket s c port k))

    outside :
        has_prefix host (codes "[") ≡ false
        → (lacks b':' host ≡ true)
          ⊎ ((s rest : Str) × (host ≡ s ++ (b':' ∷ rest)) × (lacks b':' rest ≡ true))
        → (o : Option Str) × HasPort host o
    outside h (inl k) = (none, bare host h k)
    outside h (inr (s, port, e, k)) = (
      some port,
      subst (λ r. HasPort r (some port)) (sym e)
          (after_colon s port (subst (λ r. has_prefix r (codes "[") ≡ false) e h) k),
    )

-- A host without a port, or with a number from 1 to 65535.
pub data IsUsablePort (host : Str) : Type 0 where
  unnamed : HasPort host none → IsUsablePort host
  numbered :
      (port : Str) (n : ℕ)
      → HasPort host (some port)
      → parse_int port ≡ some (pos n)
      → 1 ≤ n
      → n ≤ 65535
      → IsUsablePort host

in_range_back :
    (o : Option ℤ) → port_in_range o ≡ true → (n : ℕ) × (o ≡ some (pos n)) × (1 ≤ n) × (n ≤ 65535)
in_range_back none h = cc
in_range_back (some (negsuc n)) h = cc
in_range_back (some (pos n)) h = (n, refl, ground (arith, h), ground (arith, h))

pub port_back : (host : Str) → valid_port (explicit_port host) ≡ true → IsUsablePort host
port_back host h =
    let (o, p) = some_port host in usable o p (ap valid_port (sym (explicit_port_lem host o p)) ∙ h)
  where
    usable : (o : Option Str) → HasPort host o → valid_port (flagged o) ≡ true → IsUsablePort host
    usable none p k = unnamed p
    usable (some port) p k =
        let (n, e, low, high) = in_range_back (parse_int port) k in numbered port n p e low high

pub port_forth : (host : Str) → IsUsablePort host → valid_port (explicit_port host) ≡ true
port_forth host (unnamed p) = ap valid_port (explicit_port_lem host none p)
port_forth host (numbered port n p e low high) =
    ap valid_port (explicit_port_lem host (some port) p)
    ∙ ap port_in_range e
    ∙ ground (arith, low, high)
