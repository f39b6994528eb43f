-- ===== src/Backup/Json/Walk.antt =====
-- The walk over the tokens of a JSON document accepts exactly the documents whose objects have no
-- field twice.
use gottem_link.Base.{
  ℕ, zero, suc, ◌+◌, ◌*◌, ◌≤◌, ◌<◌, Str, Bool, true, false, not, ◌&&◌, Option, none, some, List, [],
  ◌∷◌, if◌then◌else◌, eqb, eqb_iff, any, all, length, ◌≡◌, ◌∙◌, refl, ap, arith,
}
use gottem_link.Backup.Json.{
  Token, begin_object, end_object, begin_array, end_array, other_scalar, quoted, then_walk, walk,
  walk_fields, walk_items, is_walked, has_unique_fields,
}

mutual
  pub data Document : Type 0 where
    scalar : Document
    text : Str → Document
    array : Documents → Document
    object : Fields → Document

  pub data Documents : Type 0 where
    no_item : Documents
    item : Document → Documents → Documents

  pub data Fields : Type 0 where
    no_field : Fields
    field : Str → Document → Fields → Fields

-- The tokens of a document in front of others, and their number.
unfoldable mutual
  pub written : Document → List Token → List Token
  written scalar rest = other_scalar ∷ rest
  written (text s) rest = quoted s ∷ rest
  written (array vs) rest = begin_array ∷ written_items vs (end_array ∷ rest)
  written (object fs) rest = begin_object ∷ written_fields fs (end_object ∷ rest)

  pub written_items : Documents → List Token → List Token
  written_items no_item rest = rest
  written_items (item v vs) rest = written v (written_items vs rest)

  pub written_fields : Fields → List Token → List Token
  written_fields no_field rest = rest
  written_fields (field key v fs) rest = quoted key ∷ written v (written_fields fs rest)

unfoldable mutual
  size : Document → ℕ
  size scalar = 1
  size (text s) = 1
  size (array vs) = 2 + size_items vs
  size (object fs) = 2 + size_fields fs

  size_items : Documents → ℕ
  size_items no_item = 0
  size_items (item v vs) = size v + size_items vs

  size_fields : Fields → ℕ
  size_fields no_field = 0
  size_fields (field key v fs) = 1 + size v + size_fields fs

unfoldable pub keys : Fields → List Str
keys no_field = []
keys (field key v fs) = key ∷ keys fs

unfoldable pub no_repeats : List Str → Bool
no_repeats [] = true
no_repeats (key ∷ rest) = not (any (eqb key) rest) && no_repeats rest

-- No object in a document has a field twice.
unfoldable mutual
  pub is_unique : Document → Bool
  is_unique scalar = true
  is_unique (text s) = true
  is_unique (array vs) = unique_items vs
  is_unique (object fs) = no_repeats (keys fs) && unique_fields fs

  pub unique_items : Documents → Bool
  unique_items no_item = true
  unique_items (item v vs) = is_unique v && unique_items vs

  pub unique_fields : Fields → Bool
  unique_fields no_field = true
  unique_fields (field key v fs) = is_unique v && unique_fields fs

-- The keys are new one after the other.
unseen : List Str → List Str → Bool
unseen seen [] = true
unseen seen (key ∷ rest) = not (any (eqb key) seen) && unseen (key ∷ seen) rest

eqb_comm : (s t : Str) → eqb s t ≡ eqb t s
eqb_comm s t = ground (arith, eqb_iff s t, eqb_iff t s)

apart : List Str → List Str → Bool
apart seen = all (λ k. not (any (eqb k) seen))

apart-cons :
    (key : Str) (seen rest : List Str)
    → apart (key ∷ seen) rest ≡ not (any (eqb key) rest) && apart seen rest
unfolding apart
apart-cons key seen [] = refl
apart-cons key seen (k ∷ rest) = ground (arith, eqb_comm k key, apart-cons key seen rest)

unseen-eq : (seen rest : List Str) → unseen seen rest ≡ apart seen rest && no_repeats rest
unfolding unseen apart no_repeats
unseen-eq seen [] = refl
unseen-eq seen (key ∷ rest) = ground (arith, unseen-eq (key ∷ seen) rest, apart-cons key seen rest)

apart_none : (rest : List Str) → apart [] rest ≡ true
unfolding apart
apart_none [] = refl
apart_none (key ∷ rest) = apart_none rest

unseen_none : (rest : List Str) → unseen [] rest ≡ no_repeats rest
unseen_none rest = unseen-eq [] rest ∙ ap (λ b. b && no_repeats rest) (apart_none rest)

abbrev given : Bool → List Token → Option (List Token)
given unique rest = if unique then some rest else none

size_positive : (v : Document) → 0 < size v
unfolding size
size_positive scalar = omega arith
size_positive (text s) = omega arith
size_positive (array vs) = omega arith
size_positive (object fs) = omega arith

walk_items-value :
    (f : ℕ) (v : Document) (rest : List Token)
    → walk_items (suc f) (written v rest) ≡ then_walk (walk f (written v rest)) (walk_items f)
unfolding walk written
walk_items-value f scalar rest = refl
walk_items-value f (text s) rest = refl
walk_items-value f (array vs) rest = refl
walk_items-value f (object fs) rest = refl

then_given :
    (b d : Bool) (rest left : List Token) (go : List Token → Option (List Token))
    → go rest ≡ given d left
    → then_walk (given b rest) go ≡ given (b && d) left
then_given true d rest left go h = h
then_given false d rest left go h = refl

-- The keys and the values of a field and of those after it.
if_unseen :
    (seen unique new others : Bool) (rest : List Token) (o : Option (List Token))
    → o ≡ given (unique && (new && others)) rest
    → (elim seen [ true ↦ none | false ↦ o ]) ≡ given ((not seen && new) && (unique && others)) rest
if_unseen true unique new others rest o h = refl
if_unseen false true new others rest o h = h
if_unseen false false true others rest o h = h
if_unseen false false false others rest o h = h

mutual
  unfolding walk written size is_unique keys unseen

  walk-written :
      (f : ℕ) (v : Document) (rest : List Token)
      → 2 * size v ≤ f
      → walk f (written v rest) ≡ given (is_unique v) rest
  walk-written zero v rest h = absurd (omega (arith, h, size_positive v))
  walk-written (suc f) scalar rest h = refl
  walk-written (suc f) (text s) rest h = refl
  walk-written (suc f) (array vs) rest h = walk_items-written f vs rest (omega (arith, h))
  walk-written (suc f) (object fs) rest h =
      walk_fields-written f [] fs rest (omega (arith, h))
      ∙ ap (λ b. given (b && unique_fields fs) rest) (unseen_none (keys fs))

  walk_items-written :
      (f : ℕ) (vs : Documents) (rest : List Token)
      → 2 * size_items vs + 1 ≤ f
      → walk_items f (written_items vs (end_array ∷ rest)) ≡ given (unique_items vs) rest
  walk_items-written zero vs rest h = absurd (omega (arith, h))
  walk_items-written (suc f) no_item rest h = refl
  walk_items-written (suc f) (item v vs) rest h =
      walk_items-value f v (written_items vs (end_array ∷ rest))
      ∙ ap (λ o. then_walk o (walk_items f))
          (walk-written f v (written_items vs (end_array ∷ rest)) (omega (arith, h)))
      ∙ then_given (is_unique v) (unique_items vs) (written_items vs (end_array ∷ rest)) rest
          (walk_items f) (walk_items-written f vs rest (omega (arith, h, size_positive v)))

  walk_fields-written :
      (f : ℕ) (seen : List Str) (fs : Fields) (rest : List Token)
      → 2 * size_fields fs + 1 ≤ f
      → walk_fields f seen (written_fields fs (end_object ∷ rest))
        ≡ given (unseen seen (keys fs) && unique_fields fs) rest
  walk_fields-written zero seen fs rest h = absurd (omega (arith, h))
  walk_fields-written (suc f) seen no_field rest h = refl
  walk_fields-written (suc f) seen (field key v fs) rest h =
      if_unseen (any (eqb key) seen) (is_unique v) (unseen (key ∷ seen) (keys fs))
        (unique_fields fs) rest _
        (ap (λ o. then_walk o (walk_fields f (key ∷ seen)))
            (walk-written f v (written_fields fs (end_object ∷ rest)) (omega (arith, h)))
          ∙ then_given (is_unique v) (unseen (key ∷ seen) (keys fs) && unique_fields fs)
              (written_fields fs (end_object ∷ rest)) rest (walk_fields f (key ∷ seen))
              (walk_fields-written f (key ∷ seen) fs rest (omega (arith, h, size_positive v))))

mutual
  unfolding written size

  length-written :
      (v : Document) (rest : List Token) → length (written v rest) ≡ size v + length rest
  length-written scalar rest = omega arith
  length-written (text s) rest = omega arith
  length-written (array vs) rest = omega (arith, length-written_items vs (end_array ∷ rest))
  length-written (object fs) rest = omega (arith, length-written_fields fs (end_object ∷ rest))

  length-written_items :
      (vs : Documents) (rest : List Token)
      → length (written_items vs rest) ≡ size_items vs + length rest
  length-written_items no_item rest = omega arith
  length-written_items (item v vs) rest =
      omega (arith, length-written v (written_items vs rest), length-written_items vs rest)

  length-written_fields :
      (fs : Fields) (rest : List Token)
      → length (written_fields fs rest) ≡ size_fields fs + length rest
  length-written_fields no_field rest = omega arith
  length-written_fields (field key v fs) rest =
      omega (arith, length-written v (written_fields fs rest), length-written_fields fs rest)

-- The walk over the tokens of a document, whatever stands after it, accepts the document exactly
-- where no object in it has a field twice.
pub has_unique_fields-written :
    (v : Document) (rest : List Token) → has_unique_fields (written v rest) ≡ is_unique v
unfolding has_unique_fields
has_unique_fields-written v rest =
    ap is_walked
      (walk-written (2 * length (written v rest)) v rest (omega (arith, length-written v rest)))
    ∙ walked_given (is_unique v)
  where
    walked_given : (b : Bool) → is_walked (given b rest) ≡ b
    walked_given true = refl
    walked_given false = refl
