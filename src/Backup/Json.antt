-- ===== src/Backup/Json.antt =====
-- `rejectDuplicateObjectFields` of backup/backup.go, on the tokens that decoder.Token gives.
pub mod Walk
use gottem_link.Base.{
  ℕ, zero, suc, ◌+◌, ◌*◌, Str, Bool, true, false, not, ◌&&◌, Option, none, some, List, [], ◌∷◌,
  ◌++◌, if◌then◌else◌, eqb, any, all, length,
}

-- Delimiters, strings (the names of fields among them), and other scalars.
pub data Token : Type 0 where
  begin_object end_object begin_array end_array other_scalar : Token
  quoted : Str → Token

abbrev pub then_walk :
    Option (List Token) → (List Token → Option (List Token)) → Option (List Token)
then_walk none rest = none
then_walk (some tokens) rest = rest tokens

-- The recursive `walk` and its two loops, on fuel; `none` is an error, and else what is left.
unfoldable mutual
  pub walk : ℕ → List Token → Option (List Token)
  walk zero tokens = none
  walk (suc f) [] = none
  walk (suc f) (begin_object ∷ tokens) = walk_fields f [] tokens
  walk (suc f) (begin_array ∷ tokens) = walk_items f tokens
  walk (suc f) (end_object ∷ tokens) = none
  walk (suc f) (end_array ∷ tokens) = none
  walk (suc f) (other_scalar ∷ tokens) = some tokens
  walk (suc f) (quoted s ∷ tokens) = some tokens

  pub walk_fields : ℕ → List Str → List Token → Option (List Token)
  walk_fields zero seen tokens = none
  walk_fields (suc f) seen [] = none
  walk_fields (suc f) seen (end_object ∷ tokens) = some tokens
  walk_fields (suc f) seen (quoted key ∷ tokens) = elim (any (eqb key) seen) [
    | true ↦ none
    | false ↦ then_walk (walk f tokens) (walk_fields f (key ∷ seen))
  ]
  walk_fields (suc f) seen (end_array ∷ tokens) = none
  walk_fields (suc f) seen (begin_object ∷ tokens) = none
  walk_fields (suc f) seen (begin_array ∷ tokens) = none
  walk_fields (suc f) seen (other_scalar ∷ tokens) = none

  pub walk_items : ℕ → List Token → Option (List Token)
  walk_items zero tokens = none
  walk_items (suc f) [] = none
  walk_items (suc f) (end_array ∷ tokens) = some tokens
  walk_items (suc f) (end_object ∷ tokens) = none
  walk_items (suc f) (begin_object ∷ tokens) =
      then_walk (walk f (begin_object ∷ tokens)) (walk_items f)
  walk_items (suc f) (begin_array ∷ tokens) =
      then_walk (walk f (begin_array ∷ tokens)) (walk_items f)
  walk_items (suc f) (quoted s ∷ tokens) = then_walk (walk f (quoted s ∷ tokens)) (walk_items f)
  walk_items (suc f) (other_scalar ∷ tokens) =
      then_walk (walk f (other_scalar ∷ tokens)) (walk_items f)

abbrev pub is_walked : Option (List Token) → Bool
is_walked none = false
is_walked (some tokens) = true

-- Two rounds for each token are enough.
unfoldable pub has_unique_fields : List Token → Bool
unfolding walk
has_unique_fields tokens = is_walked (walk (2 * length tokens) tokens)
