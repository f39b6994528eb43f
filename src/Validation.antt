-- ===== src/Validation.antt =====
-- validation/validation.go: what the program accepts as a slug and as a destination.
pub mod Slug
pub mod Destination

-- ErrInvalidDestination, ErrInvalidSlug and ErrReservedSlug.
pub data ValidationError : Type 0 where
  invalid_destination invalid_slug reserved_slug : ValidationError
