-- ===== src/Validation/TodoFields/Limits.antt =====
-- What `validateCreate` and `validateUpdate` accept, and that the entity's own rule agrees.
use cppbackend_api.Base.{
  ◌≤◌, ◌≡◌, ◌⊎◌, ◌↔◌, refl, Bool, true, false, Option, none, some, [], String, is_empty, is_some,
  size, arith,
}
use cppbackend_api.Domain.Result.{ok}
use cppbackend_api.Validation.TodoFields.{
  CreateTodoRequest, UpdateTodoRequest, is_all_space, title_errors, description_errors,
  validate_create, validate_update, validate_title,
}

pub is_all_space-empty : (s : String) → is_all_space s ≡ false → is_empty s ≡ false
unfolding is_all_space
is_all_space-empty Prim.Native.String.[] h = h
is_all_space-empty (Prim.Native.String.◌∷◌ c s) h = refl

-- A creation is valid exactly when its title is not all whitespace and has at most 255 bytes and
-- its description at most 1000.
pub validate_create_iff :
    (req : CreateTodoRequest)
    → (validate_create req ≡ ok tt)
      ↔ ((is_all_space req.title ≡ false) × (size req.title ≤ 255) × (size req.description ≤ 1000))
unfolding validate_create
validate_create_iff req = ground (arith, is_all_space-empty req.title)

abbrev pub Fits : Option String → (String → Type 0) → Type 0
Fits none P = Unit {0}
Fits (some s) P = P s

title_errors-none :
    (missing title : String)
    → (title_errors missing title ≡ []) ↔ ((is_all_space title ≡ false) × (size title ≤ 255))
title_errors-none missing title = ground (arith, is_all_space-empty title)

description_errors-none :
    (description : String) → (description_errors description ≡ []) ↔ (size description ≤ 1000)
description_errors-none description = ground arith

validate_fields :
    (title description : Option String) (completed : Option Bool)
    → (validate_update (record { title = title; description = description; completed = completed })
        ≡ ok tt)
      ↔ (((is_some title ≡ true) ⊎ (is_some description ≡ true) ⊎ (is_some completed ≡ true))
          × Fits title (λ t. (is_all_space t ≡ false) × (size t ≤ 255))
          × Fits description (λ d. size d ≤ 1000))
unfolding validate_update
validate_fields none none completed = ground arith
validate_fields none (some d) completed = ground arith
validate_fields (some t) none completed = ground (arith, is_all_space-empty t)
validate_fields (some t) (some d) completed = ground (arith, is_all_space-empty t)

-- An update is valid exactly when it gives at least one field, a title that it gives is not all
-- whitespace and has at most 255 bytes, and a description that it gives has at most 1000.
pub validate_update_iff :
    (req : UpdateTodoRequest)
    → (validate_update req ≡ ok tt) ↔ (
        ((is_some req.title ≡ true)
          ⊎ (is_some req.description ≡ true)
          ⊎ (is_some req.completed ≡ true))
        × Fits req.title (λ t. (is_all_space t ≡ false) × (size t ≤ 255))
        × Fits req.description (λ d. size d ≤ 1000))
unfolding validate_update
validate_update_iff req = validate_fields req.title req.description req.completed

-- What the validator accepts as a creation, the entity's rule accepts as a title.
pub validate_create-validate_title :
    (req : CreateTodoRequest) → validate_create req ≡ ok tt → validate_title req.title ≡ ok tt
unfolding validate_title
validate_create-validate_title req h =
    let (visible, short, _) = (validate_create_iff req).0 h in
    ground (arith, is_all_space-empty req.title visible)
