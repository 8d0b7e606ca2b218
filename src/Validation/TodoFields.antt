-- ===== src/Validation/TodoFields.antt =====
-- Application/src/Validation/InputValidator.cpp and Domain/src/Entities/Todo.cpp.
pub mod Limits
use cppbackend_api.Base.{
  Bool, not, ◌&&◌, Option, none, some, List, [], ◌∷◌, ◌++◌, String, if◌then◌else◌, ltb, is_empty,
  is_some, bytes, size, all,
}
use cppbackend_api.Domain.Result.{Result, ok, err, fail_with}
use cppbackend_api.Validation.{reject_if_any, is_space}

pub record CreateTodoRequest : Type 0 where
  pub title : String
  pub description : String

pub record UpdateTodoRequest : Type 0 where
  pub title : Option String
  pub description : Option String
  pub completed : Option Bool

-- InputValidator::isAllWhitespace; true of the empty text.
unfoldable pub is_all_space : String → Bool
is_all_space s = all is_space (bytes s)

abbrev pub title_errors : String → String → List String
title_errors missing title =
    if is_empty title
    then missing ∷ []
    else if is_all_space title
    then "Field 'title' cannot consist solely of whitespace." ∷ []
    else if ltb 255 (size title)
    then "Field 'title' must not exceed 255 characters." ∷ []
    else []

abbrev pub description_errors : String → List String
description_errors description =
    if ltb 1000 (size description)
    then "Field 'description' must not exceed 1000 characters." ∷ []
    else []

unfoldable pub validate_create : CreateTodoRequest → Result (Unit {0})
validate_create req = reject_if_any "Validation failed for CreateTodoRequest" (
    title_errors "Field 'title' is required and cannot be empty." req.title
    ++ description_errors req.description)

abbrev pub of_field : (String → List String) → Option String → List String
of_field check none = []
of_field check (some s) = check s

abbrev pub nothing_given : UpdateTodoRequest → List String
nothing_given req =
    if not (is_some req.title) && not (is_some req.description) && not (is_some req.completed)
    then "At least one field ('title', 'description', or 'completed') must be supplied for update."
      ∷ []
    else []

unfoldable pub validate_update : UpdateTodoRequest → Result (Unit {0})
validate_update req = reject_if_any "Validation failed for UpdateTodoRequest" (
    nothing_given req
    ++ (of_field (title_errors "Field 'title' cannot be empty.") req.title
        ++ of_field description_errors req.description))

-- Todo::validate, the entity's own rule.
unfoldable pub validate_title : String → Result (Unit {0})
validate_title title =
    if is_empty title
    then err (fail_with 400 "Domain validation failed" "Field 'title' cannot be empty")
    else if ltb 255 (size title)
    then err (fail_with 400 "Domain validation failed" "Field 'title' cannot exceed 255 characters")
    else ok tt
