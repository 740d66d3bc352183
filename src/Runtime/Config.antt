-- ===== src/Runtime/Config.antt =====
-- internal/runtimeconfig/types.go: the check of a configuration request. `values` is `none` for a nil
-- slice. strings.TrimSpace is a parameter.
pub mod Accepts
use repo_plane.Base.{
  ℕ, String, len, Bool, true, false, not, ◌&&◌, ◌||◌, Option, none, some, List, [], ◌∷◌, ltb, ◌==◌,
  ◌!=◌, String_eq, ℕ_eq, if◌then◌else◌, length, any, Result, ok, err, reject, ◌>>=◌, ◌>>◌,
}

pub data ConfigError : Type 0 where
  invalid replace_values : ConfigError

pub record Request : Type 0 where
  pub action : String
  pub target : String
  pub values : Option (List String)

abbrev pub values_of : Option (List String) → List String
values_of none = []
values_of (some vs) = vs

abbrev pub is_source_target : String → Bool
is_source_target t =
    t == "catalog_root" || t == "candidate_root" || t == "rule_file" || t == "symbol_index"

module _ (trim : String → String) where
  -- len(request.Values) != 1 || strings.TrimSpace(request.Values[0]) == ""
  unfoldable pub is_one_value : List String → Bool
  is_one_value (v ∷ []) = trim v != ""
  is_one_value _ = false

  unfoldable pub validate_source : String → Option (List String) → Result ConfigError (Unit {0})
  validate_source action values =
      if action == "add" || action == "remove"
      then reject (not (is_one_value (values_of values))) invalid
      else if action == "replace"
      then (elim values [
        | none ↦ err replace_values
        | some vs ↦ reject (any (λ v. trim v == "") vs) invalid
      ])
      else if action == "refresh"
      then reject (length (values_of values) != 0) invalid
      else err invalid

  unfoldable pub validate_target :
      String → String → Option (List String) → Result ConfigError (Unit {0})
  validate_target action target values =
      if is_source_target target
      then validate_source action values
      else if target == "workspace" || target == "state_dir"
      then reject (action != "select" || not (is_one_value (values_of values))) invalid
      else if target == "http_transport"
      then (if action == "start"
          then reject (not (is_one_value (values_of values))) invalid
          else if action == "stop"
          then reject (length (values_of values) != 0) invalid
          else err invalid)
      else err invalid

  unfoldable pub validate : Request → Result ConfigError (Unit {0})
  validate request =
      let action = trim request.action in
      let target = trim request.target in
      let values = values_of request.values in
      if ltb 64 (length values)
      then err invalid
      else if any (λ v. ltb 4096 (len v)) values
      then err invalid
      else if action == "status"
      then reject (target != "" || length values != 0) invalid
      else validate_target action target request.values
