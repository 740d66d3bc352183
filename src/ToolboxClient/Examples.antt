-- ===== src/ToolboxClient/Examples.antt =====
-- A contract remembered, compacted away and asked for.
use repo_plane.Base.{◌≡◌, refl, true, List, [], ◌∷◌, ◌++◌, ok}
use repo_plane.ToolboxClient.{Key, Key_eq, Json, call_arguments, new}
use repo_plane.ToolboxClient.Residency.{
  Event, remembered, compacted, rehydrated, run, follow, call_of, absent, call_arguments-follow,
  no_call_after_compact,
}

abbrev json : Json
json = record { valid = λ s. true; is_object = λ s. true }

abbrev key : Key
key = record { server_identity = "s"; surface = "toolbox.v1"; toolbox = "t"; operation = "read" }

abbrev key2 : Key
key2 = record { server_identity = "s"; surface = "toolbox.v1"; toolbox = "t"; operation = "write" }

abbrev events : List Event
events = remembered key "schema:read@sha256:1" "{}" ∷ rehydrated key ∷ []

call_arguments-follow_example :
    call_arguments key (run json events new) ≡ call_of (follow json key events absent)
call_arguments-follow_example = call_arguments-follow json key events

no_call_after_compact_example : ¬ (
    call_arguments key (run json (events ++ compacted ∷ rehydrated key2 ∷ []) new)
    ≡ ok "schema:read@sha256:1")
no_call_after_compact_example =
    no_call_after_compact json key events (rehydrated key2 ∷ []) (refl, tt)
