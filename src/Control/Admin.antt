-- ===== src/Control/Admin.antt =====
-- The admin API of cmd/zolem/local_admin.go: hostGuard over buildLocalAdminHandler, to the status and
-- the body of each answer.
pub mod Names
pub mod Answers
pub mod Serve
use zolem.Base.{
  ℕ, Bool, not, ◌&&◌, ◌||◌, String, ◌==◌, List, [], ◌∷◌, Option, none, some, if◌then◌else◌,
  cut_prefix, split_slash, is_empty, path_base, Result, ok, err,
}
use zolem.Runtime.{Net, RuntimeProfile, ListenerRuntime}
use zolem.Runtime.Host.{host_header_allowed}
use zolem.Runtime.Store.{get_profile, profile_not_found, listener_not_found, profile_in_use}
use zolem.Recorder.{RecordedCall}
use zolem.Startup.App.{Env, build_warnings}
use zolem.Control.{
  ControlPlane, ControlError, in_store, ListenerPayload, ListenerView, ProfilePayload, Files,
}
use zolem.Control.Profiles.{put_profile, remove_profile, all_profiles}
use zolem.Control.Listeners.{
  spec_of_payload, put_listener, all_listeners, get_listener, remove_listener, list_calls,
  clear_calls,
}

pub record AdminRequest : Type 0 where
  pub method : String
  pub host : String
  pub path : String
  pub body : String

-- What decodeRequestJSON makes of a body, with encoding/json.
pub record Json : Type 0 where
  pub decode_profile : String → Result String ProfilePayload
  pub decode_listener : String → Result String ListenerPayload

pub data Body : Type 0 where
  healthy no_body not_found host_not_allowed : Body
  method_not_allowed : String → Body
  malformed : String → Body
  failed : ControlError → Body
  profiles : List RuntimeProfile → Body
  listeners : List ListenerView → Body
  profile : RuntimeProfile → Body
  view : ListenerView → Body
  calls : List RecordedCall → Body
  cleared : ℕ → Body

-- `warnings` is the header X-Zolem-Warnings.
pub record Answer : Type 0 where
  pub status : ℕ
  pub body : Body
  pub warnings : List String

abbrev pub answer_of : ℕ → Body → Answer
answer_of status body = record { status = status; body = body; warnings = [] }

unfoldable pub local_resource_name : String → String → Option String
unfolding cut_prefix path_base
local_resource_name prefix p = elim (cut_prefix prefix p) [
  | none ↦ none
  | some name ↦ if is_empty name || not (name == path_base name) then none else some name
]

-- The statuses that a handler picks for an error.
abbrev pub missing_status : ControlError → ℕ → ℕ
missing_status (in_store listener_not_found) default = 404
missing_status _ default = default

abbrev pub profile_status : ControlError → ℕ
profile_status (in_store profile_not_found) = 404
profile_status (in_store profile_in_use) = 409
profile_status _ = 400

abbrev pub put_status : ControlError → ℕ
put_status (in_store profile_not_found) = 404
put_status _ = 400

abbrev pub put_profile_answer :
    ControlPlane × Result ControlError RuntimeProfile → ControlPlane × Answer
put_profile_answer (c, err e) = (c, answer_of 400 (failed e))
put_profile_answer (c, ok p) = (c, answer_of 200 (profile p))

abbrev pub remove_profile_answer : ControlPlane × Option ControlError → ControlPlane × Answer
remove_profile_answer (c, none) = (c, answer_of 204 no_body)
remove_profile_answer (c, some e) = (c, answer_of (profile_status e) (failed e))

abbrev pub put_listener_answer :
    List String → ControlPlane × Result ControlError ListenerView → ControlPlane × Answer
put_listener_answer warnings (c, err e) = (c, answer_of (put_status e) (failed e))
put_listener_answer warnings (c, ok v) =
    (c, record { status = 200; body = view v; warnings = warnings })

abbrev pub get_listener_answer : Result ControlError ListenerView → Answer
get_listener_answer (err e) = answer_of (missing_status e 500) (failed e)
get_listener_answer (ok v) = answer_of 200 (view v)

abbrev pub remove_listener_answer : ControlPlane × Option ControlError → ControlPlane × Answer
remove_listener_answer (c, none) = (c, answer_of 204 no_body)
remove_listener_answer (c, some e) = (c, answer_of (missing_status e 400) (failed e))

abbrev pub list_calls_answer : Result ControlError (List RecordedCall) → Answer
list_calls_answer (err e) = answer_of (missing_status e 500) (failed e)
list_calls_answer (ok cs) = answer_of 200 (calls cs)

abbrev pub clear_calls_answer : ControlPlane × Result ControlError ℕ → ControlPlane × Answer
clear_calls_answer (c, err e) = (c, answer_of (missing_status e 500) (failed e))
clear_calls_answer (c, ok n) = (c, answer_of 200 (cleared n))

unfoldable pub handle_listener_calls : ControlPlane → String → String → ControlPlane × Answer
unfolding list_calls clear_calls
handle_listener_calls c method name =
    if method == "GET"
    then (c, list_calls_answer (list_calls c name))
    else if method == "DELETE"
    then clear_calls_answer (clear_calls c name)
    else (c, answer_of 405 (method_not_allowed "GET, DELETE"))

-- The warnings of the build that an upsert makes.
unfoldable pub upsert_warnings : Env → ControlPlane → String → ListenerPayload → List String
unfolding get_profile build_warnings spec_of_payload
upsert_warnings env c name payload = elim (get_profile c.store payload.profile) [
  | none ↦ []
  | some p ↦
      build_warnings env (record { spec = spec_of_payload name payload; profile = p })
        c.fixtures_dir
]

module _ (net : Net) (files : Files) (env : Env) (json : Json) where
  abbrev pub put_profile_resource :
      ControlPlane → String → Result String ProfilePayload → ControlPlane × Answer
  put_profile_resource c name (err e) = (c, answer_of 400 (malformed e))
  put_profile_resource c name (ok payload) =
      put_profile_answer (put_profile net files env c name payload)

  abbrev pub named_profile : ControlPlane → AdminRequest → Option String → ControlPlane × Answer
  named_profile c req none = (c, answer_of 404 not_found)
  named_profile c req (some name) =
      if req.method == "PUT"
      then put_profile_resource c name (json.decode_profile req.body)
      else if req.method == "DELETE"
      then remove_profile_answer (remove_profile c name)
      else (c, answer_of 405 (method_not_allowed "PUT, DELETE"))

  unfoldable pub handle_profile_resource : ControlPlane → AdminRequest → ControlPlane × Answer
  unfolding local_resource_name put_profile remove_profile
  handle_profile_resource c req =
      named_profile c req (local_resource_name "/_zolem/profiles/" req.path)

  abbrev pub put_listener_resource :
      ControlPlane → String → Result String ListenerPayload → ControlPlane × Answer
  put_listener_resource c name (err e) = (c, answer_of 400 (malformed e))
  put_listener_resource c name (ok payload) =
      put_listener_answer (upsert_warnings env c name payload)
        (put_listener net files env c name payload)

  unfoldable pub handle_listener_resource :
      ControlPlane → AdminRequest → String → ControlPlane × Answer
  unfolding put_listener get_listener remove_listener upsert_warnings
  handle_listener_resource c req name =
      if req.method == "PUT"
      then put_listener_resource c name (json.decode_listener req.body)
      else if req.method == "GET"
      then (c, get_listener_answer (get_listener c name))
      else if req.method == "DELETE"
      then remove_listener_answer (remove_listener c name)
      else (c, answer_of 405 (method_not_allowed "PUT, GET, DELETE"))

  -- The segments of the path below the listeners.
  abbrev pub listener_segments : ControlPlane → AdminRequest → List String → ControlPlane × Answer
  listener_segments c req (name ∷ []) =
      if not (is_empty name)
      then handle_listener_resource c req name
      else (c, answer_of 404 not_found)
  listener_segments c req (name ∷ last ∷ []) =
      if not (is_empty name) && last == "calls"
      then handle_listener_calls c req.method name
      else (c, answer_of 404 not_found)
  listener_segments c req _ = (c, answer_of 404 not_found)

  unfoldable pub handle_listener_path : ControlPlane → AdminRequest → String → ControlPlane × Answer
  unfolding split_slash handle_listener_resource handle_listener_calls
  handle_listener_path c req rest = listener_segments c req (split_slash rest)

  abbrev pub below_listeners : ControlPlane → AdminRequest → Option String → ControlPlane × Answer
  below_listeners c req none = (c, answer_of 404 not_found)
  below_listeners c req (some rest) = handle_listener_path c req rest

  unfoldable pub admin_handler : ControlPlane → AdminRequest → ControlPlane × Answer
  unfolding all_profiles all_listeners cut_prefix handle_profile_resource handle_listener_path
  admin_handler c req =
      if req.method == "GET" && req.path == "/_zolem/health"
      then (c, answer_of 200 healthy)
      else if req.method == "GET" && req.path == "/_zolem/profiles"
      then (c, answer_of 200 (profiles (all_profiles c)))
      else if req.method == "GET" && req.path == "/_zolem/listeners"
      then (c, answer_of 200 (listeners (all_listeners c)))
      else elim (cut_prefix "/_zolem/profiles/" req.path) [
        | some rest ↦ handle_profile_resource c req
        | none ↦ below_listeners c req (cut_prefix "/_zolem/listeners/" req.path)
      ]

  unfoldable pub serve_admin : ControlPlane → AdminRequest → ControlPlane × Answer
  unfolding host_header_allowed admin_handler
  serve_admin c req =
      if not (host_header_allowed net req.host c.allowed_hosts)
      then (c, answer_of 403 host_not_allowed)
      else admin_handler c req
