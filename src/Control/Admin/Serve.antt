-- ===== src/Control/Admin/Serve.antt =====
-- Each route of the admin API, to the whole handler.
use zolem.Base.{
  ℕ, not, ◌&&◌, true, String, ◌==◌, List, [], ◌∷◌, Option, none, some, string_eq, is_empty,
  cut_prefix, split_slash, ◌≡◌, inl, inr, refl, arith, Bool-cases, Option-cases, Result, ok, err,
}
use zolem.Runtime.{Net}
use zolem.Runtime.Host.{host_header_allowed}
use zolem.Runtime.Profile.{validate_profile}
use zolem.Runtime.Store.{profile_not_found, listener_not_found, profile_in_use, upsert_profile}
use zolem.Startup.App.{Env}
use zolem.Control.{
  ControlPlane, ControlError, in_store, in_profile, in_listener, in_startup, cap_not_positive,
  fixture_backend_unavailable, fixtures_dir_missing, namespace_missing, Files, ListenerPayload,
  ListenerView, ProfilePayload,
}
use zolem.Control.Profiles.{check_profile, profile_of_payload, put_profile, all_profiles}
use zolem.Control.Listeners.{put_listener, all_listeners}
use zolem.Control.State.{IsControl}
use zolem.Control.State.Entry.{put_profile-IsControl}
use zolem.Control.Admin.{
  upsert_warnings, failed, malformed, healthy, profiles, listeners, profile, AdminRequest, Json,
  Body, answer_of, put_status, put_profile_resource, named_profile, handle_profile_resource,
  put_listener_resource, handle_listener_resource, listener_segments, handle_listener_path,
  below_listeners, admin_handler, serve_admin, local_resource_name, put_profile_answer,
  put_listener_answer,
}
use zolem.Control.Admin.Answers.{
  is_known_status, Settled, fine, refused, unknown, Settled-handle_listener_calls,
  Settled-get_listener, Settled-remove_listener, Settled-remove_profile, Upserted,
  Upserted-put_listener,
}

is_known_put_status : (e : ControlError) → is_known_status (put_status e) ≡ true
unfolding is_known_status
is_known_put_status (in_store profile_not_found) = refl
is_known_put_status (in_store listener_not_found) = refl
is_known_put_status (in_store profile_in_use) = refl
is_known_put_status (in_profile e) = refl
is_known_put_status (in_listener e) = refl
is_known_put_status (in_startup e) = refl
is_known_put_status cap_not_positive = refl
is_known_put_status fixture_backend_unavailable = refl
is_known_put_status fixtures_dir_missing = refl
is_known_put_status namespace_missing = refl

module _ (net : Net) (files : Files) (env : Env) (json : Json) (c : ControlPlane) (others : List ℕ)
    (v : IsControl c others) where
  failure : (body : Body) → Settled c others (c, answer_of 400 body)
  unfolding is_known_status
  failure body = (v, refl, λ e. (refl, refl))

  Settled-put_profile :
      (name : String) (payload : ProfilePayload)
      → Settled c others (put_profile_answer (put_profile net files env c name payload))
  unfolding put_profile upsert_profile
  Settled-put_profile name payload =
      let p = profile_of_payload name payload in
      elim (Option-cases (check_profile net files env c p)) [
        | inr (e, bad) ↦ rw (bad, put_profile) (failure (failed e))
        | inl checked ↦ elim (Option-cases (validate_profile net p)) [
          | inr (e, bad) ↦
              rw (checked, bad, put_profile, upsert_profile) (failure (failed (in_profile e)))
          | inl good ↦
              rw (checked, good, put_profile, upsert_profile)
                (fine c others v _ (profile p) (
                  rw (checked, good, put_profile, upsert_profile) at
                    (put_profile-IsControl c others net files env name payload v)))
        ]
      ]

  Settled-put_profile_resource :
      (name : String) (r : Result String ProfilePayload)
      → Settled c others (put_profile_resource net files env json c name r)
  Settled-put_profile_resource name (err e) = failure (malformed e)
  Settled-put_profile_resource name (ok payload) = Settled-put_profile name payload

  Settled-named_profile :
      (req : AdminRequest) (o : Option String)
      → Settled c others (named_profile net files env json c req o)
  Settled-named_profile req none = unknown c others v
  Settled-named_profile req (some name) = elim (Bool-cases (req.method == "PUT")) [
    | inl put ↦ rw put (Settled-put_profile_resource name (json.decode_profile req.body))
    | inr other ↦ elim (Bool-cases (req.method == "DELETE")) [
      | inl del ↦ rw (other, del) (Settled-remove_profile c others v name)
      | inr neither ↦ rw (other, neither) (refused c others v "PUT, DELETE")
    ]
  ]

  Settled-put_listener_answer :
      (warnings : List String) (r : ControlPlane × Result ControlError ListenerView)
      → Upserted c others r
      → Settled c others (put_listener_answer warnings r)
  unfolding is_known_status
  Settled-put_listener_answer warnings (d, err e) (w, same) = (w, is_known_put_status e, λ h. same)
  Settled-put_listener_answer warnings (d, ok l) w = (w, refl, λ h. absurd (omega (arith, h)))

  Settled-put_listener_resource :
      (name : String) (r : Result String ListenerPayload)
      → Settled c others (put_listener_resource net files env json c name r)
  Settled-put_listener_resource name (err e) = failure (malformed e)
  Settled-put_listener_resource name (ok payload) =
      Settled-put_listener_answer (upsert_warnings env c name payload)
        (put_listener net files env c name payload)
        (Upserted-put_listener net files env c others name payload v)

  Settled-handle_listener_resource :
      (req : AdminRequest) (name : String)
      → Settled c others (handle_listener_resource net files env json c req name)
  unfolding handle_listener_resource
  Settled-handle_listener_resource req name = elim (Bool-cases (req.method == "PUT")) [
    | inl put ↦
        rw (put, handle_listener_resource)
          (Settled-put_listener_resource name (json.decode_listener req.body))
    | inr not_put ↦ elim (Bool-cases (req.method == "GET")) [
      | inl get ↦ rw (not_put, get, handle_listener_resource) (Settled-get_listener c others v name)
      | inr not_get ↦ elim (Bool-cases (req.method == "DELETE")) [
        | inl del ↦
            rw (not_put, not_get, del, handle_listener_resource)
              (Settled-remove_listener c others v name)
        | inr neither ↦
            rw (not_put, not_get, neither, handle_listener_resource)
              (refused c others v "PUT, GET, DELETE")
      ]
    ]
  ]

  Settled-listener_segments :
      (req : AdminRequest) (segments : List String)
      → Settled c others (listener_segments net files env json c req segments)
  Settled-listener_segments req [] = unknown c others v
  Settled-listener_segments req (name ∷ []) = elim (Bool-cases (is_empty name)) [
    | inl empty ↦ rw empty (unknown c others v)
    | inr filled ↦ rw filled (Settled-handle_listener_resource req name)
  ]
  Settled-listener_segments req (name ∷ last ∷ []) =
      elim (Bool-cases (not (is_empty name) && last == "calls")) [
        | inl call ↦ rw call (Settled-handle_listener_calls c others v req.method name)
        | inr other ↦ rw other (unknown c others v)
      ]
  Settled-listener_segments req (name ∷ last ∷ more ∷ rest) = unknown c others v

  Settled-below_listeners :
      (req : AdminRequest) (o : Option String)
      → Settled c others (below_listeners net files env json c req o)
  unfolding handle_listener_path
  Settled-below_listeners req none = unknown c others v
  Settled-below_listeners req (some rest) = Settled-listener_segments req (split_slash rest)

  Settled-admin_handler :
      (req : AdminRequest) → Settled c others (admin_handler net files env json c req)
  unfolding admin_handler handle_profile_resource
  Settled-admin_handler req =
      elim (Bool-cases (req.method == "GET" && req.path == "/_zolem/health")) [
        | inl health ↦ rw (health, admin_handler) (fine c others v c healthy v)
        | inr not_health ↦
            elim (Bool-cases (req.method == "GET" && req.path == "/_zolem/profiles")) [
              | inl ps ↦
                  rw (not_health, ps, admin_handler)
                    (fine c others v c (profiles (all_profiles c)) v)
              | inr not_ps ↦
                  elim (Bool-cases (req.method == "GET" && req.path == "/_zolem/listeners")) [
                    | inl ls ↦
                        rw (not_health, not_ps, ls, admin_handler)
                          (fine c others v c (listeners (all_listeners c)) v)
                    | inr not_ls ↦ elim (Option-cases (cut_prefix "/_zolem/profiles/" req.path)) [
                      | inr (rest, found) ↦
                          rw (not_health, not_ps, not_ls, found, admin_handler)
                            (Settled-named_profile req
                              (local_resource_name "/_zolem/profiles/" req.path))
                      | inl missing ↦
                          rw (not_health, not_ps, not_ls, missing, admin_handler)
                            (Settled-below_listeners req (cut_prefix "/_zolem/listeners/" req.path))
                    ]
                  ]
            ]
      ]

  -- Where the control plane's registry and store agree and what is open has its owners: whatever
  -- the request to the admin API, that stays so, the status is 200, 204, 400, 403, 404, 405 or
  -- 409, so that no branch for an internal error is reached, and an answer of 400 or more has
  -- changed neither the store nor the registry.
  pub Settled-serve_admin :
      (req : AdminRequest) → Settled c others (serve_admin net files env json c req)
  unfolding serve_admin is_known_status
  Settled-serve_admin req = elim (Bool-cases (host_header_allowed net req.host c.allowed_hosts)) [
    | inl allowed ↦ rw (allowed, serve_admin) (Settled-admin_handler req)
    | inr other ↦ rw (other, serve_admin) (v, refl, λ e. (refl, refl))
  ]
