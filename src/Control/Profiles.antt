-- ===== src/Control/Profiles.antt =====
-- UpsertProfile, ListProfiles and DeleteProfile of the control plane.
use zolem.Base.{
  ℤ, pos, not, ◌||◌, String, ◌==◌, List, Option, none, some, if◌then◌else◌, Result, ok, err,
}
use zolem.Runtime.{Net, RuntimeProfile}
use zolem.Runtime.Profile.{ProfileError, validate_profile}
use zolem.Runtime.Store.{Store, StoreError, upsert_profile, list_profiles, delete_profile}
use zolem.Startup.{or_default, bad_wasm}
use zolem.Startup.App.{Env}
use zolem.Control.{
  ProfilePayload, ControlPlane, ControlError, in_store, in_profile, in_startup,
  fixture_backend_unavailable, fixtures_dir_missing, namespace_missing, Files,
}

abbrev pub or_zero_ℤ : Option ℤ → ℤ
or_zero_ℤ none = pos 0
or_zero_ℤ (some n) = n

unfoldable pub profile_of_payload : String → ProfilePayload → RuntimeProfile
profile_of_payload name p = record {
  name = name;
  backend = or_default p.backend "lorem";
  backend_model = p.backend_model;
  error_type = p.error_type;
  retry_after_seconds = p.retry_after_seconds;
  response_model_policy = p.response_model_policy;
  response_model = p.response_model;
  fixture_namespace = p.fixture_namespace;
  ollama_upstream = p.ollama_upstream;
  allow_external_ollama_upstream = p.allow_external_ollama_upstream;
  calibration_temperature = p.calibration_temperature;
  wasm_module_base64 = p.wasm_module_base64;
  wasm_generate_timeout_ms = or_zero_ℤ p.wasm_generate_timeout_ms;
  stream_delay = p.stream_delay;
}

unfoldable pub check_fixture_available : Files → ControlPlane → RuntimeProfile → Option ControlError
check_fixture_available files c p =
    if c.fixtures_dir == ""
    then some fixture_backend_unavailable
    else if not (files.is_dir c.fixtures_dir)
    then some fixtures_dir_missing
    else if p.fixture_namespace == ""
        || files.is_dir (files.join_path c.fixtures_dir p.fixture_namespace)
    then none
    else some namespace_missing

abbrev pub wasm_error : Option String → Option ControlError
wasm_error none = none
wasm_error (some e) = some (in_startup (bad_wasm e))

-- The checks before the store's: of the profile, of its fixtures, of its module, which is opened and
-- closed again.
unfoldable pub check_profile :
    Net → Files → Env → ControlPlane → RuntimeProfile → Option ControlError
unfolding check_fixture_available
check_profile net files env c p = elim (validate_profile net p) [
  | some e ↦ some (in_profile e)
  | none ↦
      if p.backend == "fixture"
      then check_fixture_available files c p
      else if p.backend == "wasm"
      then wasm_error (env.compile p)
      else none
]

abbrev pub stored_profile :
    ControlPlane
    → Store × Result ProfileError RuntimeProfile
    → ControlPlane × Result ControlError RuntimeProfile
stored_profile c (s, ok p) = (record c { store = s }, ok p)
stored_profile c (s, err e) = (record c { store = s }, err (in_profile e))

module _ (net : Net) (files : Files) (env : Env) where
  unfoldable pub put_profile :
      ControlPlane → String → ProfilePayload → ControlPlane × Result ControlError RuntimeProfile
  unfolding check_profile profile_of_payload
  put_profile c name payload =
      let p = profile_of_payload name payload in
      elim (check_profile net files env c p) [
        | some e ↦ (c, err e)
        | none ↦ stored_profile c (upsert_profile net c.store p)
      ]

abbrev pub store_result : Option StoreError → Option ControlError
store_result none = none
store_result (some e) = some (in_store e)

unfoldable pub remove_profile : ControlPlane → String → ControlPlane × Option ControlError
remove_profile c name =
    let (s, e) = delete_profile c.store name in (record c { store = s }, store_result e)

unfoldable pub all_profiles : ControlPlane → List RuntimeProfile
all_profiles c = list_profiles c.store
