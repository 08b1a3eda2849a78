-- ===== src/Providers/Gemini.antt =====
-- writeForcedProfileError of internal/provider/gemini/errors.go, with the errors that it writes.
use zolem.Base.{String, ◌==◌, [], Option, none, some, if◌then◌else◌}
use zolem.Runtime.Request.{Context, forced_error_type_for_request, set_retry_headers}
use zolem.Providers.{ErrorAnswer}

abbrev pub write_forbidden : ErrorAnswer
write_forbidden = record {
  status = 403;
  kind = "PERMISSION_DENIED";
  message = "API key not valid. Please pass a valid API key.";
  label = some "API_KEY_INVALID";
  headers = [];
}

abbrev pub write_permission_denied : ErrorAnswer
write_permission_denied = record {
  status = 403;
  kind = "PERMISSION_DENIED";
  message = "Permission denied.";
  label = some "ACCESS_DENIED";
  headers = [];
}

abbrev pub write_invalid_request : String → ErrorAnswer
write_invalid_request message = record {
  status = 400;
  kind = "INVALID_ARGUMENT";
  message = message;
  label = some "REQUEST_VALIDATION_FAILED";
  headers = [];
}

unfoldable pub write_rate_limit : Context → ErrorAnswer
unfolding set_retry_headers
write_rate_limit ctx = record {
  status = 429;
  kind = "RESOURCE_EXHAUSTED";
  message = "Rate limit exceeded.";
  label = some "RATE_LIMIT_EXCEEDED";
  headers = set_retry_headers ctx;
}

unfoldable pub write_overloaded : Context → ErrorAnswer
unfolding set_retry_headers
write_overloaded ctx = record {
  status = 503;
  kind = "UNAVAILABLE";
  message = "The model is overloaded. Please try again later.";
  label = some "MODEL_OVERLOADED";
  headers = set_retry_headers ctx;
}

abbrev pub write_server_error : ErrorAnswer
write_server_error = record {
  status = 500;
  kind = "INTERNAL";
  message = "Internal server error.";
  label = some "INTERNAL";
  headers = [];
}

unfoldable pub error_of_type : Context → String → ErrorAnswer
unfolding write_rate_limit write_overloaded
error_of_type ctx error_type =
    if error_type == "authentication"
    then write_forbidden
    else if error_type == "permission"
    then write_permission_denied
    else if error_type == "invalid_request"
    then write_invalid_request "Invalid request."
    else if error_type == "rate_limit"
    then write_rate_limit ctx
    else if error_type == "overloaded"
    then write_overloaded ctx
    else if error_type == "server_error"
    then write_server_error
    else write_server_error

-- Nothing where the profile pins no error.
unfoldable pub write_forced_profile_error : Context → Option ErrorAnswer
unfolding forced_error_type_for_request error_of_type
write_forced_profile_error ctx = elim (forced_error_type_for_request ctx) [
  | none ↦ none
  | some error_type ↦ some (error_of_type ctx error_type)
]
