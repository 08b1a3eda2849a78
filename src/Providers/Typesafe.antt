-- ===== src/Providers/Typesafe.antt =====
-- writeForcedProfileError of internal/provider/typesafe/errors.go, with the errors that it writes.
use zolem.Base.{String, ◌==◌, [], Option, none, some, if◌then◌else◌}
use zolem.Runtime.Request.{Context, forced_error_type_for_request, set_retry_headers}
use zolem.Providers.{ErrorAnswer}

abbrev pub write_unauthorized : ErrorAnswer
write_unauthorized = record {
  status = 401;
  kind = "authentication_error";
  message = "missing or invalid Authorization header";
  label = none;
  headers = [];
}

abbrev pub write_invalid_request : String → ErrorAnswer
write_invalid_request message = record {
  status = 400;
  kind = "invalid_request_error";
  message = message;
  label = none;
  headers = [];
}

unfoldable pub error_of_type : Context → String → ErrorAnswer
unfolding set_retry_headers
error_of_type ctx error_type =
    if error_type == "authentication"
    then write_unauthorized
    else if error_type == "permission"
    then record {
      status = 403;
      kind = "permission_error";
      message = "permission denied";
      label = none;
      headers = [];
    }
    else if error_type == "invalid_request"
    then write_invalid_request "invalid request"
    else if error_type == "rate_limit"
    then record {
      status = 429;
      kind = "rate_limit_error";
      message = "rate limit exceeded";
      label = none;
      headers = set_retry_headers ctx;
    }
    else if error_type == "overloaded"
    then record {
      status = 503;
      kind = "overloaded_error";
      message = "overloaded";
      label = none;
      headers = set_retry_headers ctx;
    }
    else if error_type == "server_error"
    then record {
      status = 500;
      kind = "api_error";
      message = "internal server error";
      label = none;
      headers = [];
    }
    else record {
      status = 500;
      kind = "api_error";
      message = "internal server error";
      label = none;
      headers = [];
    }

-- Nothing where the profile pins no error.
unfoldable pub write_forced_profile_error : Context → Option ErrorAnswer
unfolding forced_error_type_for_request error_of_type
write_forced_profile_error ctx = elim (forced_error_type_for_request ctx) [
  | none ↦ none
  | some error_type ↦ some (error_of_type ctx error_type)
]
