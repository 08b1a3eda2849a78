-- ===== src/Providers/Ollama.antt =====
-- writeForcedProfileError of internal/provider/ollama/errors.go, with the errors that it writes.
use zolem.Base.{String, ◌==◌, [], Option, none, some, if◌then◌else◌}
use zolem.Runtime.Request.{Context, forced_error_type_for_request, set_retry_headers}
use zolem.Providers.{ErrorAnswer}

unfoldable pub error_of_type : Context → String → ErrorAnswer
unfolding set_retry_headers
error_of_type ctx error_type =
    if error_type == "authentication"
    then record {
      status = 401;
      kind = "";
      message = "authorization failed";
      label = none;
      headers = [];
    }
    else if error_type == "permission"
    then record { status = 403; kind = ""; message = "access denied"; label = none; headers = [] }
    else if error_type == "invalid_request"
    then record { status = 400; kind = ""; message = "invalid request"; label = none; headers = [] }
    else if error_type == "rate_limit"
    then record {
      status = 429;
      kind = "";
      message = "rate limit exceeded";
      label = none;
      headers = set_retry_headers ctx;
    }
    else if error_type == "overloaded"
    then record {
      status = 503;
      kind = "";
      message = "server overloaded";
      label = none;
      headers = set_retry_headers ctx;
    }
    else if error_type == "server_error"
    then record { status = 500; kind = ""; message = "server error"; label = none; headers = [] }
    else record { status = 500; kind = ""; message = "server error"; label = none; headers = [] }

-- Nothing where the profile pins no error.
unfoldable pub write_forced_profile_error : Context → Option ErrorAnswer
unfolding forced_error_type_for_request error_of_type
write_forced_profile_error ctx = elim (forced_error_type_for_request ctx) [
  | none ↦ none
  | some error_type ↦ some (error_of_type ctx error_type)
]
