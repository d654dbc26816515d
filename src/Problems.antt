-- ===== src/Problems.antt =====
-- src/shared/errors/domain-errors.ts and src/shared/global-exception.filter.ts: the errors that the
-- services throw, and what is answered for them.
pub mod Refused
pub mod Unanswered
pub mod Queries
use pureplay_analytics_inges.Prelude.{
  ℕ, Option, none, some, List, [], ◌∷◌, ◌++◌, map, Text, codes, text_eq, truthy, or_else, ◌==◌,
  if◌then◌else◌,
}
use pureplay_analytics_inges.Platform.{Platform}
use pureplay_analytics_inges.Domain.Club.{valid_club_codes, club_text}
use pureplay_analytics_inges.Domain.Shot.{valid_vendors, vendor_text}

pub data DomainError : Type 0 where
  invalid_cursor_error : DomainError
  invalid_date_error : Text → Text → DomainError
  unknown_vendor_error : Text → DomainError
  unknown_club_code_error : Text → DomainError
  identity_not_found_error : Text → Text → Text → DomainError

unfoldable pub error_code_of : DomainError → Text
error_code_of invalid_cursor_error = codes "INVALID_CURSOR"
error_code_of (invalid_date_error field value) = codes "PAYLOAD_VALIDATION_FAILED"
error_code_of (unknown_vendor_error vendor) = codes "PAYLOAD_VALIDATION_FAILED"
error_code_of (unknown_club_code_error club) = codes "PAYLOAD_VALIDATION_FAILED"
error_code_of (identity_not_found_error vendor user canonical) = codes "NOT_FOUND"

-- `texts.join(", ")`
unfoldable pub joined : List Text → Text
joined [] = []
joined (t ∷ []) = t
joined (t ∷ u ∷ ts) = t ++ codes ", " ++ joined (u ∷ ts)

unfoldable pub message_of : DomainError → Text
message_of invalid_cursor_error = codes "Pagination cursor is malformed or expired."
message_of (invalid_date_error field value) =
    codes "Invalid date for '"
    ++ field
    ++ codes "': '"
    ++ value
    ++ codes "'. Must be a valid ISO-8601 datetime."
message_of (unknown_vendor_error vendor) =
    codes "Unknown vendor: "
    ++ vendor
    ++ codes ". Valid values: "
    ++ joined (map vendor_text valid_vendors)
message_of (unknown_club_code_error club) =
    codes "Unknown club code: "
    ++ club
    ++ codes ". Valid values: "
    ++ joined (map club_text valid_club_codes)
message_of (identity_not_found_error vendor user canonical) =
    codes "Identity mapping not found: "
    ++ vendor
    ++ codes "/"
    ++ user
    ++ 32 ∷ 8594 ∷ 32 ∷ canonical

unfoldable pub domain_error_to_http : Text → ℕ × Text
domain_error_to_http code =
    if text_eq code (codes "INVALID_CURSOR")
    then (400, code)
    else if text_eq code (codes "PAYLOAD_VALIDATION_FAILED")
    then (400, code)
    else if text_eq code (codes "NOT_FOUND")
    then (404, codes "NOT_FOUND")
    else (500, codes "INTERNAL_ERROR")

unfoldable pub map_status_to_code : ℕ → Text
map_status_to_code status =
    if status == 400
    then codes "PAYLOAD_VALIDATION_FAILED"
    else if status == 401
    then codes "UNAUTHORIZED"
    else if status == 404
    then codes "NOT_FOUND"
    else if status == 409
    then codes "CONFLICT"
    else if status == 415
    then codes "UNSUPPORTED_MEDIA_TYPE"
    else if status == 422
    then codes "UNPROCESSABLE_ENTITY"
    else if status == 429
    then codes "TOO_MANY_REQUESTS"
    else if status == 503
    then codes "SERVICE_UNAVAILABLE"
    else codes "INTERNAL_ERROR"

-- What `getResponse` gives: the members of an object that are read, a text, or something else.
pub data ExceptionResponse (I : Type 0) : Type 0 where
  members : Option Text → Option Text → Option I → Option ℕ → ExceptionResponse I
  plain : Text → ExceptionResponse I
  nothing : ExceptionResponse I

pub data Exception (I : Type 0) : Type 0 where
  domain : DomainError → Exception I
  http : ℕ → ExceptionResponse I → Exception I
  unhandled : Exception I

pub record ProblemDetails (I : Type 0) : Type 0 where
  pub type_urn : Text
  pub error_code : Text
  pub title : Text
  pub status : ℕ
  pub correlation_id : Text
  pub issues : Option I

-- The status line, the header Retry-After as a number, and the body.
pub record ProblemReply (I : Type 0) : Type 0 where
  pub status : ℕ
  pub retry_after : Option ℕ
  pub body : ProblemDetails I

abbrev pub dash : ℕ → ℕ
dash c = if c == b'_' then b'-' else c

abbrev pub correlation_id_of : Option Text → Option Text → Text
correlation_id_of (some header) request_id = header
correlation_id_of none request_id = or_else request_id (codes "unknown")

module _ ⦃p : Platform⦄ {I : Type 0} where
  unfoldable pub build_problem : ℕ → Text → Text → Text → Option I → ProblemDetails I
  build_problem status error_code title correlation_id issues = record {
    type_urn = codes "urn:problem:" ++ map dash (p.to_lower_case error_code);
    error_code = error_code;
    title = title;
    status = status;
    correlation_id = correlation_id;
    issues = issues;
  }

  abbrev pub http_reply : Text → ℕ → ExceptionResponse I → ProblemReply I
  http_reply correlation_id status (members error_code message issues retry_after) = record {
    status = status;
    retry_after = retry_after;
    body =
        build_problem status (or_else (truthy error_code) (map_status_to_code status))
          (or_else (truthy message) (codes "An error occurred.")) correlation_id issues;
  }
  http_reply correlation_id status (plain title) = record {
    status = status;
    retry_after = none;
    body = build_problem status (map_status_to_code status) title correlation_id none;
  }
  http_reply correlation_id status nothing = record {
    status = status;
    retry_after = none;
    body =
        build_problem status (map_status_to_code status) (codes "An error occurred.") correlation_id
          none;
  }

  unfoldable pub catch_exception : Option Text → Option Text → Exception I → ProblemReply I
  catch_exception header request_id (domain error) =
      let (status, code) = domain_error_to_http (error_code_of error) in
      record {
        status = status;
        retry_after = none;
        body =
            build_problem status code (message_of error) (correlation_id_of header request_id) none;
      }
  catch_exception header request_id (http status response) =
      http_reply (correlation_id_of header request_id) status response
  catch_exception header request_id unhandled = record {
    status = 500;
    retry_after = none;
    body =
        build_problem 500 (codes "INTERNAL_ERROR") (codes "An unexpected error occurred.")
          (correlation_id_of header request_id) none;
  }
