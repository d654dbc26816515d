-- ===== src/Problems/Queries.antt =====
-- What src/shared/global-exception.filter.ts answers for the errors of src/shots/shots.service.ts and
-- src/stats/stats.service.ts.
use pureplay_analytics_inges.Prelude.{◌≡◌, ◌⊎◌, Option, none, some, Text, codes}
use pureplay_analytics_inges.Platform.{Platform}
use pureplay_analytics_inges.Database.{Database}
use pureplay_analytics_inges.Shots.Query.{
  Answer, ok, invalid_cursor, invalid_date, unknown_vendor, unknown_club_code, database_error,
}
use pureplay_analytics_inges.Problems.{
  invalid_cursor_error, invalid_date_error, unknown_vendor_error, unknown_club_code_error,
  Exception, domain, unhandled, ProblemReply, catch_exception,
}

-- What a service throws, if it does.
abbrev pub thrown : {A I : Type 0} → Answer A → Option (Exception I)
thrown (ok a) = none
thrown invalid_cursor = some (domain invalid_cursor_error)
thrown (invalid_date field value) = some (domain (invalid_date_error field value))
thrown (unknown_vendor vendor) = some (domain (unknown_vendor_error vendor))
thrown (unknown_club_code club) = some (domain (unknown_club_code_error club))
thrown database_error = some unhandled

abbrev pub IsBadQuery : {I : Type 0} → ProblemReply I → Type 0
IsBadQuery reply =
    (reply.status ≡ 400)
    × ((reply.body.error_code ≡ codes "INVALID_CURSOR")
        ⊎ (reply.body.error_code ≡ codes "PAYLOAD_VALIDATION_FAILED"))

abbrev pub IsMasked : {I : Type 0} → ProblemReply I → Type 0
IsMasked reply =
    (reply.status ≡ 500)
    × (reply.body.error_code ≡ codes "INTERNAL_ERROR")
    × (reply.body.title ≡ codes "An unexpected error occurred.")

-- A value, an answer 400, or an answer 500 with a fixed text for a query that the database refuses.
abbrev pub IsAnswered :
    ⦃p : Platform⦄ (I : Type 0) {A : Type 0}
    → Option Text
    → Option Text
    → Type 0
    → Answer A
    → Type 0
IsAnswered I {A} header request_id Refused answer =
    ((a : A) × (answer ≡ ok a))
    ⊎ ((e : Exception I) × (thrown answer ≡ some e)
        × ((catch_exception header request_id e).body.status
            ≡ (catch_exception header request_id e).status)
        × (IsBadQuery (catch_exception header request_id e)
            ⊎ (IsMasked (catch_exception header request_id e) × Refused)))
