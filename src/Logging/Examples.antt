-- ===== src/Logging/Examples.antt =====
-- Calls of the logger with the names that the endpoints give.
use affiliate_platform.Prelude.{
  map, ◌≡◌, refl, true, some, [], ◌∷◌, ◌++◌, List, String, is_some, insert,
}
use affiliate_platform.Logging.{
  ensure_request_id, are_distinct, parameters, log_performance, number, text,
}

abbrev event_names : List String
event_names = parameters ++ ("event_type" ∷ "user_id" ∷ "request_id" ∷ [])

-- The details of the events that the other endpoints log.
abbrev other_details : List (List String)
other_details =
    ("user_name" ∷ "user_email" ∷ "user_role" ∷ "client_id" ∷ "has_discord_id" ∷ "api_key_generated"
      ∷ [])
    ∷ ("client_id" ∷ "client_name" ∷ "created_by_admin_id" ∷ [])
    ∷ ("client_id" ∷ "client_name" ∷ "updated_by_admin_id" ∷ [])
    ∷ ("client_id" ∷ "client_name" ∷ "deleted_by_admin_id" ∷ [])
    ∷ ("campaign_id" ∷ "campaign_name" ∷ "client_id" ∷ "created_by" ∷ "platform_ids"
        ∷ "platform_names" ∷ [])
    ∷ ("platform_id" ∷ "platform_name" ∷ "post_url" ∷ [])
    ∷ ("post_id" ∷ "force_reprocess" ∷ "reports_enqueued" ∷ [])
    ∷ ("post_id" ∷ "affiliate_report_id" ∷ "campaign_name" ∷ "platform_name" ∷ "original_url"
        ∷ "processed_url" ∷ "url_changed" ∷ "claimed_metrics" ∷ "submission_method"
        ∷ "evidence_provided" ∷ [])
    ∷ ("post_id" ∷ "affiliate_report_id" ∷ "updated_metrics" ∷ "submission_method"
        ∷ "evidence_provided" ∷ "total_reports_for_post" ∷ [])
    ∷ ("alert_id" ∷ "alert_type" ∷ "resolved_by" ∷ "has_notes" ∷ [])
    ∷ []

-- None of them repeats a name.
other_events :
    map (λ names. are_distinct (event_names ++ names)) other_details
    ≡ map (λ names. true) other_details
other_events = refl

performance_logged :
    is_some (
      log_performance "create_user"
        (text "create_user")
        (number 12)
        (("user_id", some (number 2)) ∷ ("role", some (text "ADMIN")) ∷ []))
    ≡ true
unfolding log_performance insert
performance_logged = refl

request_id_kept :
    (ensure_request_id "new" (("X-Request-ID", "r1") ∷ []) ≡ "r1")
    × (ensure_request_id "new" (("X-Request-ID", "") ∷ []) ≡ "new")
unfolding ensure_request_id
request_id_kept = (refl, refl)
