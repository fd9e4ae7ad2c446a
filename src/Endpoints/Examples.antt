-- ===== src/Endpoints/Examples.antt =====
-- Tests and examples on alerts and the trigger of reconciliation.
use affiliate_platform.Endpoints.Trigger.{
  wanted_reports, enqueue_reports, ReconciliationTrigger, trigger_reconciliation,
}
use affiliate_platform.Prelude.{
  lookup, pos, true, false, inl, inr, [], ◌∷◌, none, List, some, ℕ, ◌≡◌, refl,
}
use affiliate_platform.Tables.{granted, User, Database, AffiliateReport}
use affiliate_platform.Endpoints.Reconciled.{trigger_reconciliation-EnqueuesNew, EnqueuesNew}
use affiliate_platform.Submissions.{App}
use affiliate_platform.Enums.{open_alert, resolved, affiliate, admin}
use affiliate_platform.JobQueue.{new_queue}
use affiliate_platform.Endpoints.Resolution.{
  Stays, AlertRow, AlertResolve, resolve_all, resolve_all-Stays,
}

abbrev done : AlertRow
done = record {
  id = 1;
  alert_type = "MISSING_DATA";
  status = resolved;
  resolved_by = some "ann";
  resolved_at = some 5;
  resolution_notes = none;
  created_at = 2;
}

abbrev raised_later : AlertRow
raised_later = record done { id = 2; status = open_alert; resolved_by = none; resolved_at = none }

abbrev by_bob : AlertResolve
by_bob = record { resolved_by = "bob"; resolution_notes = none }

abbrev calls : List (ℕ × AlertResolve × ℕ)
calls = (1, by_bob, 8) ∷ (2, by_bob, 9) ∷ []

resolve_all-Stays_example : Stays done (resolve_all (raised_later ∷ done ∷ []) calls)
resolve_all-Stays_example =
    resolve_all-Stays done (raised_later ∷ done ∷ []) calls ((refl, tt), (tt, tt))
      (refl, inr (inl refl))

abbrev root : User
root = record {
  id = 1;
  name = "root";
  email = "root@example.com";
  api_key = none;
  discord_user_id = none;
  is_active = true;
  role = admin;
  client_id = none;
  trust_score = none;
  total_submissions = 0;
}

abbrev poster : User
poster = record root { id = 4; name = "ann"; role = affiliate; trust_score = some (pos 80) }

abbrev report : ℕ → AffiliateReport
report n = record {
  id = n;
  post_id = 9;
  claim = record { views = 10; clicks = 2; conversions = 1 };
  has_evidence = true;
  suspicion_flags = [];
  submitted_at = n;
}

-- Report 6 has a log already.
abbrev platform_db : Database
platform_db = record {
  users = root ∷ poster ∷ [];
  clients = [];
  campaigns = [];
  platforms = [];
  posts =
      record {
        id = 9;
        campaign_id = 1;
        user_id = 4;
        platform_id = 2;
        url = [];
        title = none;
        description = none;
        created_at = 0;
      }
      ∷ [];
  reports = report 6 ∷ report 7 ∷ [];
  logged = 6 ∷ [];
  foreign_keys = true;
}

abbrev app : App
app = record { db = platform_db; reconciliation_queue = some new_queue }

abbrev all_pending : ReconciliationTrigger
all_pending = record { post_id = none; force_reprocess = false }

triggered : (trigger_reconciliation app root all_pending 3).1 ≡ granted (7 ∷ [])
unfolding trigger_reconciliation wanted_reports enqueue_reports lookup
triggered = refl

trigger_reconciliation-EnqueuesNew_example :
    EnqueuesNew app all_pending (trigger_reconciliation app root all_pending 3)
trigger_reconciliation-EnqueuesNew_example =
    trigger_reconciliation-EnqueuesNew app root all_pending 3
