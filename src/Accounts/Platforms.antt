-- ===== src/Accounts/Platforms.antt =====
-- The list of platforms and the manual fetch
-- (affiliate-reconciliation-backend/app/api/v1/endpoints/platforms.py).
use affiliate_platform.Prelude.{◌≡◌, refl, String, true, Option, none, some, ℕ, arith}
use affiliate_platform.Access.{is_active_platform}
use affiliate_platform.Tables.{
  Database, Platform, granted, first, IsIn, first-Found, Found, rows-IsIn,
}
use affiliate_platform.Accounts.{FetchQueued, fetch_platform_data, list_platforms, is_shown}

named_by_answer :
    (db : Database) (platform_id : ℕ) (post_url : String) (r : FetchQueued)
    (found : Option Platform)
    → first (is_active_platform platform_id) db.platforms ≡ found
    → Found (is_active_platform platform_id) db.platforms found
    → fetch_platform_data db platform_id post_url ≡ granted r
    → (p : Platform) × IsIn p (list_platforms db true)
      × (p.id ≡ r.platform_id)
      × (p.name ≡ r.platform_name)
      × (r.post_url ≡ post_url)
unfolding fetch_platform_data list_platforms
named_by_answer db platform_id post_url r none e f h = absurd (ground (arith, e, h))
named_by_answer db platform_id post_url r (some p) e f h = (
  p,
  rows-IsIn (is_shown true) p db.platforms (ground (arith, f.0)) f.1,
  ground (arith, e, h, f.0),
  ground (arith, e, h),
  ground (arith, e, h),
)

-- A manual fetch that is accepted names a platform of the list of active platforms.
pub fetch_platform_data-lists :
    (db : Database) (platform_id : ℕ) (post_url : String) (r : FetchQueued)
    → fetch_platform_data db platform_id post_url ≡ granted r
    → (p : Platform) × IsIn p (list_platforms db true)
      × (p.id ≡ r.platform_id)
      × (p.name ≡ r.platform_name)
      × (r.post_url ≡ post_url)
fetch_platform_data-lists db platform_id post_url r =
    named_by_answer db platform_id post_url r _ refl
      (first-Found (is_active_platform platform_id) db.platforms)
