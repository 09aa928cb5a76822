-- ===== src/Sqlite/Jobs.antt =====
-- internal/store/sqlite/store.go: the delivery jobs.
use postbox.Common.{
  ℕ, String, nat_Eq, string_Eq, pair_Eq, Option, none, some, List, ltb, if◌then◌else◌, Result, ok,
  select, take,
}
use postbox.Common.Map.{get, put}
use postbox.Common.Sort.{sort_by}
use postbox.Store.{DeliveryJob, DeliveryStatus}
use postbox.MemStore.{
  values, job_key, with_defaults, updated, is_due, retry_le, newer_le, matches_recipient,
}
use postbox.Sqlite.{Tables, SqlError, Fault, exec, query, row_or_not_found}

-- `INSERT … ON CONFLICT DO NOTHING`
abbrev pub insert_job : Option DeliveryJob → DeliveryJob → Tables → Tables
insert_job none job t = record t {
  webhook_delivery_jobs = put (job_key job) job t.webhook_delivery_jobs;
}
insert_job (some existing) job t = t

-- `SaveDeliveryJob`
unfoldable pub save_delivery_job :
    Fault → ℕ → DeliveryJob → Tables → Tables × Result SqlError (Unit {0})
save_delivery_job fault now job t =
    exec fault t
      (insert_job (get (job_key job) t.webhook_delivery_jobs) (with_defaults now job) t, ok tt)

abbrev pub update_rows : Option DeliveryJob → ℕ → DeliveryJob → Tables → Tables
update_rows none now job t = t
update_rows (some existing) now job t = record t {
  webhook_delivery_jobs = put (job_key job) (updated now job existing) t.webhook_delivery_jobs;
}

-- `UpdateDeliveryJob`: an UPDATE of no row is no error.
unfoldable pub update_delivery_job :
    Fault → ℕ → DeliveryJob → Tables → Tables × Result SqlError (Unit {0})
update_delivery_job fault now job t =
    exec fault t (update_rows (get (job_key job) t.webhook_delivery_jobs) now job t, ok tt)

-- `GetDeliveryJob`
unfoldable pub get_delivery_job : Fault → String → String → Tables → Result SqlError DeliveryJob
get_delivery_job fault message_id recipient_id t =
    query fault (row_or_not_found (get (message_id, recipient_id) t.webhook_delivery_jobs))

-- `ListPendingDeliveryJobs`. Among rows with equal times the order of the table stands for the order
-- that the database chooses.
unfoldable pub list_pending_delivery_jobs :
    Fault → ℕ → ℕ → Tables → Result SqlError (List DeliveryJob)
list_pending_delivery_jobs fault before limit t =
    let rows = sort_by retry_le (select (is_due before) (values t.webhook_delivery_jobs)) in
    query fault (ok (if ltb 0 limit then take limit rows else rows))

-- `ListDeliveryJobsByRecipient`
unfoldable pub list_delivery_jobs_by_recipient :
    Fault → String → Option DeliveryStatus → Tables → Result SqlError (List DeliveryJob)
list_delivery_jobs_by_recipient fault recipient_id status t = query fault (
    ok (
      sort_by newer_le
        (select (matches_recipient recipient_id status) (values t.webhook_delivery_jobs))))
