-- ===== src/Scheduler.antt =====
-- src/llamaste/scheduler.h and scheduler.cpp: what alerts and tasks share.
pub mod Alerts
pub mod Cooldown
pub mod Tasks
pub mod TaskChecks
pub mod TaskTable
pub mod TaskFiring
pub mod TaskRuns
pub mod Cron
pub mod CronSearch
mod Tests
mod TaskTests
use llamaste.Prelude.{ℕ, Bool, List, Bytes, ℤ}

pub record AlertConfig : Type 0 where
  pub ram_threshold_percent : ℤ
  pub disk_threshold_percent : ℤ
  pub temp_threshold_c : ℤ
  pub cooldown_seconds : ℤ

pub record Notification : Type 0 where
  pub id : Bytes
  pub type : Bytes
  pub title : Bytes
  pub body : Bytes
  pub time : ℤ

-- The fields that the alerts use. `notified` has what was passed to `notify_fn_`, if one is set.
pub record Scheduler : Type 0 where
  pub start_time : ℤ
  pub last_model_alert : ℤ
  pub model_unloaded_since : ℤ
  pub last_ram_alert : ℤ
  pub last_disk_alert : ℤ
  pub last_temp_alert : ℤ
  pub pending_notifications : List Notification
  pub notify : Bool
  pub notified : List Notification
