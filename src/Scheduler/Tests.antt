-- ===== src/Scheduler/Tests.antt =====
-- The alerts at concrete readings.
use llamaste.Prelude.{◌≡◌, refl, true, some, none, [], pos, negsuc, decimal, length}
use llamaste.Scheduler.{AlertConfig, Scheduler}
use llamaste.Scheduler.Alerts.{
  Readings, percent_used, check_ram, check_disk, check_model, check_temp, push_notification,
  check_alerts,
}
use llamaste.Scheduler.Cooldown.{AllWait, check_alerts-AllWait}

abbrev config : AlertConfig
config = record {
  ram_threshold_percent = pos 85;
  disk_threshold_percent = pos 90;
  temp_threshold_c = pos 80;
  cooldown_seconds = pos 300;
}

abbrev hot : Readings
hot = record {
  now = pos 1000;
  total_kb = pos 1000;
  avail_kb = pos 100;
  disk = some (100, (5, 4096));
  model = none;
  milli_c = some (pos 81500);
  new_id = decimal;
}

abbrev idle : Scheduler
idle = record {
  start_time = pos 1;
  last_model_alert = pos 0;
  model_unloaded_since = pos 0;
  last_ram_alert = pos 900;
  last_disk_alert = pos 0;
  last_temp_alert = pos 0;
  pending_notifications = [];
  notify = true;
  notified = [];
}

-- The alert about the memory still waits, and the other two come.
two_alerts : length (check_alerts config hot idle).pending_notifications ≡ 2
unfolding check_alerts check_ram check_disk check_model check_temp push_notification
two_alerts = refl

-- With more than 20 GiB in use the product with 100 leaves the `int`.
percent_of_32_gib : percent_used (pos 31000000) (pos 33554432) ≡ negsuc 34
percent_of_32_gib = refl

check_alerts-AllWait_example : AllWait config hot idle (check_alerts config hot idle)
check_alerts-AllWait_example = check_alerts-AllWait config hot idle
