-- ===== src/Scheduler/Alerts.antt =====
-- src/llamaste/scheduler.cpp: `push_notification` and `check_alerts`.
use llamaste.Prelude.{
  ℕ, suc, ◌+◌, ◌-◌, ◌*◌, ◌/◌, ◌%◌, Bool, true, false, not, ◌&&◌, Option, none, some, [], ◌∷◌, List,
  ◌++◌, Bytes, codes, decimal, ℤ, pos, negsuc, sub_ℕ, ◌-ℤ◌, ltb_ℤ, leb_ℤ, eqb_ℤ, signed32, ltb,
  if◌then◌else◌,
}
use llamaste.Text.{int_text}
use llamaste.Scheduler.{AlertConfig, Notification, Scheduler}

-- What the checks read: the clock, /proc/meminfo (-1 for a missing line), the blocks, free blocks
-- and block size of /data, what the two calls of `model_check_fn_` return, and the thermal zone in
-- thousandths of a degree, which as degrees fits in an `int`. `new_id` gives the next id.
pub record Readings : Type 0 where
  pub now : ℤ
  pub total_kb : ℤ
  pub avail_kb : ℤ
  pub disk : Option (ℕ × (ℕ × ℕ))
  pub model : Option (Bool × Bool)
  pub milli_c : Option ℤ
  pub new_id : ℕ → Bytes

unfoldable pub push_notification : Notification → Scheduler → Scheduler
push_notification notif s = record s {
  pending_notifications = s.pending_notifications ++ notif ∷ [];
  notified = if s.notify then s.notified ++ notif ∷ [] else s.notified;
}

-- Division of `int` and `long`, towards 0.
abbrev quotient : ℤ → ℕ → ℤ
quotient (pos n) d = pos (n / d)
quotient (negsuc n) d = sub_ℕ 0 (suc n / d)

-- `used_kb * 100`, in the 32 bits of an `int`.
abbrev pub hundredfold : ℤ → ℤ
hundredfold (pos n) = signed32 (n * 100 % 4294967296)
hundredfold (negsuc n) = signed32 ((4294967296 - suc n * 100 % 4294967296) % 4294967296)

abbrev pub alert : ℕ → Readings → Bytes → Bytes → Notification
alert k r title body = record {
  id = r.new_id k;
  type = codes "alert";
  title = title;
  body = body;
  time = r.now;
}

abbrev pub percent_used : ℤ → ℤ → ℤ
percent_used used_kb (pos total_kb) = quotient (hundredfold used_kb) total_kb
percent_used used_kb (negsuc n) = pos 0

unfoldable pub check_ram : AlertConfig → Readings → Scheduler → Scheduler
check_ram cfg r s =
    let used_kb : ℤ = r.total_kb -ℤ r.avail_kb in
    let used_pct : ℤ = percent_used used_kb r.total_kb in
    let body : Bytes =
      codes "RAM usage at "
      ++ (int_text used_pct
          ++ (codes "% ("
              ++ (int_text (quotient used_kb 1024)
                  ++ (codes " MB / "
                      ++ (int_text (quotient r.total_kb 1024) ++ codes " MB used)"))))) in
    let fires =
      ltb_ℤ (pos 0) cfg.ram_threshold_percent
      && (ltb_ℤ (pos 0) r.total_kb && leb_ℤ (pos 0) r.avail_kb)
      && leb_ℤ cfg.ram_threshold_percent used_pct
      && leb_ℤ cfg.cooldown_seconds (r.now -ℤ s.last_ram_alert) in
    if fires
    then push_notification (alert 0 r (codes "High RAM Usage") body)
        (record s { last_ram_alert = r.now })
    else s

-- The sizes are unsigned, in 64 bits.
abbrev disk_total : ℕ → ℕ → ℕ
disk_total blocks frsize = blocks * frsize % 18446744073709551616

abbrev disk_used : ℕ → ℕ → ℕ → ℕ
disk_used blocks bfree frsize =
    (disk_total blocks frsize + (18446744073709551616 - disk_total bfree frsize))
    % 18446744073709551616

abbrev disk_percent : ℕ → ℕ → ℕ → ℤ
disk_percent blocks bfree frsize = signed32 (
    disk_used blocks bfree frsize
    * 100
    % 18446744073709551616
    / disk_total blocks frsize
    % 4294967296)

abbrev disk_body : ℕ → ℕ → ℕ → Bytes
disk_body blocks bfree frsize =
    codes "Disk usage at "
    ++ (int_text (disk_percent blocks bfree frsize)
        ++ (codes "% ("
            ++ (decimal (disk_used blocks bfree frsize / 1048576)
                ++ (codes " MB / "
                    ++ (decimal (disk_total blocks frsize / 1048576) ++ codes " MB used)")))))

unfoldable pub check_disk : AlertConfig → Readings → Option (ℕ × (ℕ × ℕ)) → Scheduler → Scheduler
check_disk cfg r none s = s
check_disk cfg r (some (blocks, (bfree, frsize))) s =
    let fires =
      ltb_ℤ (pos 0) cfg.disk_threshold_percent
      && ltb 0 blocks
      && leb_ℤ cfg.disk_threshold_percent (disk_percent blocks bfree frsize)
      && leb_ℤ cfg.cooldown_seconds (r.now -ℤ s.last_disk_alert) in
    if fires
    then push_notification (alert 1 r (codes "High Disk Usage") (disk_body blocks bfree frsize))
        (record s { last_disk_alert = r.now })
    else s

-- Since when the model is unloaded, after the first call of `model_check_fn_`.
abbrev pub unloaded_since : Bool → ℤ → ℤ → ℤ
unloaded_since true now since = pos 0
unloaded_since false now since = if eqb_ℤ since (pos 0) then now else since

-- The arrow of the text has three bytes.
abbrev model_body : Bytes
model_body =
    codes "Chat is unavailable. Go to Dashboard "
    ++ (226 ∷ 134 ∷ 146 ∷ codes " Download a model to enable AI.")

unfoldable pub check_model : Readings → Option (Bool × Bool) → Scheduler → Scheduler
check_model r none s = s
check_model r (some (loaded, still_loaded)) s =
    let since : ℤ = unloaded_since loaded r.now s.model_unloaded_since in
    let seen : Scheduler = record s { model_unloaded_since = since } in
    let fires =
      ltb_ℤ (pos 0) s.start_time
      && leb_ℤ (pos 60) (r.now -ℤ s.start_time)
      && not still_loaded
      && ltb_ℤ (pos 0) since
      && leb_ℤ (pos 120) (r.now -ℤ since)
      && leb_ℤ (pos 1800) (r.now -ℤ s.last_model_alert) in
    if fires
    then push_notification (alert 2 r (codes "No AI Model Loaded") model_body)
        (record seen { last_model_alert = r.now })
    else seen

unfoldable pub check_temp : AlertConfig → Readings → Option ℤ → Scheduler → Scheduler
check_temp cfg r none s = s
check_temp cfg r (some milli_c) s =
    let temp_c : ℤ = quotient milli_c 1000 in
    let body : Bytes =
      codes "CPU temperature at "
      ++ (int_text temp_c
          ++ (codes " C (threshold: " ++ (int_text cfg.temp_threshold_c ++ codes " C)"))) in
    let fires =
      ltb_ℤ (pos 0) cfg.temp_threshold_c
      && leb_ℤ cfg.temp_threshold_c temp_c
      && leb_ℤ cfg.cooldown_seconds (r.now -ℤ s.last_temp_alert) in
    if fires
    then push_notification (alert 3 r (codes "High CPU Temperature") body)
        (record s { last_temp_alert = r.now })
    else s

unfoldable pub check_alerts : AlertConfig → Readings → Scheduler → Scheduler
check_alerts cfg r s =
    check_temp cfg r r.milli_c (check_model r r.model (check_disk cfg r r.disk (check_ram cfg r s)))

unfoldable pub drain_notifications : Scheduler → Scheduler × List Notification
drain_notifications s = (record s { pending_notifications = [] }, s.pending_notifications)
