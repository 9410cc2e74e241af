-- ===== src/Scheduler/Cooldown.antt =====
-- src/llamaste/scheduler.cpp: how often the alerts come.
use mathlib.Core.List.{append-nil}
use mathlib.Core.Path.{subst}
use llamaste.Prelude.{
  ◌∙◌, ℕ, ◌≡◌, refl, sym, ap, ◌⊎◌, inl, inr, Bool, true, false, ◌&&◌, Option, none, some, ℤ, pos,
  ◌-ℤ◌, ◌≤ℤ◌, leb_ℤ, if◌then◌else◌, arith, List, [], ◌∷◌, ◌++◌, Bytes, codes,
}
use llamaste.Scheduler.{AlertConfig, Notification, Scheduler}
use llamaste.Scheduler.Alerts.{
  Readings, push_notification, check_ram, check_disk, check_model, check_temp, check_alerts,
}

-- Between two values of a field with the time of the last alert, where `sent` was sent: no alert, or
-- one with the title, now, and after `pause`.
abbrev pub Waits : ℤ → ℤ → Bytes → ℤ → ℤ → List Notification → Type 0
Waits pause now title last last' sent =
    ((sent ≡ []) × (last' ≡ last))
    ⊎ ((n : Notification) × ((sent ≡ n ∷ [])
          × ((n.title ≡ title) × ((last' ≡ now) × (pause ≤ℤ (now -ℤ last))))))

-- What was sent of each kind is behind the notifications that waited, and the four kinds keep their
-- pauses.
abbrev pub AllWait : AlertConfig → Readings → Scheduler → Scheduler → Type 0
AllWait cfg r s s' =
    (ram : List Notification) × ((disk : List Notification) × ((model : List Notification)
        × ((temp : List Notification) × ((s'.pending_notifications
                ≡ (((s.pending_notifications ++ ram) ++ disk) ++ model) ++ temp)
              × (Waits cfg.cooldown_seconds r.now (codes "High RAM Usage") s.last_ram_alert
                    s'.last_ram_alert ram
                  × (Waits cfg.cooldown_seconds r.now (codes "High Disk Usage") s.last_disk_alert
                        s'.last_disk_alert disk
                      × (Waits (pos 1800) r.now (codes "No AI Model Loaded") s.last_model_alert
                            s'.last_model_alert model
                          × Waits cfg.cooldown_seconds r.now (codes "High CPU Temperature")
                              s.last_temp_alert s'.last_temp_alert temp)))))))

leb_ℤ_sound : (a b : ℤ) → leb_ℤ a b ≡ true → a ≤ℤ b
leb_ℤ_sound a b h = ground arith

and_right : (p q : Bool) → p && q ≡ true → q ≡ true
and_right p q h = ground arith

-- A check of one kind: what it sent stands behind what waited.
abbrev Step : ℤ → ℤ → Bytes → (Scheduler → ℤ) → Scheduler → Scheduler → Type 0
Step pause now title time s s' =
    (sent : List Notification) × ((s'.pending_notifications ≡ s.pending_notifications ++ sent)
      × Waits pause now title (time s) (time s') sent)

idle-Step :
    (pause now : ℤ) (title : Bytes) (time : Scheduler → ℤ) (s s' : Scheduler)
    → s'.pending_notifications ≡ s.pending_notifications
    → time s' ≡ time s
    → Step pause now title time s s'
idle-Step pause now title time s s' p q = ([], (p ∙ sym (append-nil _), inl (refl, q)))

-- A check that sends `n` and sets the time when it fires.
if_Step :
    (fires : Bool) (pause now : ℤ) (n : Notification) (time : Scheduler → ℤ) (s s1 s0 : Scheduler)
    → (fires ≡ true → leb_ℤ pause (now -ℤ time s) ≡ true)
    → s1.pending_notifications ≡ s.pending_notifications ++ n ∷ []
    → time s1 ≡ now
    → s0.pending_notifications ≡ s.pending_notifications
    → time s0 ≡ time s
    → Step pause now n.title time s (if fires then s1 else s0)
if_Step true pause now n time s s1 s0 h p q p' q' =
    (n ∷ [], (p, inr (n, (refl, (refl, (q, leb_ℤ_sound pause (now -ℤ time s) (h refl)))))))
if_Step false pause now n time s s1 s0 h p q p' q' = idle-Step pause now n.title time s s0 p' q'

-- A field that no branch changes.
if_keeps :
    (fires : Bool) (time : Scheduler → ℤ) (s1 s0 : Scheduler)
    → time s1 ≡ time s0
    → time (if fires then s1 else s0) ≡ time s0
if_keeps true time s1 s0 p = p
if_keeps false time s1 s0 p = refl

-- The pause, where the times before and after are known by other names.
Waits-to :
    (pause now : ℤ) (title : Bytes) {a b a' b' : ℤ} (sent : List Notification)
    → b' ≡ b
    → a ≡ a'
    → Waits pause now title a b sent
    → Waits pause now title a' b' sent
Waits-to pause now title sent p q (inl (e, f)) = inl (e, p ∙ (f ∙ q))
Waits-to pause now title sent p q (inr (n, (e, (t, (f, h))))) =
    inr (n, (e, (t, (p ∙ f, subst (λ (x : ℤ). pause ≤ℤ (now -ℤ x)) q h))))

module _ (cfg : AlertConfig) (r : Readings) where
  check_ram-Step :
      (s : Scheduler)
      → let s' = check_ram cfg r s in
        Step cfg.cooldown_seconds r.now (codes "High RAM Usage") (λ s. s.last_ram_alert) s s'
        × ((s'.last_disk_alert ≡ s.last_disk_alert)
            × ((s'.last_model_alert ≡ s.last_model_alert)
                × (s'.last_temp_alert ≡ s.last_temp_alert)))
  unfolding check_ram push_notification
  check_ram-Step s = (
    if_Step _ cfg.cooldown_seconds r.now _ (λ s. s.last_ram_alert) s _ s (λ h. and_right _ _ h) refl
        refl refl refl,
    (
      if_keeps _ (λ s. s.last_disk_alert) _ s refl,
      (if_keeps _ (λ s. s.last_model_alert) _ s refl, if_keeps _ (λ s. s.last_temp_alert) _ s refl),
    ),
  )

  check_disk-Step :
      (disk : Option (ℕ × (ℕ × ℕ))) (s : Scheduler)
      → let s' = check_disk cfg r disk s in
        Step cfg.cooldown_seconds r.now (codes "High Disk Usage") (λ s. s.last_disk_alert) s s'
        × ((s'.last_ram_alert ≡ s.last_ram_alert)
            × ((s'.last_model_alert ≡ s.last_model_alert)
                × (s'.last_temp_alert ≡ s.last_temp_alert)))
  unfolding check_disk push_notification
  check_disk-Step none s = (
    idle-Step cfg.cooldown_seconds r.now _ (λ s. s.last_disk_alert) s s refl refl,
    (refl, (refl, refl)),
  )
  check_disk-Step (some (blocks, (bfree, frsize))) s = (
    if_Step _ cfg.cooldown_seconds r.now _ (λ s. s.last_disk_alert) s _ s (λ h. and_right _ _ h)
        refl refl refl refl,
    (
      if_keeps _ (λ s. s.last_ram_alert) _ s refl,
      (if_keeps _ (λ s. s.last_model_alert) _ s refl, if_keeps _ (λ s. s.last_temp_alert) _ s refl),
    ),
  )

  check_model-Step :
      (model : Option (Bool × Bool)) (s : Scheduler)
      → let s' = check_model r model s in
        Step (pos 1800) r.now (codes "No AI Model Loaded") (λ s. s.last_model_alert) s s'
        × ((s'.last_ram_alert ≡ s.last_ram_alert)
            × ((s'.last_disk_alert ≡ s.last_disk_alert) × (s'.last_temp_alert ≡ s.last_temp_alert)))
  unfolding check_model push_notification
  check_model-Step none s =
      (idle-Step (pos 1800) r.now _ (λ s. s.last_model_alert) s s refl refl, (refl, (refl, refl)))
  check_model-Step (some (loaded, still_loaded)) s = (
    if_Step _ (pos 1800) r.now _ (λ s. s.last_model_alert) s _ _ (λ h. and_right _ _ h) refl refl
        refl refl,
    (
      if_keeps _ (λ s. s.last_ram_alert) _ _ refl,
      (if_keeps _ (λ s. s.last_disk_alert) _ _ refl, if_keeps _ (λ s. s.last_temp_alert) _ _ refl),
    ),
  )

  check_temp-Step :
      (milli_c : Option ℤ) (s : Scheduler)
      → let s' = check_temp cfg r milli_c s in
        Step cfg.cooldown_seconds r.now (codes "High CPU Temperature") (λ s. s.last_temp_alert) s s'
        × ((s'.last_ram_alert ≡ s.last_ram_alert)
            × ((s'.last_disk_alert ≡ s.last_disk_alert)
                × (s'.last_model_alert ≡ s.last_model_alert)))
  unfolding check_temp push_notification
  check_temp-Step none s = (
    idle-Step cfg.cooldown_seconds r.now _ (λ s. s.last_temp_alert) s s refl refl,
    (refl, (refl, refl)),
  )
  check_temp-Step (some milli_c) s = (
    if_Step _ cfg.cooldown_seconds r.now _ (λ s. s.last_temp_alert) s _ s (λ h. and_right _ _ h)
        refl refl refl refl,
    (
      if_keeps _ (λ s. s.last_ram_alert) _ s refl,
      (if_keeps _ (λ s. s.last_disk_alert) _ s refl, if_keeps _ (λ s. s.last_model_alert) _ s refl),
    ),
  )

  -- No alert of a kind follows another of its kind within the pause: of each of the four kinds, a
  -- run of `check_alerts` puts at most one notification behind those that wait. It sends none and
  -- leaves the time of the kind's last alert, or it sends one with the kind's title and sets the
  -- time to now, when at least the cooldown (half an hour for the missing model) has passed.
  pub check_alerts-AllWait : (s : Scheduler) → AllWait cfg r s (check_alerts cfg r s)
  unfolding check_alerts
  check_alerts-AllWait s =
      let s1 : Scheduler = check_ram cfg r s in
      let s2 : Scheduler = check_disk cfg r r.disk s1 in
      let s3 : Scheduler = check_model r r.model s2 in
      let behind : List Notification → List Notification → List Notification =
        λ sent ns. ns ++ sent in
      let ((ram, (p1, w1)), (d1, (m1, t1))) = check_ram-Step s in
      let ((disk, (p2, w2)), (r2, (m2, t2))) = check_disk-Step r.disk s1 in
      let ((model, (p3, w3)), (r3, (d3, t3))) = check_model-Step r.model s2 in
      let ((temp, (p4, w4)), (r4, (d4, m4))) = check_temp-Step r.milli_c s3 in
      (
        ram,
        (
          disk,
          (
            model,
            (
              temp,
              (
                p4 ∙ ap (behind temp) (p3 ∙ ap (behind model) (p2 ∙ ap (behind disk) p1)),
                (
                  Waits-to cfg.cooldown_seconds r.now _ ram (r4 ∙ (r3 ∙ r2)) refl w1,
                  (
                    Waits-to cfg.cooldown_seconds r.now _ disk (d4 ∙ d3) d1 w2,
                    (
                      Waits-to (pos 1800) r.now _ model m4 (m2 ∙ m1) w3,
                      Waits-to cfg.cooldown_seconds r.now _ temp refl (t3 ∙ (t2 ∙ t1)) w4,
                    ),
                  ),
                ),
              ),
            ),
          ),
        ),
      )
