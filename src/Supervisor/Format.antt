-- ===== src/Supervisor/Format.antt =====
-- src/llamaste/supervisor.cpp: `format_uptime`, `format_bar` and `log_append`.
use llamaste.Prelude.{
  ℕ, zero, suc, ◌+◌, ◌*◌, ◌/◌, ◌%◌, List, [], ◌∷◌, ◌++◌, Bytes, codes, decimal, ℤ, pos, negsuc,
  ltb_ℤ, ltb, if◌then◌else◌, length, drop,
}

abbrev up_to_now : ℤ → ℕ
up_to_now (pos n) = n
up_to_now (negsuc n) = 0

unfoldable pub format_uptime : ℤ → Bytes
format_uptime t =
    let seconds : ℕ = up_to_now t in
    let days : ℕ = seconds / 86400 in
    let hours : ℕ = seconds % 86400 / 3600 in
    let mins : ℕ = seconds % 3600 / 60 in
    if ltb 0 days
    then decimal days
      ++ (codes "d " ++ (decimal hours ++ (codes "h " ++ (decimal mins ++ codes "m"))))
    else if ltb 0 hours
    then decimal hours ++ (codes "h " ++ (decimal mins ++ codes "m"))
    else decimal mins ++ (codes "m " ++ (decimal (seconds % 60) ++ codes "s"))

-- The blocks from `i` on, of which `left` are to come: full ones in UTF-8, then light ones.
unfoldable pub blocks : ℕ → ℕ → ℕ → Bytes
blocks zero i filled = []
blocks (suc left) i filled =
    let rest = blocks left (suc i) filled in
    (if ltb i filled then 226 ∷ 150 ∷ 136 ∷ [] else 226 ∷ 150 ∷ 145 ∷ []) ++ rest

-- For widths such that `percent * width` fits in an `int`.
unfoldable pub format_bar : ℤ → ℤ → Bytes
format_bar percent width =
    let p : ℕ = if ltb_ℤ (pos 100) percent then 100 else up_to_now percent in
    let w : ℕ = if ltb_ℤ width (pos 4) then 4 else up_to_now width in
    blocks w 0 ((p * w + 50) / 100)

-- The buffer of the log's last 60 lines.
unfoldable pub log_append : Bytes → List Bytes → List Bytes
log_append line lines =
    let longer : List Bytes = lines ++ line ∷ [] in
    if ltb 60 (length longer) then drop 1 longer else longer
