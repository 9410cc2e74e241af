-- ===== src/Wifi/Listing.antt =====
-- src/llamaste/wifi.cpp: `parse_list_networks` reads the table of LIST_NETWORKS.

use llamaste.Prelude.{◌≡◌, refl, ap, ◌∙◌, List, [], ◌∷◌, ◌++◌, Bytes, codes, map, All, arith}
use llamaste.Text.{getlines, getline_by, str_trim, trim_left, trim_right, int_text}
use llamaste.Text.Reading.{getlines-line, append_cons_nonempty}
use llamaste.Wifi.{Network, full_lines, list_rows, parse_list_networks}
use llamaste.Wifi.Rows.{
  Entry, IsEntry, rows, table, row, network_of, flags_of, flag_shown, columns, kept, trim-row,
  list_row-columns, no_tab, row_newline, full_lines_cons,
}

list_rows-rows :
    (es : List Entry)
    → All IsEntry es
    → list_rows (full_lines (getlines [] (rows es))) ≡ map network_of es
unfolding list_rows
list_rows-rows [] h = unfold getline_by full_lines in refl
list_rows-rows (e ∷ es) h =
    let t : Bytes = columns e.id e.ssid e.bssid (kept (flags_of e)) in
    rw
      (
        getlines-line [] (row e) (rows es) (row_newline e h.0),
        full_lines_cons (row e) (getlines [] (rows es)) t (trim-row e h.0) (
            append_cons_nonempty (int_text e.id) b'\t'
              (e.ssid ++ (b'\t' ∷ (e.bssid ++ kept (flags_of e))))),
      )
      (list_row-columns e.id e.ssid e.bssid (flags_of e) e.current
          (list_rows (full_lines (getlines [] (rows es))))
          (flag_shown e.current e.disabled e.temp_disabled) h.0.0 h.0.1.0.1
          (no_tab e.ssid h.0.1.0.0) h.0.1.1.0
        ∙ ap (λ (nets : List Network). network_of e ∷ nets) (list_rows-rows es h.1))

header_trimmed :
    str_trim (codes "network id / ssid / bssid / flags") ≡ codes "network id / ssid / bssid / flags"
unfolding str_trim trim_left trim_right
header_trimmed = refl

-- From the table of LIST_NETWORKS, whose rows have any of the flags [CURRENT], [DISABLED] and
-- [TEMP-DISABLED], the saved networks are read back, with their ids, names,
-- addresses and the mark of the current one, in order, if each id is an `int`, no name holds a tab
-- or a line feed or has a blank at an end, and each address is not empty and holds no blank.
pub parse_list_networks-table :
    (es : List Entry) → All IsEntry es → parse_list_networks (table es) ≡ map network_of es
unfolding parse_list_networks
parse_list_networks-table es h =
    let header : Bytes = codes "network id / ssid / bssid / flags" in
    rw
      (
        getlines-line [] header (rows es) (ground arith),
        full_lines_cons header (getlines [] (rows es)) header header_trimmed (λ e. ground arith),
      )
      (list_rows-rows es h)
