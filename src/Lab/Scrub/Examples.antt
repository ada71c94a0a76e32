-- ===== src/Lab/Scrub/Examples.antt =====
-- A small daemon log, and the theorems at it.
use airtrace.Prelude.{◌≡◌, refl, false, ◌∷◌, ◌++◌, All}
use airtrace.Text.Base.{Text, codes, splitlines_keep, ends_line, is_break, is_blank, is_space, join}
use airtrace.Lab.Scrub.{
  control_line, line_at, removes, scrub_control_lines, retained_control_line_indexes,
}
use airtrace.Lab.Scrub.Safety.{events, scrub-no_control, events-scrub, scrub_idem}

-- What the tests open.
runs : Unit {0}
unfolding scrub_control_lines retained_control_line_indexes line_at removes control_line
    splitlines_keep ends_line is_break is_blank is_space join
runs = tt

-- An event, an echo with an indented continuation and a blank line, and one more event.
abbrev daemon_log : Text
daemon_log =
    codes "AP-ENABLED"
    ++ 13 ∷ codes "CTRL_IFACE STATUS"
    ++ 10 ∷ codes "  reply"
    ++ 10 ∷ 10 ∷ codes "STA joined"

scrub_runs : scrub_control_lines daemon_log ≡ (codes "AP-ENABLED" ++ 13 ∷ codes "STA joined", 3)
unfolding runs
scrub_runs = refl

scrub-no_control_example :
    All (λ l. control_line l ≡ false) (splitlines_keep (scrub_control_lines daemon_log).0)
scrub-no_control_example = scrub-no_control daemon_log

events-scrub_example :
    events (splitlines_keep (scrub_control_lines daemon_log).0)
    ≡ events (splitlines_keep daemon_log)
events-scrub_example = events-scrub daemon_log

scrub_idem_example :
    scrub_control_lines (scrub_control_lines daemon_log).0 ≡ ((scrub_control_lines daemon_log).0, 0)
scrub_idem_example = scrub_idem daemon_log
