-- ===== src/Lab/Run/Executor/Examples.antt =====
-- A host where every command succeeds, and the theorems on a run there.
use airtrace.Prelude.{ℕ, ◌+◌, ◌≤◌, arith, true, some}
use airtrace.Text.Base.{Text, codes}
use airtrace.Triage.Schema.{ok, ap_full}
use airtrace.Lab.Scenarios.{Parameters}
use airtrace.Lab.Run.Plan.{Argv}
use airtrace.Lab.Run.Plan.Control.{starting_order}
use airtrace.Lab.Run.State.{completed, Host, fresh, run_timeout}
use airtrace.Lab.Run.Executor.{play, default_phys}
use airtrace.Lab.Run.Executor.Preserve.{HoldsIn}
use airtrace.Lab.Run.Executor.Tracked.{IsTracked, play-IsTracked}
use airtrace.Lab.Run.Executor.Started.{HasStarted, play-HasStarted}
use airtrace.Lab.Run.Executor.Deadline.{EndsWith, play-EndsWith}

abbrev quick : Host
quick = record {
  outcome = λ n argv limit. completed true (codes "PONG OK");
  elapsed = λ n argv limit. 20;
  can_start = λ n argv. true;
  is_alive = λ t n. true;
  start_time = λ n argv. 2;
  lag = λ t. 1;
}

abbrev sample : Parameters
sample = record {
  ssid = codes "one";
  absent_ssid = codes "two";
  passphrase = codes "secret";
  wrong_passphrase = codes "Secret";
  channel = 6;
  ap_mac = codes "02:00:00:00:00:01";
  station_mac = codes "02:00:00:00:00:02";
  occupant_mac = codes "02:00:00:00:00:03";
  ap_delay_ms = 200;
  station_delay_ms = 300;
}

abbrev plain_digest : Text → Text
plain_digest t = t

play-IsTracked_example :
    HoldsIn IsTracked
      (play quick (fresh 5) (some default_phys) ok sample plain_digest 7 (codes "d"))
play-IsTracked_example =
    play-IsTracked quick 5 (some default_phys) ok sample plain_digest 7 (codes "d")

play-HasStarted_example :
    HasStarted
      (starting_order ok)
      (play quick (fresh 5) (some default_phys) ok sample plain_digest 7 (codes "d"))
play-HasStarted_example =
    play-HasStarted quick 5 (some default_phys) ok sample plain_digest 7 (codes "d")

quick_elapsed : (n : ℕ) (argv : Argv) (limit : ℕ) → quick.elapsed n argv limit ≤ limit + 20
quick_elapsed n argv limit = omega arith

quick_lag : (t : ℕ) → quick.lag t ≤ 20
quick_lag t = omega arith

quick_start : (n : ℕ) (argv : Argv) → quick.start_time n argv ≤ 20
quick_start n argv = omega arith

play-EndsWith_example :
    EndsWith
      (λ st. st.now ≤ 5 + run_timeout + 20)
      (λ st. st.now ≤ 5 + run_timeout + (20 + 20))
      (play quick (fresh 5) (some default_phys) ap_full sample plain_digest 7 (codes "d"))
play-EndsWith_example =
    play-EndsWith quick 20 quick_elapsed quick_lag quick_start 5 (some default_phys) ap_full sample
      plain_digest 7 (codes "d")
