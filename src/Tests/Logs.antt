-- ===== src/Tests/Logs.antt =====
-- utils/daily_log.py at concrete inputs.
use binbot.Base.{ℕ, ◌*◌, ◌+◌, ◌-◌, ◌≤◌, ◌≡◌, refl, true, String, [], ◌∷◌, none, arith}
use binbot.Core.Events.{DateTime, date}
use binbot.DailyLog.{Files, append, read_recent, read_days, read_day, days_back}
use binbot.DailyLog.Window.{Entries, append_all, records, from_day, read_recent-append_all}

abbrev day : ℕ
day = 86400000000

abbrev no_files : Files String
no_files d = none

abbrev entries : Entries String
entries = (day, "old") ∷ (4 * day, "a") ∷ (6 * day, "b") ∷ []

kept : read_recent (λ d. true) 24 (7 * day) (append_all entries no_files) ≡ "a" ∷ "b" ∷ []
unfolding read_recent read_days read_day append_all append date
kept = refl

read_recent-append_all_example :
    (read_recent (λ d. true) 24 (7 * day) (append_all entries no_files)
      ≡ records (from_day (date (7 * day) - days_back 24) entries))
    × ((t : DateTime) → 7 * day ≤ t + 24 * 3600000000 → date (7 * day) - days_back 24 ≤ date t)
read_recent-append_all_example =
    read_recent-append_all 24 (7 * day) entries no_files
      (omega arith, omega arith, (omega arith, omega arith, (omega arith, omega arith, tt)))
      (λ d. refl)
