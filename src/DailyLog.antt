-- ===== src/DailyLog.antt =====
-- utils/daily_log.py: one file of lines for each UTC day. A line is the record that json reads back, or one
-- that is blank or does not parse. Whether a write or a reading raises comes in as an argument.
pub mod Window
use binbot.Base.{
  ℕ, zero, suc, ◌+◌, ◌-◌, ◌*◌, ◌/◌, Bool, true, false, Option, none, some, List, [], ◌∷◌, ◌++◌, ltb,
  leb, ◌==◌, if◌then◌else◌,
}
use binbot.Core.Events.{DateTime, Date, date}

pub data Line (R : Type 0) : Type 0 where
  record_line : R → Line R
  skipped_line : Line R

-- The file of a day, if it exists.
abbrev pub Files : Type 0 → Type 0
Files R = Date → Option (List (Line R))

module _ {R : Type 0} where
  abbrev pub lines_of : Option (List (Line R)) → List (Line R)
  lines_of none = []
  lines_of (some lines) = lines

  -- The file of the day is created or grows; where the write raises, nothing is stored.
  unfoldable pub append : Bool → DateTime → R → Files R → Files R
  append written now r files day =
      if written
      then (if day == date now
          then some (lines_of (files day) ++ record_line r ∷ [])
          else files day)
      else files day

  -- The records of a file.
  abbrev pub records_of : List (Line R) → List R
  records_of [] = []
  records_of (record_line r ∷ lines) = r ∷ records_of lines
  records_of (skipped_line ∷ lines) = records_of lines

  -- One turn of the loop: the day that is `i` days back, if its file can be read.
  unfoldable pub read_day : (Date → Bool) → Date → ℕ → Files R → List R
  read_day readable today i files =
      if leb i today
      then (if readable (today - i) then records_of (lines_of (files (today - i))) else [])
      else []

  -- The loop over `range(days_back, -1, -1)`.
  unfoldable pub read_days : (Date → Bool) → Date → ℕ → Files R → List R
  unfolding read_day
  read_days readable today zero files = read_day readable today 0 files
  read_days readable today (suc i) files =
      read_day readable today (suc i) files ++ read_days readable today i files

-- `max(1, (hours // 24) + 2)`
abbrev pub days_back : ℕ → ℕ
days_back hours = let days = hours / 24 + 2 in if ltb 1 days then days else 1

module _ {R : Type 0} where
  unfoldable pub read_recent : (Date → Bool) → ℕ → DateTime → Files R → List R
  unfolding read_days
  read_recent readable hours now files = read_days readable (date now) (days_back hours) files
