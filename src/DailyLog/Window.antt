-- ===== src/DailyLog/Window.antt =====
-- What is read back of what was appended.
use binbot.Base.{
  ℕ, zero, suc, ◌+◌, ◌-◌, ◌*◌, ◌/◌, ◌≤◌, ◌<◌, ◌≡◌, ◌⊎◌, inl, inr, refl, sym, ap, ◌∙◌, true, none,
  List, [], ◌∷◌, ◌++◌, map, filter, arith, leb, ◌==◌, append_assoc, append-nil,
}
use binbot.Core.Events.{DateTime, Date, date}
use binbot.DailyLog.{
  Line, record_line, skipped_line, Files, lines_of, append, records_of, read_day, read_days,
  days_back, read_recent,
}

-- The records with the times of their appending.
abbrev pub Entries : Type 0 → Type 0
Entries R = List (DateTime × R)

date_mono : (a b : DateTime) → a ≤ b → date a ≤ date b
unfolding date
date_mono a b h = omega arith

days_back-eq : (hours : ℕ) → days_back hours ≡ hours / 24 + 2
days_back-eq hours = ground arith

recent_day : (hours now t : ℕ) → now ≤ t + hours * 3600000000 → date now - days_back hours ≤ date t
unfolding date
recent_day hours now t h = omega (arith, days_back-eq hours)

compare-cases : (a b : ℕ) → (a < b) ⊎ (b ≤ a)
compare-cases a b = ground arith

module _ {R : Type 0} where
  -- The times do not fall, from `lo` on, and none is after `now`.
  abbrev pub IsInOrder : DateTime → DateTime → Entries R → Type 0
  IsInOrder lo now [] = Unit
  IsInOrder lo now (e ∷ entries) = (lo ≤ e.0) × (e.0 ≤ now) × IsInOrder e.0 now entries

  unfoldable pub append_all : Entries R → Files R → Files R
  append_all [] files = files
  append_all (e ∷ entries) files = append_all entries (append true e.0 e.1 files)

  abbrev pub records : Entries R → List R
  records = map (λ e. e.1)

  -- The entries of one day, and those from a day on.
  abbrev of_day : Date → Entries R → Entries R
  of_day day = filter (λ e. date e.0 == day)

  abbrev pub from_day : Date → Entries R → Entries R
  from_day day = filter (λ e. leb day (date e.0))

  records_of-append :
      (xs ys : List (Line R)) → records_of (xs ++ ys) ≡ records_of xs ++ records_of ys
  records_of-append [] ys = refl
  records_of-append (record_line r ∷ xs) ys = ap (λ rs. r ∷ rs) (records_of-append xs ys)
  records_of-append (skipped_line ∷ xs) ys = records_of-append xs ys

  records-append : (xs ys : Entries R) → records (xs ++ ys) ≡ records xs ++ records ys
  records-append [] ys = refl
  records-append (x ∷ xs) ys = ap (λ rs. x.1 ∷ rs) (records-append xs ys)

  file-append_all :
      (day : Date) (entries : Entries R) (files : Files R)
      → records_of (lines_of (append_all entries files day))
        ≡ records_of (lines_of (files day)) ++ records (of_day day entries)
  unfolding append_all append
  file-append_all day [] files = sym (append-nil (records_of (lines_of (files day))))
  file-append_all day (e ∷ entries) files =
      file-append_all day entries (append true e.0 e.1 files)
      ∙ ground (
        arith,
        records_of-append (lines_of (files day)) (record_line e.1 ∷ []),
        append_assoc (records_of (lines_of (files day))) (e.1 ∷ []) (records (of_day day entries)),
      )

  of_day_later :
      (lo now : DateTime) (day : Date) (entries : Entries R)
      → IsInOrder lo now entries
      → day < date lo
      → of_day day entries ≡ []
  of_day_later lo now day [] h k = refl
  of_day_later lo now day (e ∷ entries) h k =
      let q : day < date e.0 = omega (arith, date_mono lo e.0 h.0, k) in
      ground (arith, q, of_day_later e.0 now day entries h.2 q)

  from_day-split :
      (lo now : DateTime) (day : Date) (entries : Entries R)
      → IsInOrder lo now entries
      → from_day day entries ≡ of_day day entries ++ from_day (day + 1) entries
  from_day-split lo now day [] h = refl
  from_day-split lo now day (e ∷ entries) h =
      let rest = from_day-split e.0 now day entries h.2 in
      elim (compare-cases day (date e.0)) [
        | inl less ↦ ground (arith, less, rest, of_day_later e.0 now day entries h.2 less)
        | inr more ↦ ground (arith, more, rest)
      ]

  from_day_after :
      (lo now : DateTime) (day : Date) (entries : Entries R)
      → IsInOrder lo now entries
      → date now < day
      → from_day day entries ≡ []
  from_day_after lo now day [] h k = refl
  from_day_after lo now day (e ∷ entries) h k =
      let q : date e.0 < day = omega (arith, date_mono e.0 now h.1, k) in
      ground (arith, q, from_day_after e.0 now day entries h.2 k)

  from_day_zero : (entries : Entries R) → from_day 0 entries ≡ entries
  from_day_zero [] = refl
  from_day_zero (e ∷ entries) = ground (arith, from_day_zero entries)

  -- What the files hold, by their days.
  abbrev AreStored : Entries R → Files R → Type 0
  AreStored entries files =
      (day : Date) → records_of (lines_of (files day)) ≡ records (of_day day entries)

  read_day-eq :
      (today i : ℕ) (entries : Entries R) (files : Files R)
      → AreStored entries files
      → i ≤ today
      → read_day (λ day. true) today i files ≡ records (of_day (today - i) entries)
  unfolding read_day
  read_day-eq today i entries files k h = ground (arith, k (today - i), h)

  read_day_before :
      (today i : ℕ) (files : Files R) → today < i → read_day (λ day. true) today i files ≡ []
  unfolding read_day
  read_day_before today i files h = ground (arith, h)

  -- The days from `i` days back to today.
  read_days-eq :
      (lo now : DateTime) (i : ℕ) (entries : Entries R) (files : Files R)
      → IsInOrder lo now entries
      → AreStored entries files
      → read_days (λ day. true) (date now) i files ≡ records (from_day (date now - i) entries)
  unfolding read_days
  read_days-eq lo now zero entries files h k =
      let d = date now - 0 in
      read_day-eq (date now) 0 entries files k (omega arith)
      ∙ sym (
          ap records (
            from_day-split lo now d entries h
            ∙ ap (λ xs. of_day d entries ++ xs)
                (from_day_after lo now (d + 1) entries h (omega arith))
            ∙ append-nil (of_day d entries)))
  read_days-eq lo now (suc i) entries files h k =
      let rest = read_days-eq lo now i entries files h k in
      let earlier = read_days (λ day. true) (date now) i files in
      elim (compare-cases (date now) (suc i)) [
        | inl less ↦
            ap (λ xs. xs ++ earlier) (read_day_before (date now) (suc i) files less)
            ∙ rest
            ∙ ap (λ d. records (from_day d entries)) (omega arith)
        | inr more ↦
            let d = date now - suc i in
            ap (λ xs. xs ++ earlier) (read_day-eq (date now) (suc i) entries files k more)
            ∙ ap (λ xs. records (of_day d entries) ++ xs)
                (rest ∙ ap (λ x. records (from_day x entries)) (omega arith))
            ∙ sym (records-append (of_day d entries) (from_day (d + 1) entries))
            ∙ sym (ap records (from_day-split lo now d entries h))
      ]

  -- Records that were appended one after the other, on files that were not there before, are read back at a later
  -- time in the order of their appending, and exactly those of today and of the days back that the hours ask for; all that
  -- were appended within that many hours are among them.
  pub read_recent-append_all :
      (hours now : ℕ) (entries : Entries R) (files : Files R)
      → IsInOrder 0 now entries
      → ((day : Date) → files day ≡ none)
      → (read_recent (λ day. true) hours now (append_all entries files)
          ≡ records (from_day (date now - days_back hours) entries))
        × ((t : DateTime) → now ≤ t + hours * 3600000000 → date now - days_back hours ≤ date t)
  unfolding read_recent date
  read_recent-append_all hours now entries files h e = (
    read_days-eq 0 now (days_back hours) entries (append_all entries files) h (λ day.
        file-append_all day entries files
        ∙ ap (λ o. records_of (lines_of o) ++ records (of_day day entries)) (e day)),
    λ t recent. recent_day hours now t recent,
  )
