-- ===== src/AutoReply/Hours.antt =====
-- `within_business_hours`, on the active entries of a team, and what it accepts.
use support_center.Prelude.{
  ℕ, ◌+◌, ◌%◌, ◌<◌, String, ◌≡◌, refl, ap, ◌∙◌, Bool, true, false, not, ◌&&◌, ◌||◌, Option, none,
  some, List, [], ◌∷◌, arith, if◌then◌else◌, any, All, nat_eq, string_eq, option_eq, pair_eq, ◌==◌,
  ==_iff,
}
use support_center.Chars.{Text, text_lt}

-- The times are texts `HH:MM`, which are compared as texts.
pub record ScheduleRow : Type 0 where
  pub day_of_week : ℕ
  pub start_time : Text
  pub end_time : Text
  pub timezone : String

abbrev crosses_midnight : ScheduleRow → Bool
crosses_midnight row = not (text_lt row.start_time row.end_time)

unfoldable pub inside_today : ScheduleRow → ℕ → Text → Bool
unfolding text_lt
inside_today row weekday hm =
    row.day_of_week == weekday
    && (if crosses_midnight row
        then not (text_lt hm row.start_time) || text_lt hm row.end_time
        else not (text_lt hm row.start_time) && text_lt hm row.end_time)

unfoldable pub open_since_yesterday : ScheduleRow → ℕ → Text → Bool
unfolding text_lt
open_since_yesterday row weekday hm =
    row.day_of_week == (weekday + 6) % 7 && crosses_midnight row && text_lt hm row.end_time

abbrev is_empty : List ScheduleRow → Bool
is_empty [] = true
is_empty (row ∷ rows) = false

-- The test on the entries, at a weekday (0 is Sunday) and a time of day.
unfoldable pub inside_schedule : List ScheduleRow → ℕ → Text → Bool
unfolding inside_today open_since_yesterday
inside_schedule rows weekday hm =
    is_empty rows
    || any (λ row. inside_today row weekday hm) rows
    || any (λ row. open_since_yesterday row weekday hm) rows

-- The active entries of a team (`none` is a failed query), and the weekday and time in a timezone; the
-- timezone of a text that names none is `Asia/Taipei`.
pub record Schedules : Type 0 where
  pub active_rows : ℕ → Option (List ScheduleRow)
  pub local_time : String → ℕ × Text

unfoldable pub inside_rows : Option (List ScheduleRow) → Schedules → Bool
unfolding inside_schedule
inside_rows none schedules = true
inside_rows (some []) schedules = true
inside_rows (some (row ∷ rows)) schedules =
    let t = schedules.local_time row.timezone in inside_schedule (row ∷ rows) t.0 t.1

unfoldable pub within_business_hours : Schedules → Option ℕ → Bool
unfolding inside_rows
within_business_hours schedules none = true
within_business_hours schedules (some team) = inside_rows (schedules.active_rows team) schedules

-- The window of an entry: from its start on its day to its end, which is on the next day if the end is
-- not after the start.
abbrev pub covers : ScheduleRow → ℕ → Text → Bool
covers row weekday hm =
    (weekday == row.day_of_week
      && not (text_lt hm row.start_time)
      && (text_lt hm row.end_time || crosses_midnight row))
    || (weekday == (row.day_of_week + 1) % 7 && crosses_midnight row && text_lt hm row.end_time)

-- The morning before an overnight window has opened.
abbrev pub is_early : ScheduleRow → ℕ → Text → Bool
is_early row weekday hm =
    weekday == row.day_of_week && crosses_midnight row && text_lt hm row.end_time

days_lem :
    (day weekday : ℕ)
    → day < 7
    → weekday < 7
    → (day == (weekday + 6) % 7) ≡ (weekday == (day + 1) % 7)
days_lem day weekday h k = ground arith

row_lem :
    (row : ScheduleRow) (weekday : ℕ) (hm : Text)
    → row.day_of_week < 7
    → weekday < 7
    → (inside_today row weekday hm || open_since_yesterday row weekday hm)
      ≡ (covers row weekday hm || is_early row weekday hm)
unfolding inside_today open_since_yesterday
row_lem row weekday hm h k = ground (
  arith,
  days_lem row.day_of_week weekday h k,
  ==_iff row.day_of_week weekday,
  ==_iff weekday row.day_of_week,
)

any_or :
    (p q : ScheduleRow → Bool) (rows : List ScheduleRow)
    → (any p rows || any q rows) ≡ any (λ row. p row || q row) rows
any_or p q [] = refl
any_or p q (row ∷ rows) = ground (arith, any_or p q rows)

any_cong :
    (p q : ScheduleRow → Bool) (rows : List ScheduleRow)
    → All (λ row. p row ≡ q row) rows
    → any p rows ≡ any q rows
any_cong p q [] h = refl
any_cong p q (row ∷ rows) (e, h) = ground (arith, e, any_cong p q rows h)

rows_lem :
    (weekday : ℕ) (hm : Text) (rows : List ScheduleRow)
    → weekday < 7
    → All (λ row. row.day_of_week < 7) rows
    → All
        (λ row.
          (inside_today row weekday hm || open_since_yesterday row weekday hm)
          ≡ (covers row weekday hm || is_early row weekday hm))
        rows
rows_lem weekday hm [] k h = tt
rows_lem weekday hm (row ∷ rows) k (d, h) =
    (row_lem row weekday hm d k, rows_lem weekday hm rows k h)

inside_schedule_lem :
    (row : ScheduleRow) (rows : List ScheduleRow) (weekday : ℕ) (hm : Text)
    → weekday < 7
    → All (λ r. r.day_of_week < 7) (row ∷ rows)
    → inside_schedule (row ∷ rows) weekday hm
      ≡ any (λ r. covers r weekday hm || is_early r weekday hm) (row ∷ rows)
unfolding inside_schedule
inside_schedule_lem row rows weekday hm k h =
    any_or (λ r. inside_today r weekday hm) (λ r. open_since_yesterday r weekday hm) (row ∷ rows)
    ∙ any_cong (λ r. inside_today r weekday hm || open_since_yesterday r weekday hm) _ (row ∷ rows)
        (rows_lem weekday hm (row ∷ rows) k h)

-- For a team with active entries on days from 0 to 6 it is within business hours exactly when the window
-- of an entry covers the local time, or an overnight window begins later on the same day and the time
-- is before its end: also the morning of the day on which an overnight window opens counts.
pub within_business_hours_lem :
    (schedules : Schedules) (team : ℕ) (row : ScheduleRow) (rows : List ScheduleRow) (weekday : ℕ)
    (hm : Text)
    → schedules.active_rows team ≡ some (row ∷ rows)
    → schedules.local_time row.timezone ≡ (weekday, hm)
    → weekday < 7
    → All (λ r. r.day_of_week < 7) (row ∷ rows)
    → within_business_hours schedules (some team)
      ≡ any (λ r. covers r weekday hm || is_early r weekday hm) (row ∷ rows)
unfolding within_business_hours inside_rows
within_business_hours_lem schedules team row rows weekday hm found at k h = rw found (
    ap (λ t. inside_schedule (row ∷ rows) t.0 t.1) at ∙ inside_schedule_lem row rows weekday hm k h)
