-- ===== src/Statistics/Days.antt =====
-- The calls of a week, by day (src/app.service.ts).
use spectrum_connect_backend.Common.{
  ℕ, ◌+◌, ◌≡◌, refl, ap, ◌∙◌, Bool, true, false, not, ◌&&◌, String, List, [], ◌∷◌, arith, leb, map,
  length, keep, count, or_else, str_eq, eq_iff, if◌then◌else◌,
}
use mathlib.Core.Path.{fun_ext}
use spectrum_connect_backend.Common.Dict.{Dict, lookup, insert, lookup-insert}
use spectrum_connect_backend.Prisma.{Model}
use spectrum_connect_backend.Statistics.{
  Log, Weekday, mon, tue, wed, thu, fri, sat, sun, Calls, no_calls, add_call, DayStats, text_of,
  days, day_stats, tally_days, get_call_stats,
}

-- The calls of all rows.
abbrev pub sum_calls : List DayStats → ℕ
sum_calls [] = 0
sum_calls (r ∷ rows) = (r.inbound + r.outbound) + sum_calls rows

abbrev row : String → Dict Calls → Calls
row day d = or_else (lookup day d) no_calls

-- Each weekday is named once.
count-days : (w : Weekday) → count (str_eq (text_of w)) days ≡ 1
count-days mon = refl
count-days tue = refl
count-days wed = refl
count-days thu = refl
count-days fri = refl
count-days sat = refl
count-days sun = refl

module _ (weekday : ℕ → Weekday) where
  -- The incoming, or the outgoing, calls of a day.
  abbrev pub is_call : Bool → String → Log → Bool
  is_call true day log = log.is_inbound && str_eq (text_of (weekday log.created_at)) day
  is_call false day log = not log.is_inbound && str_eq (text_of (weekday log.created_at)) day

  -- The rows that counting the logs of each day gives.
  abbrev pub counted : List Log → String → DayStats
  counted logs day = record {
    name = day;
    inbound = count (is_call true day) logs;
    outbound = count (is_call false day) logs;
  }

  row-add_call :
      (log : Log) (d : Dict Calls) (day : String)
      → let here = text_of (weekday log.created_at) in
        row day (insert here (add_call log.is_inbound (row here d)) d)
        ≡ (if str_eq here day then add_call log.is_inbound (row day d) else row day d)
  row-add_call log d day =
      let here = text_of (weekday log.created_at) in
      let new = add_call log.is_inbound (row here d) in
      ground (arith, lookup-insert here day new d, eq_iff here day)

  tally_days-row :
      (logs : List Log) (d : Dict Calls) (day : String)
      → ((row day (tally_days weekday logs d)).inbound
          ≡ (row day d).inbound + count (is_call true day) logs)
        × ((row day (tally_days weekday logs d)).outbound
            ≡ (row day d).outbound + count (is_call false day) logs)
  unfolding tally_days
  tally_days-row [] d day = (omega arith, omega arith)
  tally_days-row (log ∷ logs) d day =
      let here = text_of (weekday log.created_at) in
      let d' = insert here (add_call log.is_inbound (row here d)) d in
      let (ins, outs) = tally_days-row logs d' day in
      let e = row-add_call log d day in ground (arith, ins, outs, e)

  tally_days-row_new :
      (logs : List Log) (day : String)
      → ((row day (tally_days weekday logs [])).inbound ≡ count (is_call true day) logs)
        × ((row day (tally_days weekday logs [])).outbound ≡ count (is_call false day) logs)
  unfolding lookup
  tally_days-row_new logs day =
      let (ins, outs) = tally_days-row logs [] day in (omega (arith, ins), omega (arith, outs))

  day_stats-tally_days :
      (logs : List Log) (day : String)
      → day_stats weekday (tally_days weekday logs []) day ≡ counted logs day
  day_stats-tally_days logs day =
      let (ins, outs) = tally_days-row_new logs day in rw (ins, outs) refl

  get_call_stats-rows :
      (m : Model Log) (sub_days : ℕ → ℕ → ℕ) (now : ℕ) (t : List Log)
      → get_call_stats weekday m sub_days now t
        ≡ map (counted (keep (λ log. leb (sub_days now 6) log.created_at) t)) days
  unfolding get_call_stats
  get_call_stats-rows m sub_days now t =
      let start = sub_days now 6 in
      ap (λ logs. map (day_stats weekday (tally_days weekday logs [])) days)
        (m.find_many_lem (λ log. leb start log.created_at) t)
      ∙ ap (λ f. map f days)
          (fun_ext (day_stats-tally_days (keep (λ log. leb start log.created_at) t)))

  sum_calls-add :
      (log : Log) (logs : List Log) (ds : List String)
      → sum_calls (map (counted (log ∷ logs)) ds)
        ≡ count (str_eq (text_of (weekday log.created_at))) ds + sum_calls (map (counted logs) ds)
  sum_calls-add log logs [] = refl
  sum_calls-add log logs (d ∷ ds) = ground (arith, sum_calls-add log logs ds)

  sum_calls-counted : (logs : List Log) → sum_calls (map (counted logs) days) ≡ length logs
  sum_calls-counted [] = refl
  sum_calls-counted (log ∷ logs) = omega (
    arith,
    sum_calls-add log logs days,
    count-days (weekday log.created_at),
    sum_calls-counted logs,
  )

  -- The rows are those of the seven days from Monday. Each has the numbers of incoming and outgoing
  -- calls of its day among the logs since the start, and no call is lost or counted twice: all these
  -- numbers add up to that of the logs since the start.
  pub get_call_stats-counted :
      (m : Model Log) (sub_days : ℕ → ℕ → ℕ) (now : ℕ) (t : List Log)
      → let since = keep (λ (log : Log). leb (sub_days now 6) log.created_at) t in
        (get_call_stats weekday m sub_days now t ≡ map (counted since) days)
        × (sum_calls (get_call_stats weekday m sub_days now t) ≡ length since)
  get_call_stats-counted m sub_days now t =
      let e = get_call_stats-rows m sub_days now t in
      (e, ap sum_calls e ∙ sum_calls-counted (keep (λ log. leb (sub_days now 6) log.created_at) t))
