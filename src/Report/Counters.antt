-- ===== src/Report/Counters.antt =====
-- ReportFieldEvents of src/field.cc over a list of users.
use topy.Prelude.{
  ℕ, suc, ◌+◌, ◌%◌, ◌^◌, ◌<◌, ◌≡◌, refl, ap, ◌∙◌, true, List, [], ◌∷◌, ℤ, pos, negsuc, ◌+ℤ◌,
  residue, wrap32, length, map, arith,
}
use topy.Events
use topy.Events.{FieldEvents}
use topy.Field.{
  Field, field_events, field_marks, field_int, field_ulog, field_log, field_timestamp, no_field,
}
use topy.Filter.{Filter}
use topy.Groups.{Groups}
use topy.Report.{
  report_int, report_events, ReportFieldEvents, add_events, report_add, report_loop, new_report_int,
  new_report_events,
}
use topy.Report.Totals.{
  reported, add_all, report_loop-add_all, values, counters, itself, add_all-values,
}
use topy.StatsVector.{uint32_t, uint64_t, StatsVector, get_sample, new_vector}
use topy.StatsVector.Loops.{Cells}
use topy.StatsVector.Sums.Each.{
  add_each, count_each, sum_of, sample_at, active_at, get_sample-add_each, get_sample-count_each,
}
use topy.Timer.{Timer}
use topy.Users.{User}
use topy.Users.Best.{Once}

abbrev hours_of : FieldEvents → StatsVector
hours_of e = e.hours

abbrev days_of : FieldEvents → StatsVector
days_of e = e.days

abbrev months_of : FieldEvents → StatsVector
months_of e = e.months

abbrev totals : List FieldEvents → ℕ
totals [] = 0
totals (e ∷ es) = e.total + totals es

-- A report with the counters added, one by one.
abbrev add_counters : ReportFieldEvents → List FieldEvents → ReportFieldEvents
add_counters r es = record {
  count = (r.count + length es) % 2 ^ 32;
  total = (r.total + totals es) % 2 ^ 32;
  hours = add_each r.hours (map hours_of es);
  days = add_each r.days (map days_of es);
  months = add_each r.months (map months_of es);
  active_hours = count_each r.active_hours (map hours_of es);
  active_days = count_each r.active_days (map days_of es);
  active_months = count_each r.active_months (map months_of es);
}

-- What a report of counters shows of them.
pub record IsTotal (es : List FieldEvents) (r : ReportFieldEvents) : Type 0 where
  pub count : r.count ≡ length es % 2 ^ 32
  pub total : r.total ≡ totals es % 2 ^ 32
  pub hours : (i : ℕ) → get_sample r.hours i ≡ wrap32 (sum_of (sample_at i) (map hours_of es))
  pub days : (i : ℕ) → get_sample r.days i ≡ wrap32 (sum_of (sample_at i) (map days_of es))
  pub months : (i : ℕ) → get_sample r.months i ≡ wrap32 (sum_of (sample_at i) (map months_of es))
  pub active_hours :
      (i : ℕ) → get_sample r.active_hours i ≡ wrap32 (sum_of (active_at i) (map hours_of es))
  pub active_days :
      (i : ℕ) → get_sample r.active_days i ≡ wrap32 (sum_of (active_at i) (map days_of es))
  pub active_months :
      (i : ℕ) → get_sample r.active_months i ≡ wrap32 (sum_of (active_at i) (map months_of es))

zero_plus : (z : ℤ) → pos 0 +ℤ z ≡ z
unfolding ◌+ℤ◌
zero_plus (pos n) = ground arith
zero_plus (negsuc n) = ground arith

added_to_empty :
    (len : ℕ) (memory : Cells) (l : List StatsVector) (i : ℕ)
    → get_sample (add_each (new_vector uint64_t len true memory) l) i
      ≡ wrap32 (sum_of (sample_at i) l)
unfolding new_vector get_sample
added_to_empty len memory l i =
    get_sample-add_each (new_vector uint64_t len true memory) l i refl
    ∙ ap (λ (x : ℤ). wrap32 (x +ℤ sum_of (sample_at i) l)) (nothing i)
    ∙ ap wrap32 (zero_plus (sum_of (sample_at i) l))
  where
    nothing : (i : ℕ) → get_sample (new_vector uint64_t len true memory) i ≡ pos 0
    nothing i = ground arith

counted_in_empty :
    (len : ℕ) (memory : Cells) (l : List StatsVector) (i : ℕ)
    → get_sample (count_each (new_vector uint32_t len true memory) l) i
      ≡ wrap32 (sum_of (active_at i) l)
unfolding new_vector get_sample
counted_in_empty len memory l i =
    get_sample-count_each (new_vector uint32_t len true memory) l i refl
    ∙ ap (λ (x : ℤ). wrap32 (x +ℤ sum_of (active_at i) l)) (nothing i)
    ∙ ap wrap32 (zero_plus (sum_of (active_at i) l))
  where
    nothing : (i : ℕ) → get_sample (new_vector uint32_t len true memory) i ≡ pos 0
    nothing i = ground arith

module _ (timer : Timer) (gs : Groups) (filter : Filter) (field_id : ℕ) where
  add_all-counters :
      (r : ReportFieldEvents) (fs : List Field)
      → r.count < 2 ^ 32
      → r.total < 2 ^ 32
      → add_all timer gs filter field_id (report_events r) fs
        ≡ report_events (add_counters r (counters timer fs))
  unfolding add_all counters report_add add_events add_each count_each
  add_all-counters r [] c t =
      let same_count : r.count ≡ (r.count + 0) % 2 ^ 32 = omega (arith, c) in
      let same_total : r.total ≡ (r.total + 0) % 2 ^ 32 = omega (arith, t) in
      ap (λ (n : ℕ). report_events (record r { count = n })) same_count
      ∙ ap (λ (n : ℕ). report_events (record r { count = (r.count + 0) % 2 ^ 32; total = n }))
          same_total
  add_all-counters r (field_events e ∷ fs) c t =
      let u = Events.update timer e in
      let es = counters timer fs in
      let one_more : ((r.count + 1) % 2 ^ 32 + length es) % 2 ^ 32
          ≡ (r.count + suc (length es)) % 2 ^ 32 =
        omega arith in
      let all_more : ((r.total + u.total) % 2 ^ 32 + totals es) % 2 ^ 32
          ≡ (r.total + (u.total + totals es)) % 2 ^ 32 =
        omega arith in
      add_all-counters (add_events u r) fs (omega arith) (omega arith)
      ∙ ap (λ (n : ℕ). report_events (record (add_counters (add_events u r) es) { count = n }))
          one_more
      ∙ ap
          (λ (n : ℕ). report_events (record (add_counters (add_events u r) es) {
            count = (r.count + suc (length es)) % 2 ^ 32;
            total = n;
          }))
          all_more
  add_all-counters r (field_int f ∷ fs) c t = add_all-counters r fs c t
  add_all-counters r (field_marks f ∷ fs) c t = add_all-counters r fs c t
  add_all-counters r (field_ulog f ∷ fs) c t = add_all-counters r fs c t
  add_all-counters r (field_log f ∷ fs) c t = add_all-counters r fs c t
  add_all-counters r (field_timestamp f ∷ fs) c t = add_all-counters r fs c t
  add_all-counters r (no_field ∷ fs) c t = add_all-counters r fs c t

  -- A report over a list in which no user stands twice is about the fields of the users that are
  -- not deleted and pass the filter: a report of numbers has their count and the sum of their
  -- values modulo 2^32; a report of events has the count and the sum of the totals of those
  -- counters, brought up to date, modulo 2^32, and for every hour, day and month the sum of their
  -- samples and the number of the active ones, as `get_sample` answers an `int`.
  pub report_totals :
      (memory : Cells) (heap : ℕ → User Field) (list : List ℕ)
      → Once list
      → let fs = reported timer gs filter field_id heap list in
        ((report_loop timer gs filter field_id list (heap, report_int new_report_int)).1
          ≡ report_int (record {
            count = length (values fs) % 2 ^ 32;
            total = residue (2 ^ 32) (sum_of itself (values fs)) % 2 ^ 32;
          }))
        × ((r : ReportFieldEvents) × ((report_loop timer gs filter field_id list
                (heap, report_events (new_report_events memory))).1
              ≡ report_events r)
            × IsTotal (counters timer fs) r)
  unfolding new_report_int new_report_events
  report_totals memory heap list once =
      let fs = reported timer gs filter field_id heap list in
      let es = counters timer fs in
      (
        report_loop-add_all timer gs filter field_id heap list (report_int new_report_int) once
            ∙ add_all-values timer gs filter field_id new_report_int fs (omega arith) (omega arith)
            ∙ ap
                (λ (n : ℕ). report_int (record {
                  count = n % 2 ^ 32;
                  total = (0 + residue (2 ^ 32) (sum_of itself (values fs))) % 2 ^ 32;
                }))
                (zero_first (length (values fs)))
            ∙ ap
                (λ (n : ℕ).
                  report_int (record { count = length (values fs) % 2 ^ 32; total = n % 2 ^ 32 }))
                (zero_first (residue (2 ^ 32) (sum_of itself (values fs)))),
        (
          add_counters (new_report_events memory) es,
          report_loop-add_all timer gs filter field_id heap list
                (report_events (new_report_events memory)) once
              ∙ add_all-counters (new_report_events memory) fs (omega arith) (omega arith),
          record {
            count = ap (λ (n : ℕ). n % 2 ^ 32) (zero_first (length es));
            total = ap (λ (n : ℕ). n % 2 ^ 32) (zero_first (totals es));
            hours = added_to_empty 24 memory (map hours_of es);
            days = added_to_empty 31 memory (map days_of es);
            months = added_to_empty 12 memory (map months_of es);
            active_hours = counted_in_empty 24 memory (map hours_of es);
            active_days = counted_in_empty 31 memory (map days_of es);
            active_months = counted_in_empty 12 memory (map months_of es);
          },
        ),
      )
    where
      zero_first : (n : ℕ) → 0 + n ≡ n
      zero_first n = omega arith
