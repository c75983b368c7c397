-- ===== src/Tests/Fields.antt =====
-- The theorems on rankings, counters, logs and the clock at concrete inputs.
use topy.Prelude.{
  ℕ, zero, suc, ◌+◌, ◌-◌, ◌*◌, ◌%◌, ◌^◌, ◌<◌, min, ◌≡◌, ◌≢◌, ◌↔◌, refl, true, inl, List, [], ◌∷◌, ℤ,
  pos, negsuc, ◌+ℤ◌, ltb, leb, if◌then◌else◌, ◌&&◌, take, length, arith,
}
use topy.StatsVector.{
  StatsVector, uint8_t, uint16_t, uint32_t, int64_t, get_sample, translate, del, cast, opened,
}
use topy.StatsVector.Window.{IsValid, get_sample-translate, get_sample-del}
use topy.StatsVector.Loops.{Cells}
use topy.Events.{FieldEvents, inc_or_expand, update, hours_len}
use topy.Events.Expand.{Counts, Held, Counted, inc_or_expand-Counted, inc_or_expand_lost}
use topy.Events.Sliding.{update_slides}
use topy.Logs.{LogField, new_log, insert_query, log_len}
use topy.Logs.Unique.{IsLog, Distinct, insert_unique-Distinct, insert_unique_minus_one}
use topy.Logs.Length.{insert_all, count-insert_all}
use topy.Timer.{Timer, Clock, refresh}
use topy.Timer.Calendar.{days_before, refresh-calendar, refresh_2028}
use topy.Top.{TopItem, sort, new_top, add_all, finalize}
use topy.Top.Best.{top-best}

abbrev three_users : List TopItem
three_users =
    record { user = 1; score = pos 4 }
    ∷ record { user = 2; score = pos 9 }
    ∷ record { user = 3; score = negsuc 2 }
    ∷ []

top-best_example :
    (finalize (pos 0) (add_all (pos 0) (new_top (pos 0) 1) three_users)).list
    ≡ take 1 (sort three_users)
top-best_example = top-best (pos 0) 1 three_users (omega arith)

-- Three hours with 7, 0 and 250 events, in bytes.
abbrev cells : Cells
cells zero = pos 250
cells (suc zero) = pos 0
cells (suc (suc i)) = pos 7

abbrev hours : StatsVector
hours = record { type_s = uint8_t; len_s = 24; is_unsigned = true; count = 3; samples = cells }

hours-IsValid : IsValid hours
hours-IsValid = record { within = omega arith; short = omega arith; some_room = omega arith }

hours-Counts : Counts (2 ^ 16) hours
unfolding get_sample
hours-Counts = record { held = go }
  where
    go : (i : ℕ) → Held (2 ^ 16) (get_sample hours i)
    go zero = omega arith
    go (suc zero) = omega arith
    go (suc (suc zero)) = omega arith
    go (suc (suc (suc i))) = ground arith

hours-first : (opened hours).samples 0 ≡ pos 250
unfolding opened
hours-first = refl

abbrev hours_300 : StatsVector
hours_300 = inc_or_expand (λ i. pos 0) hours hours_len (pos 50) uint16_t uint32_t true

inc_or_expand-Counted_example : Counted hours_300 hours (pos 300)
unfolding ◌+ℤ◌
inc_or_expand-Counted_example =
    inc_or_expand-Counted (λ i. pos 0) hours hours_len 250 (pos 50) (pos 300) refl hours-Counts
      (omega arith) hours-first refl (omega arith, omega arith) (inl (refl, omega arith))

inc_or_expand_lost_example :
    get_sample (inc_or_expand (λ i. pos 0) hours hours_len (pos 70000) uint16_t uint32_t true) 0
    ≡ pos 250
unfolding ◌+ℤ◌
inc_or_expand_lost_example =
    inc_or_expand_lost (λ i. pos 0) hours hours_len 250 (pos 70000) (pos 70250) refl hours-Counts
      (omega arith) hours-first refl (omega arith, omega arith) refl (omega arith)

get_sample-translate_example :
    get_sample (translate hours 2) 4
    ≡ (if ltb 4 2 then pos 0 else if ltb 4 24 then get_sample hours 2 else pos 0)
get_sample-translate_example = get_sample-translate hours 2 4 hours-IsValid

get_sample-del_example :
    get_sample (del hours 1).0 1
    ≡ (if ltb 1 3 && leb 1 1 then get_sample hours 2 else get_sample hours 1)
get_sample-del_example = get_sample-del hours 1 1

abbrev noon : Timer
noon = record { update = 0; lock_count = 0; now = 0; hour = 12; day = 0; month = 0; year = 108 }

abbrev morning : FieldEvents
morning = record {
  date = record { hour = pos 10; day = pos 0; month = pos 0 };
  last_inc = pos 0;
  hours = hours;
  days = hours;
  months = hours;
  total = 257;
}

update_slides_example :
    ((update noon morning).date ≡ record { hour = pos 12; day = pos 0; month = pos 0 })
    × (get_sample (update noon morning).hours 2
        ≡ (if ltb 2 2 then pos 0 else if ltb 2 24 then get_sample hours 0 else pos 0))
    × (get_sample (update noon morning).days 2
        ≡ (if ltb 2 0 then pos 0 else if ltb 2 24 then get_sample hours 2 else pos 0))
    × (get_sample (update noon morning).months 2
        ≡ (if ltb 2 0 then pos 0 else if ltb 2 24 then get_sample hours 2 else pos 0))
update_slides_example =
    update_slides noon morning 10 0 0 2 refl (omega arith, omega arith, omega arith)
      (omega arith, omega arith, omega arith) (hours-IsValid, hours-IsValid, hours-IsValid)

-- Two items, 5 the newest.
abbrev two_items : Cells
two_items zero = pos 5
two_items (suc i) = pos 8

-- A FieldLog.
abbrev short_log : LogField
short_log = record {
  items = record {
    type_s = uint32_t;
    len_s = 5000;
    is_unsigned = true;
    count = 2;
    samples = two_items;
  };
  dates = record { type_s = int64_t; len_s = 5000; is_unsigned = true; count = 2; samples = cells };
}

short_log-IsLog : IsLog short_log
short_log-IsLog = record {
  items_roomy = record { within = omega arith; short = omega arith; some_room = omega arith };
  dates_roomy = record { within = omega arith; short = omega arith; some_room = omega arith };
  paired = refl;
  same_len = refl;
}

short_log-Distinct : Distinct short_log.items
short_log-Distinct = record { apart = go }
  where
    go : (i j : ℕ) → i < j → j < 2 → two_items i ≢ two_items j
    go zero zero a b e = absurd (omega arith)
    go zero (suc j) a b e = cc
    go (suc i) j a b e = absurd (omega arith)

insert_unique-Distinct_example :
    (Distinct (insert_query true (pos 8) (pos 100) short_log).items)
    × ((insert_query true (pos 8) (pos 100) short_log).items.samples 0 ≡ cast uint32_t (pos 8))
insert_unique-Distinct_example =
    insert_unique-Distinct (pos 8) (pos 100) short_log (λ e. cc) short_log-IsLog short_log-Distinct

-- One item, the largest id.
abbrev last_id : LogField
last_id = record short_log {
  items = record {
    type_s = uint32_t;
    len_s = 50;
    is_unsigned = true;
    count = 1;
    samples = λ i. pos (2 ^ 32 - 1);
  };
  dates = record { type_s = int64_t; len_s = 50; is_unsigned = true; count = 1; samples = cells };
}

last_id-IsLog : IsLog last_id
last_id-IsLog = record {
  items_roomy = record { within = omega arith; short = omega arith; some_room = omega arith };
  dates_roomy = record { within = omega arith; short = omega arith; some_room = omega arith };
  paired = refl;
  same_len = refl;
}

last_id-first : pos (2 ^ 32 - 1) ≡ cast uint32_t (negsuc 0)
unfolding cast
last_id-first = refl

insert_unique_minus_one_example : ¬ Distinct (insert_query true (negsuc 0) (pos 100) last_id).items
insert_unique_minus_one_example =
    insert_unique_minus_one (pos 100) last_id last_id-IsLog (omega arith) (omega arith)
      last_id-first

abbrev many : ℕ → List (ℤ × ℤ)
many zero = []
many (suc n) = (pos n, pos n) ∷ many n

count-insert_all_example :
    (insert_all (many 3) (new_log log_len (λ i. pos 0) (λ i. pos 0))).items.count
    ≡ (if ltb log_len (2 ^ 8) then min (length (many 3)) log_len else length (many 3) % 2 ^ 8)
count-insert_all_example = count-insert_all log_len (λ i. pos 0) (λ i. pos 0) (many 3)

-- 2 March 2010, 5 o'clock, and a day in 2028.
abbrev in_2010 : Clock
in_2010 = record {
  time = 1267506000;
  gmt = record { tm_year = 110; tm_mon = 2; tm_yday = 60; tm_hour = 5 };
}

abbrev in_2028 : Clock
in_2028 = record {
  time = 1830384000;
  gmt = record { tm_year = 128; tm_mon = 0; tm_yday = 1; tm_hour = 0 };
}

refresh-calendar_example :
    ((refresh (λ i. 0) in_2010 noon).day ≡ days_before 2 + 60)
    × ((refresh (λ i. 0) in_2010 noon).hour ≡ (days_before 2 + 60) * 24 + 5)
    × ((refresh (λ i. 0) in_2010 noon).month ≡ 2 * 12 + 2)
    × ((refresh (λ i. 0) in_2010 noon).now ≡ 1267506000)
refresh-calendar_example =
    refresh-calendar (λ i. 0) in_2010 noon 2 refl (omega arith) refl (omega arith)

refresh_2028_example :
    ((refresh (λ i. 0) in_2028 noon).day ≡ days_before 20 + 1) ↔ (0 ≡ days_before 20)
refresh_2028_example = refresh_2028 (λ i. 0) in_2028 noon refl (omega arith) refl
