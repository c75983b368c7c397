-- ===== src/Tests/Sessions.antt =====
-- The theorems on reports and on the life of a connection at concrete inputs.
use topy.Prelude.{ℕ, ◌^◌, ◌%◌, ◌≡◌, ◌↔◌, refl, true, false, [], ◌∷◌, pos, negsuc, residue, length}
use topy.Client.{new_client, client_read}
use topy.Client.Lifetime.{
  Session, Reachable, start, after, reads, finish, hang_up, Reachable-deleted, Reachable-freed,
}
use topy.Field.{Field, field_int}
use topy.Filter.{Filter, new_filter}
use topy.Groups.{new_groups}
use topy.Report.{
  report_int, report_events, ReportFieldEvents, report_loop, new_report_int, new_report_events,
}
use topy.Report.Counters.{IsTotal, report_totals}
use topy.Report.Totals.{reported, values, counters, itself}
use topy.StatsVector.Loops.{Cells}
use topy.StatsVector.Sums.Each.{sum_of}
use topy.Timer.{Timer}
use topy.Users.{User}

abbrev blank : Cells
blank i = pos 0

abbrev evening : Timer
evening = record { update = 0; lock_count = 0; now = 0; hour = 20; day = 3; month = 11; year = 108 }

-- Everybody is in debt.
abbrev debtors : ℕ → User Field
debtors a = record {
  id = b'a' ∷ [];
  group = 0;
  deleted = false;
  field = λ i. field_int (record { value = negsuc 4; is_unsigned = false });
}

abbrev everybody : Filter
everybody = new_filter (record { char_classe = λ c. 0; buffer = []; current = [] })

report_totals_example :
    let fs = reported evening new_groups everybody 0 debtors (2 ∷ 3 ∷ []) in
    ((report_loop evening new_groups everybody 0
        (2 ∷ 3 ∷ [])
        (debtors, report_int new_report_int)).1
      ≡ report_int (record {
        count = length (values fs) % 2 ^ 32;
        total = residue (2 ^ 32) (sum_of itself (values fs)) % 2 ^ 32;
      }))
    × ((r : ReportFieldEvents) × ((report_loop evening new_groups everybody 0
            (2 ∷ 3 ∷ [])
            (debtors, report_events (new_report_events blank))).1
          ≡ report_events r)
        × IsTotal (counters evening fs) r)
report_totals_example =
    report_totals evening new_groups everybody 0 blank debtors (2 ∷ 3 ∷ []) (refl, (refl, tt))

-- A command that starts a thread, and then one that quits.
abbrev working : Session
working = record { client = client_read false 1 (new_client true); threads = 1 }

abbrev quitting : Session
quitting = record { client = client_read true 0 working.client; threads = 1 }

quitting-Reachable : Reachable quitting
unfolding new_client client_read
quitting-Reachable =
    after working quitting
      (after (record { client = new_client true; threads = 0 }) working start
        (reads (record { client = new_client true; threads = 0 }) false 1 refl))
      (reads working true 0 refl)

Reachable-deleted_example :
    (quitting.client.deleted ≡ true)
    ↔ ((quitting.client.ev_buffer ≡ false) × (quitting.threads ≡ 0))
Reachable-deleted_example = Reachable-deleted quitting quitting-Reachable

Reachable-freed_example : (finish quitting.threads (hang_up quitting.client)).deleted ≡ true
Reachable-freed_example = Reachable-freed quitting quitting-Reachable
