-- ===== src/Clock/Tests.antt =====
-- The clock at concrete times.
use idem_ip.Base.{ℕ, ◌%◌, ◌^◌, ◌≡◌, List, [], ◌∷◌, arith, refl, true}
use idem_ip.Clock.{Clock, refresh, open_pass, elapsed, epoch, from_s, join, hi_of, lo_of}
use idem_ip.Clock.Epoch.{join-hi_of, from_s_lem, run, epoch-run, elapsed-run}

-- A clock that stands at 4294967290, six milliseconds before its first wrap.
abbrev near_wrap : Clock
near_wrap = record { reading = 4294967290; hi = 0; stamp = 0; tick = 0; tick_stamp = 0 }

abbrev times : List ℕ
times = 4294967295 ∷ 4294967300 ∷ 8589934590 ∷ 8589934600 ∷ []

epoch-run_example : epoch (run times near_wrap) ≡ 8589934600
epoch-run_example =
    epoch-run near_wrap 4294967290 times (refl, refl)
      (
        omega arith,
        omega arith,
        (
          omega arith,
          omega arith,
          (omega arith, omega arith, (omega arith, omega arith, omega arith)),
        ),
      )

elapsed-run_run : elapsed (refresh (open_pass true near_wrap) (4294967310 % 2 ^ 32)).0 ≡ 20
elapsed-run_run =
    elapsed-run true near_wrap 4294967290 4294967310 (refl, refl) (omega arith) (omega arith)
      (omega arith)

widest_lifetime : from_s 4294967295 ≡ 4294967295000
widest_lifetime = from_s_lem 4294967295 (omega arith)

join-hi_of_run : join (hi_of 8589934600) (lo_of 8589934600) ≡ 8589934600
join-hi_of_run = join-hi_of 8589934600 (omega arith)
