-- ===== src/Clock/Epoch.antt =====
-- The epoch follows the time that the readings are taken of.
use idem_ip.Base.{ℕ, ◌+◌, ◌-◌, ◌*◌, ◌/◌, ◌%◌, ◌^◌, ◌≤◌, ◌<◌, ◌≡◌, arith, refl}
use idem_ip.Base.{Bool, List, [], ◌∷◌, u32, ltb, if◌then◌else◌}
use idem_ip.Base.Bits.{bit_and_mask, bit_or_fields}
use idem_ip.Clock.{Clock, join, refresh, open_pass, elapsed, epoch, from_s, hi_of, lo_of, extend}

join_sum : (hi lo : ℕ) → hi < 2 ^ 32 → lo < 2 ^ 32 → join hi lo ≡ hi * 4294967296 + lo
unfolding join
join_sum hi lo h l =
    let whole : hi * 4294967296 % 2 ^ 64 ≡ hi * 4294967296 = omega arith in
    rw whole (bit_or_fields 32 hi lo l)

-- A 64-bit epoch value split in its two words and joined again is itself.
pub join-hi_of : (t : ℕ) → t < 2 ^ 64 → join (hi_of t) (lo_of t) ≡ t
unfolding hi_of lo_of
join-hi_of t h =
    omega (arith, bit_and_mask 32 t, join_sum (hi_of t) (lo_of t) (omega arith) (omega arith))

-- A lifetime of any 32-bit number of seconds is that many thousands of milliseconds.
pub from_s_lem : (s : ℕ) → s < 2 ^ 32 → from_s s ≡ s * 1000
unfolding from_s
from_s_lem s h = omega arith

-- The clock stands at the time `t`.
abbrev pub StandsAt : ℕ → Clock → Type 0
StandsAt t c = (c.reading ≡ t % 4294967296) × (c.hi ≡ t / 4294967296)

refresh-StandsAt :
    (c : Clock) (t next : ℕ)
    → StandsAt t c
    → t ≤ next
    → next < t + 2 ^ 32
    → next < 2 ^ 64
    → StandsAt next (refresh c (next % 2 ^ 32)).0 × ((refresh c (next % 2 ^ 32)).1 ≡ next)
unfolding refresh
refresh-StandsAt c t next s l near small =
    let hi = if ltb (next % 2 ^ 32) c.reading then u32 (c.hi + 1) else c.hi in
    let raised : hi ≡ next / 4294967296 = ground arith in
    ((refl, raised), omega (arith, join_sum hi (next % 4294967296) (omega arith) (omega arith)))

-- The times that readings are taken at: in order, each less than 2 ^ 32 past the one before.
abbrev pub IsPaced : ℕ → List ℕ → Type 0
IsPaced t [] = t < 2 ^ 64
IsPaced t (next ∷ times) = (t ≤ next) × (next < t + 2 ^ 32) × IsPaced next times

-- A clock refreshed with the low 32 bits of each time.
unfoldable pub run : List ℕ → Clock → Clock
run [] c = c
run (t ∷ times) c = run times (refresh c (t % 2 ^ 32)).0

abbrev pub last : ℕ → List ℕ → ℕ
last t [] = t
last t (next ∷ times) = last next times

IsPaced-lt : (t : ℕ) (times : List ℕ) → IsPaced t times → t < 2 ^ 64
IsPaced-lt t [] p = p
IsPaced-lt t (next ∷ times) p = omega (arith, IsPaced-lt next times p.2)

run-StandsAt :
    (c : Clock) (t : ℕ) (times : List ℕ)
    → StandsAt t c
    → IsPaced t times
    → StandsAt (last t times) (run times c) × (last t times < 2 ^ 64)
unfolding run
run-StandsAt c t [] s p = (s, p)
run-StandsAt c t (next ∷ times) s p =
    let one = refresh-StandsAt c t next s p.0 p.1 (IsPaced-lt next times p.2) in
    run-StandsAt (refresh c (next % 2 ^ 32)).0 next times one.0 p.2

-- A clock that stands at a 64-bit time, and is refreshed with the low words of times that follow
-- it, each less than 2 ^ 32 ms past the one before, gives the last of them as its epoch, however
-- often the readings wrap.
pub epoch-run :
    (c : Clock) (t : ℕ) (times : List ℕ)
    → StandsAt t c
    → IsPaced t times
    → epoch (run times c) ≡ last t times
unfolding epoch
epoch-run c t times s p =
    let end = run-StandsAt c t times s p in
    let now = run times c in omega (arith, join_sum now.hi now.reading (omega arith) (omega arith))

-- What a pass has cost, for a clock that stands at a 64-bit time when it opens: readings that
-- follow the stamp by less than 2 ^ 32 ms in all leave the difference of the two times, across any
-- wrap.
pub elapsed-run :
    (has_tick : Bool) (c : Clock) (t next : ℕ)
    → StandsAt t c
    → t ≤ next
    → next < t + 2 ^ 32
    → next < 2 ^ 64
    → elapsed (refresh (open_pass has_tick c) (next % 2 ^ 32)).0 ≡ next - t
unfolding elapsed refresh open_pass
elapsed-run has_tick c t next s l near small = ground arith

-- The two loose words of `extend` move as a clock's do, and give the same epoch.
pub extend-refresh :
    (c : Clock) (now_ms : ℕ)
    → let e = extend c.reading c.hi now_ms in
      let (after, t) = refresh c now_ms in
      (e.last_ms ≡ after.reading) × (e.hi ≡ after.hi) × (e.epoch ≡ t)
unfolding extend refresh
extend-refresh c now_ms = (refl, refl, refl)
