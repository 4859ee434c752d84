-- ===== src/AutoIp/Draw.antt =====
-- The draw stays in the range of RFC 3927 section 2.1, off the address that was answered for.
use idem_ip.Base.{ℕ, zero, suc, ◌+◌, ◌%◌, ◌≤◌, ◌<◌, ◌≡◌, ◌≢◌}
use idem_ip.Base.{arith}
use idem_ip.Base.Bits.{bit_and_mask, bit_or_fields}
use idem_ip.Config.{autoip_first, autoip_last}
use idem_ip.AutoIp.{candidate, fold, draws, draw, next}

-- The link-local addresses that may be selected.
abbrev pub IsLinkLocal : ℕ → Type 0
IsLinkLocal a = (autoip_first ≤ a) × (a ≤ autoip_last)

candidate_sum : (s : ℕ) → candidate s ≡ 0xa9fe_0000 + s % 65536
unfolding candidate
candidate_sum s = rw (bit_and_mask 16 s) (bit_or_fields 16 0xa9fe (s % 65536) (omega arith))

fold-IsLinkLocal :
    (addr taken : ℕ)
    → 0xa9fe_0000 ≤ addr
    → addr < 0xa9ff_0000
    → IsLinkLocal (fold addr taken) × (fold addr taken ≢ taken)
unfolding fold
fold-IsLinkLocal addr taken l h = ground arith

draws-IsLinkLocal :
    (n s addr taken : ℕ)
    → IsLinkLocal (draws (suc n) s addr taken).ipaddr
      × ((draws (suc n) s addr taken).ipaddr ≢ taken)
draws-IsLinkLocal zero s addr taken =
    let sum = candidate_sum (next s) in
    ground
      (arith, fold-IsLinkLocal (candidate (next s)) taken (omega (arith, sum)) (omega (arith, sum)))
draws-IsLinkLocal (suc n) s addr taken =
    ground (arith, draws-IsLinkLocal n (next s) (candidate (next s)) taken)

-- Whatever the generator's state and whatever address was answered for, the draw lies between
-- 169.254.1.0 and 169.254.254.255 and is another address than that one.
pub draw-IsLinkLocal :
    (s taken : ℕ) → IsLinkLocal (draw s taken).ipaddr × ((draw s taken).ipaddr ≢ taken)
unfolding draw
draw-IsLinkLocal s taken = draws-IsLinkLocal 3 s 0 taken
