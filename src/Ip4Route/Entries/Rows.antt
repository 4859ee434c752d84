-- ===== src/Ip4Route/Entries/Rows.antt =====
-- What holds of every row that the entries of src/ip/ip4_route.c write, row by row.
use idem_ip.Base.{ℕ, zero, suc, ◌<◌, ◌^◌, Bool, true, false, not, ◌&&◌, ◌||◌, bit_and, bit_or}
use idem_ip.Base.{List, [], ◌∷◌, ◌≡◌, refl, inl, inr, ltb, leb, ◌==◌, if◌then◌else◌}
use idem_ip.Base.{set, replicate, u8, arith, Bool-cases}
use idem_ip.Base.Bits.{all_below, all_below_sound, bit_and_mask, bit_and_idem}
use idem_ip.Ip4Addr.{mask_ones, mask_contiguous}
use idem_ip.Ip4Route.{Entry, at, is_gateway, mask_host, f_gateway, f_host, free_entry}
use idem_ip.Ip4Route.Entries.{
  AddArgs, added_row, remove_rows, is_removed, removed, is_stale, freshened,
}
use idem_ip.Ip4Route.Entries.{derive_host, redirected, lowered}
use idem_ip.Ip4Route.Entries.{sweep, min_forward_mtu}

-- A row that is used names a whole number of leading bits and no bit past them, carries their count,
-- names a gateway where it goes through one, is flagged for a host exactly where its mask is full,
-- and holds an estimate only then, none below the least that a host must forward.
unfoldable pub row_ok : Entry → Bool
row_ok e =
    not e.used
    || (mask_contiguous e.mask
        && bit_and e.dst e.mask == e.dst
        && e.plen == mask_ones e.mask
        && ltb e.flags (2 ^ 8)
        && (not (is_gateway e.flags) || not (e.gw == 0))
        && (if e.mask == mask_host
            then not (bit_and e.flags f_host == 0)
            else bit_and e.flags f_host == 0)
        && (e.pmtu == 0 || (leb min_forward_mtu e.pmtu && e.mask == mask_host)))

pub is_valid : List Entry → Bool
is_valid [] = true
is_valid (e ∷ es) = row_ok e && is_valid es

pub is_valid-at : (tab : List Entry) (i : ℕ) → is_valid tab ≡ true → row_ok (at tab i) ≡ true
unfolding is_valid row_ok
is_valid-at [] i h = refl
is_valid-at (e ∷ es) zero h = ground arith
is_valid-at (e ∷ es) (suc i) h = is_valid-at es i (ground arith)

pub is_valid-set :
    (tab : List Entry) (i : ℕ) (e : Entry)
    → is_valid tab ≡ true
    → row_ok e ≡ true
    → is_valid (set tab i e) ≡ true
unfolding is_valid
is_valid-set [] i e h r = refl
is_valid-set (x ∷ xs) zero e h r = ground arith
is_valid-set (x ∷ xs) (suc i) e h r = ground (arith, is_valid-set xs i e)

pub is_valid-replicate : (n : ℕ) → is_valid (replicate n free_entry) ≡ true
unfolding is_valid row_ok
is_valid-replicate zero = refl
is_valid-replicate (suc n) = is_valid-replicate n

removed-row_ok : (e : Entry) (dst mask : ℕ) → row_ok e ≡ true → row_ok (removed e dst mask) ≡ true
unfolding removed row_ok
removed-row_ok e dst mask h = elim (Bool-cases (is_removed e dst mask)) [
  | inl c ↦ rw (removed, c) refl
  | inr c ↦ rw (removed, c) h
]

freshened-row_ok : (e : Entry) (now : ℕ) → row_ok e ≡ true → row_ok (freshened e now) ≡ true
unfolding row_ok freshened
freshened-row_ok e now h = elim (Bool-cases (is_stale e now)) [
  | inl c ↦ rw (freshened, c) (ground arith)
  | inr c ↦ rw (freshened, c) h
]

pub is_valid-remove_rows :
    (tab : List Entry) (dst mask : ℕ)
    → is_valid tab ≡ true
    → is_valid (remove_rows tab dst mask) ≡ true
unfolding is_valid remove_rows
is_valid-remove_rows [] dst mask h = refl
is_valid-remove_rows (x ∷ xs) dst mask h =
    ground (arith, removed-row_ok x dst mask, is_valid-remove_rows xs dst mask)

pub is_valid-sweep :
    (tab : List Entry) (now : ℕ) → is_valid tab ≡ true → is_valid (sweep tab now) ≡ true
unfolding is_valid sweep
is_valid-sweep [] now h = refl
is_valid-sweep (x ∷ xs) now h = ground (arith, freshened-row_ok x now, is_valid-sweep xs now)

flags_test : ℕ → Bool
flags_test f =
    let kept = bit_and f 0xf7 in
    let host = u8 (bit_or kept f_host) in
    let through = u8 (bit_or f f_gateway) in
    let derived = u8 (bit_or (bit_and f f_gateway) f_host) in
    bit_and kept f_host == 0
    && ltb kept 256
    && ltb host 256
    && ltb through 256
    && ltb derived 256
    && bit_and kept f_gateway == bit_and f f_gateway
    && bit_and host f_gateway == bit_and f f_gateway
    && not (bit_and host f_host == 0)
    && not (bit_and through f_gateway == 0)
    && bit_and through f_host == bit_and f f_host
    && not (bit_and derived f_host == 0)
    && bit_and derived f_gateway == bit_and f f_gateway

flags_lem : (f : ℕ) → f < 256 → flags_test f ≡ true
unfolding flags_test all_below
flags_lem f h = all_below_sound 256 flags_test f refl h

pub added_row-row_ok :
    (a : AddArgs)
    → a.flags < 256
    → mask_contiguous a.mask ≡ true
    → is_gateway a.flags && a.gw == 0 ≡ false
    → row_ok (added_row a) ≡ true
unfolding row_ok added_row flags_test
added_row-row_ok a f c g = ground (arith, flags_lem a.flags f, bit_and_idem a.dst a.mask)

pub mask_host_contiguous : mask_contiguous mask_host ≡ true
unfolding mask_contiguous
mask_host_contiguous = refl

pub derive_host-row_ok :
    (e : Entry) (dst : ℕ)
    → e.used ≡ true
    → row_ok e ≡ true
    → dst < 2 ^ 32
    → row_ok (derive_host e dst) ≡ true
unfolding row_ok derive_host flags_test
derive_host-row_ok e dst u h d =
    ground (arith, flags_lem e.flags, bit_and_mask 32 dst, mask_host_contiguous)

pub redirected-row_ok :
    (e : Entry) (gw : ℕ) → row_ok e ≡ true → gw == 0 ≡ false → row_ok (redirected e gw) ≡ true
unfolding row_ok redirected flags_test
redirected-row_ok e gw h g = ground (arith, flags_lem e.flags)

pub lowered-row_ok :
    (e : Entry) (mtu now : ℕ)
    → row_ok e ≡ true
    → e.mask ≡ mask_host
    → ltb mtu min_forward_mtu ≡ false
    → row_ok (lowered e mtu now) ≡ true
unfolding row_ok lowered
lowered-row_ok e mtu now h m l = ground arith

pub row_ok_prefix :
    (e : Entry)
    → e.used ≡ true
    → row_ok e ≡ true
    → (mask_contiguous e.mask ≡ true) × (bit_and e.dst e.mask ≡ e.dst) × (e.plen ≡ mask_ones e.mask)
unfolding row_ok
row_ok_prefix e u r = ground arith
