-- ===== src/Checksum.antt =====
-- src/checksum.c: the Internet checksum, by octet pairs or a machine word at a time.
pub mod Reference
pub mod Words
pub mod Correct
pub mod Verify
mod Tests
use idem_ip.Base.{ℕ, zero, suc, ◌+◌, ◌-◌, ◌*◌, ◌/◌, ◌%◌, ◌^◌, Bool, true, false, bit_and, bit_or}
use idem_ip.Base.{u16, u32, ltb, leb, ◌==◌, if◌then◌else◌, ◌<<<◌, ◌>>>◌}
use idem_ip.Endian.{Octets, octet}
use idem_ip.Host.{Width, bits16, bits32, bits64, word_octets, word_mod, load_word}

-- IDEMIP_CKSUM_WORD and IDEMIP_CKSUM_WORD_SWAP. The build swaps on a little-endian host and does
-- not on a big-endian one, so the two word routes are the two byte orders.
pub data Route : Type 0 where
  by_pairs little_endian big_endian : Route

-- `acc += w; acc += (acc < w)` on the word's own width.
pub add_end_around : Width → ℕ → ℕ → ℕ
add_end_around wd acc w =
    let s = (acc + w) % word_mod wd in (s + (if ltb s w then 1 else 0)) % word_mod wd

abbrev pub fold64 : ℕ → ℕ
fold64 acc = (bit_and acc 0xffff_ffff + acc >>> 32) % 2 ^ 64

abbrev pub fold32 : ℕ → ℕ → ℕ
fold32 m acc = (bit_and acc 0xffff + acc >>> 16) % m

-- The last two steps, on `uint32_t`.
abbrev pub fold16 : ℕ → ℕ
fold16 acc =
    let s = u32 (u32 (bit_and acc 0xffff) + u32 (acc >>> 16)) in
    u16 (u32 (bit_and s 0xffff + s >>> 16))

pub fold_word : Width → ℕ → ℕ
fold_word bits16 acc = fold16 acc
fold_word bits32 acc = fold16 (fold32 (2 ^ 32) acc)
fold_word bits64 acc = fold16 (fold32 (2 ^ 64) (fold64 acc))

-- The do-while loop over whole words, with the rounds left; it returns `acc` and `i`.
pub word_loop : Bool → Width → Octets → ℕ → ℕ → ℕ → ℕ → ℕ × ℕ
word_loop little wd p len zero i acc = (acc, i)
word_loop little wd p len (suc fuel) i acc =
    let acc' = add_end_around wd acc (load_word little wd p i) in
    let i' = i + word_octets wd in
    let rest = word_loop little wd p len fuel i' acc' in
    if leb (i' + word_octets wd) len then rest else (acc', i')

-- `(folded << 8) | (folded >> 8)` on `uint16_t`.
abbrev pub swap_octets : ℕ → ℕ
swap_octets folded = u16 (bit_or (u16 (folded <<< 8)) (u16 (folded >>> 8)))

-- The folded sum in the order that the pair loop uses.
abbrev pub network_order : Bool → ℕ → ℕ
network_order true folded = swap_octets folded
network_order false folded = folded

-- The word path: the sum with the whole words carried in, and where it stopped.
pub word_path : Bool → Width → ℕ → Octets → ℕ → ℕ × ℕ
word_path little wd sum p len =
    if leb (word_octets wd) len
    then (let (acc, i) = word_loop little wd p len len 0 0 in
        (u32 (sum + network_order little (fold_word wd acc)), i))
    else (sum, 0)

-- The loop over octet pairs and the odd octet after it, with the rounds left.
pub pair_loop : Octets → ℕ → ℕ → ℕ → ℕ → ℕ
pair_loop p len zero i sum = sum
pair_loop p len (suc fuel) i sum =
    let rest =
      pair_loop p len fuel (i + 2) (u32 (sum + bit_or (octet p i <<< 8) (octet p (i + 1)))) in
    if ltb (i + 1) len then rest else if ltb i len then u32 (sum + octet p i <<< 8) else sum

-- The two end-around folds.
abbrev pub fold_carries : ℕ → ℕ
fold_carries sum =
    let s = u32 (bit_and sum 0xffff + sum >>> 16) in u32 (bit_and s 0xffff + s >>> 16)

-- Where the word path stops, and with which sum.
abbrev pub head_path : Route → Width → ℕ → Octets → ℕ → ℕ × ℕ
head_path by_pairs wd sum p len = (sum, 0)
head_path little_endian wd sum p len = word_path true wd sum p len
head_path big_endian wd sum p len = word_path false wd sum p len

pub accum : Route → Width → ℕ → Octets → ℕ → ℕ
accum route wd sum p len =
    let (s, i) = head_path route wd sum p len in fold_carries (pair_loop p len (len + 1) i s)

-- `~sum & 0xFFFF` on `uint32_t`.
pub final : ℕ → ℕ
final sum = u16 (bit_and (2 ^ 32 - 1 - fold_carries sum) 0xffff)

pub over : Route → Width → Octets → ℕ → ℕ
over route wd p len = final (accum route wd 0 p len)

pub valid : Route → Width → Octets → ℕ → Bool
valid route wd p len = over route wd p len == 0
