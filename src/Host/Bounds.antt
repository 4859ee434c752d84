-- ===== src/Host/Bounds.antt =====
-- A word of octets fits its width.
use idem_ip.Base.{ℕ, zero, suc, ◌+◌, ◌*◌, ◌^◌, ◌≤◌, ◌<◌, Bool, true, false, arith}
use native.Mathlib.Nat.{pow-suc, mul-le-mul_right, le-pred_of_lt}
use idem_ip.Endian.{Octets, octet}
use idem_ip.Endian.RoundTrip.{IsBytes}
use idem_ip.Host.{
  Width, bits16, bits32, bits64, word_octets, word_mod, little_word, big_word, load_word,
}

pub little_word-lt : (p : Octets) (n i : ℕ) → IsBytes p → little_word p i n < 256 ^ n
little_word-lt p zero i b = omega arith
little_word-lt p (suc n) i b = omega (arith, b i, little_word-lt p n (i + 1) b, pow-suc 256 n)

pub big_word-lt : (p : Octets) (n i : ℕ) → IsBytes p → big_word p i n < 256 ^ n
big_word-lt p zero i b = omega arith
big_word-lt p (suc n) i b =
    let top : octet p i * 256 ^ n ≤ 255 * 256 ^ n =
      mul-le-mul_right (256 ^ n) (le-pred_of_lt (b i)) in
    omega (arith, top, big_word-lt p n (i + 1) b, pow-suc 256 n)

pub load_word-lt :
    (little : Bool) (wd : Width) (p : Octets) (i : ℕ)
    → IsBytes p
    → load_word little wd p i < word_mod wd
load_word-lt true bits16 p i b = little_word-lt p 2 i b
load_word-lt true bits32 p i b = little_word-lt p 4 i b
load_word-lt true bits64 p i b = little_word-lt p 8 i b
load_word-lt false bits16 p i b = big_word-lt p 2 i b
load_word-lt false bits32 p i b = big_word-lt p 4 i b
load_word-lt false bits64 p i b = big_word-lt p 8 i b

pub word_octets-pos : (wd : Width) → 0 < word_octets wd
word_octets-pos bits16 = omega arith
word_octets-pos bits32 = omega arith
word_octets-pos bits64 = omega arith
