-- ===== src/Span.antt =====
-- src/common.c: whether a span of octets is all zero, and whether two spans are the same, a machine
-- word at a time. Octets that a word load reaches past the span are masked away.
pub mod Words
pub mod Correct
mod Tests
use idem_ip.Base.{ℕ, zero, suc, ◌+◌, ◌-◌, ◌*◌, ◌/◌, ◌%◌, ◌^◌, Bool, true, false}
use idem_ip.Base.{bit_and, bit_or, bit_xor, leb, ◌==◌, if◌then◌else◌}
use idem_ip.Endian.{Octets, octet}
use idem_ip.Host.{Width, word_octets, word_mod, load_word}

-- The mask that keeps the first `n` octets of a word, `n` below the word's octets. The octets of
-- the tail are the low ones of the word on a little-endian host, and the high ones on a big-endian.
unfoldable pub tail_mask : Bool → Width → ℕ → ℕ
tail_mask true wd n = (2 ^ (8 * n) + word_mod wd - 1) % word_mod wd
tail_mask false wd n =
    let upper = 2 ^ (8 * (word_octets wd - n - 1)) * 256 % word_mod wd in
    word_mod wd - 1 - (upper + word_mod wd - 1) % word_mod wd

unfoldable pub tail : Bool → Width → Octets → ℕ → ℕ → ℕ
tail little wd p i n = bit_and (load_word little wd p i) (tail_mask little wd n)

module _ (little : Bool) (wd : Width) where
  -- The loops over whole words, with the rounds left; each returns its accumulator and its place.
  pub zero_loop : Octets → ℕ → ℕ → ℕ → ℕ → ℕ × ℕ
  zero_loop p n zero i any = (any, i)
  zero_loop p n (suc fuel) i any =
      let rest = zero_loop p n fuel (i + word_octets wd) (bit_or any (load_word little wd p i)) in
      if leb (i + word_octets wd) n then rest else (any, i)

  unfoldable pub eq_loop : Octets → Octets → ℕ → ℕ → ℕ → ℕ → ℕ × ℕ
  eq_loop p q n zero i diff = (diff, i)
  eq_loop p q n (suc fuel) i diff =
      let word = bit_xor (load_word little wd p i) (load_word little wd q i) in
      let rest = eq_loop p q n fuel (i + word_octets wd) (bit_or diff word) in
      if leb (i + word_octets wd) n then rest else (diff, i)

  -- `n` rounds are enough: each takes at least one octet.
  pub bytes_zero : Octets → ℕ → Bool
  bytes_zero p n =
      let (any, i) = zero_loop p n (n + 1) 0 0 in bit_or any (tail little wd p i (n - i)) == 0

  unfoldable pub bytes_eq : Octets → Octets → ℕ → Bool
  bytes_eq p q n =
      let (diff, i) = eq_loop p q n (n + 1) 0 0 in
      bit_or diff (bit_xor (tail little wd p i (n - i)) (tail little wd q i (n - i))) == 0
