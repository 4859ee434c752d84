-- ===== src/Span/Tests.antt =====
-- Comparisons of concrete spans.
use idem_ip.Base.{ℕ, ◌<◌, ◌≡◌, ◌↔◌, true, [], ◌∷◌, refl}
use idem_ip.Endian.{Octets, octet}
use idem_ip.Endian.RoundTrip.{IsBytes, are_bytes, are_bytes_sound}
use idem_ip.Host.{bits32}
use idem_ip.Span.{bytes_eq, bytes_zero}
use idem_ip.Span.Correct.{bytes_eq_iff, bytes_zero_iff}

abbrev one : Octets
one = 1 ∷ 2 ∷ 3 ∷ 4 ∷ 5 ∷ 6 ∷ 7 ∷ []

abbrev other : Octets
other = 1 ∷ 2 ∷ 3 ∷ 4 ∷ 5 ∷ 6 ∷ 200 ∷ []

are_ok : IsBytes one × IsBytes other
unfolding are_bytes
are_ok = (are_bytes_sound one refl, are_bytes_sound other refl)

bytes_eq_iff_example :
    (bytes_eq true bits32 one other 6 ≡ true) ↔ ((j : ℕ) → j < 6 → octet one j ≡ octet other j)
bytes_eq_iff_example = bytes_eq_iff true bits32 one other 6 are_ok.0 are_ok.1

bytes_zero_iff_run : (bytes_zero true bits32 one 5 ≡ true) ↔ ((j : ℕ) → j < 5 → octet one j ≡ 0)
bytes_zero_iff_run = bytes_zero_iff true bits32 one 5 are_ok.0
