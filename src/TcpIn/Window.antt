-- ===== src/TcpIn/Window.antt =====
-- The sequence space of src/tcp/tcp_in.c.
use idem_ip.Base.{
  ℕ, ◌+◌, ◌-◌, ◌^◌, ◌≤◌, ◌<◌, ◌≡◌, ◌∙◌, ap, ◌↔◌, true, false, sub32, u32, ltb, arith,
}
use idem_ip.Base.{Bool-cases, inl, inr}
use idem_ip.TcpIn.{seg_acceptable}

-- A number past another lies as much further from an edge, modulo the space.
pub sub32_add :
    (seq k edge : ℕ)
    → seq < 2 ^ 32
    → edge < 2 ^ 32
    → sub32 (u32 (seq + k)) edge ≡ u32 (sub32 seq edge + k)
sub32_add seq k edge s e = omega arith

last_octet : (seq len : ℕ) → 0 < len → sub32 (u32 (seq + len)) 1 ≡ u32 (seq + (len - 1))
last_octet seq len l = omega arith

-- Of a run of numbers from a distance on, the first or the last is below the bound when one is.
run_below :
    (d k len bound : ℕ)
    → d < 2 ^ 32
    → k < len
    → len ≤ bound
    → bound < 2 ^ 32
    → u32 (d + k) < bound
    → ltb d bound ≡ false
    → u32 (d + (len - 1)) < bound
run_below d k len bound a b c m h n = ground arith

-- For 32-bit numbers and a segment that is neither empty nor longer than the window, the test of
-- its first and last octets passes exactly when one of its octets lies in the window.
pub seg_acceptable_iff :
    (seq len rcv_nxt rcv_wnd : ℕ)
    → seq < 2 ^ 32
    → rcv_nxt < 2 ^ 32
    → 0 < len
    → len ≤ rcv_wnd
    → rcv_wnd < 2 ^ 32
    → (seg_acceptable seq len rcv_nxt rcv_wnd ≡ true)
      ↔ ((k : ℕ) × (k < len) × (sub32 (u32 (seq + k)) rcv_nxt < rcv_wnd))
unfolding seg_acceptable
seg_acceptable_iff seq len rcv_nxt rcv_wnd s r l w m =
    let d = sub32 seq rcv_nxt in
    let last : sub32 (sub32 (u32 (seq + len)) 1) rcv_nxt ≡ u32 (d + (len - 1)) =
      ap (λ (t : ℕ). sub32 t rcv_nxt) (last_octet seq len l)
      ∙ sub32_add seq (len - 1) rcv_nxt s r in
    let below : d < 2 ^ 32 = omega arith in
    (
      λ h. elim (Bool-cases (ltb d rcv_wnd)) [
        | inl c ↦
            let first : d < rcv_wnd = ground arith in
            (0, l, omega (arith, sub32_add seq 0 rcv_nxt s r, first))
        | inr c ↦
            let there : u32 (d + (len - 1)) < rcv_wnd = ground (arith, last) in
            (len - 1, omega arith, omega (arith, sub32_add seq (len - 1) rcv_nxt s r, there))
      ],
      λ p. elim (Bool-cases (ltb d rcv_wnd)) [
        | inl c ↦ ground arith
        | inr c ↦
            let there =
              run_below d (p.0) len rcv_wnd below p.1 w m
                (omega (arith, p.2, sub32_add seq (p.0) rcv_nxt s r)) c in
            ground (arith, there, last)
      ],
    )
