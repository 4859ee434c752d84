-- ===== src/Ip4Addr/Tests.antt =====
-- A concrete address.
use idem_ip.Base.{◌≡◌, ◌↔◌, ◌≤◌, ◌-◌, ◌^◌, arith, refl, true}
use idem_ip.Ip4Addr.{addr_type, addr_class, mask_ones, mask_contiguous}
use idem_ip.Ip4Addr.Mask.{mask_prefix}
use idem_ip.Ip4Addr.Ranges.{type_of_range, class_of_range, addr_type-ranges}

addr_type-ranges_example :
    (addr_type 0x7f00_0001 ≡ type_of_range 0x7f00_0001)
    × (addr_class 0x7f00_0001 ≡ class_of_range 0x7f00_0001)
addr_type-ranges_example = addr_type-ranges 0x7f00_0001 (omega arith)

-- 255.255.240.0 is a prefix of twenty ones.
twenty_ones : (mask_ones 0xffff_f000 ≡ 20) × (mask_contiguous 0xffff_f000 ≡ true)
unfolding mask_ones mask_contiguous
twenty_ones = (refl, refl)

mask_prefix_example :
    (mask_contiguous 0xffff_f000 ≡ true)
    ↔ ((mask_ones 0xffff_f000 ≤ 32) × (0xffff_f000 ≡ 2 ^ 32 - 2 ^ (32 - mask_ones 0xffff_f000)))
mask_prefix_example = mask_prefix 0xffff_f000 (omega arith)
