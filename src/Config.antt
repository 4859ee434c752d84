-- ===== src/Config.antt =====
-- src/idemip_config.h: the status that an entry reports, and the counts that the modules share, at
-- the values that the header prints.
use idem_ip.Base.{ℕ}

-- `IdemIpStatus`
pub data Status : Type 0 where
  ok busy err : Status

abbrev pub acd_probe_wait_ms : ℕ
acd_probe_wait_ms = 1000

abbrev pub acd_probe_num : ℕ
acd_probe_num = 3

abbrev pub acd_probe_min_ms : ℕ
acd_probe_min_ms = 1000

abbrev pub acd_probe_max_ms : ℕ
acd_probe_max_ms = 2000

abbrev pub acd_announce_wait_ms : ℕ
acd_announce_wait_ms = 2000

abbrev pub acd_announce_num : ℕ
acd_announce_num = 2

abbrev pub acd_announce_interval_ms : ℕ
acd_announce_interval_ms = 2000

abbrev pub acd_max_conflicts : ℕ
acd_max_conflicts = 10

abbrev pub acd_rate_limit_interval_ms : ℕ
acd_rate_limit_interval_ms = 60000

abbrev pub acd_defend_interval_ms : ℕ
acd_defend_interval_ms = 10000

abbrev pub autoip_prefix : ℕ
autoip_prefix = 0xa9fe_0000

abbrev pub autoip_first : ℕ
autoip_first = 0xa9fe_0100

abbrev pub autoip_last : ℕ
autoip_last = 0xa9fe_feff

abbrev pub autoip_netmask : ℕ
autoip_netmask = 0xffff_0000
