-- ===== src/Dragon/Map.antt =====
-- include/dragon_map.h: the layout of the pool and its heartbeat header. The loads and stores of
-- the header are atomic, so a history of them is a sequence of these functions.
use Prim.Native.Nat.{bit_and, bit_or}
use lina_cpx.Prelude.{ℕ, ◌+◌, ◌-◌, ◌*◌, ◌%◌, ◌^◌}
use lina_cpx.Prelude.Bits.{complement}

abbrev pub page_2m : ℕ
page_2m = 2 * 1024 * 1024

abbrev pub header_offset : ℕ
header_offset = 0

abbrev pub header_size : ℕ
header_size = 16 * 1024 * 1024

abbrev pub module_offset : ℕ
module_offset = header_offset + header_size

abbrev pub module_size : ℕ
module_size = 1024 * 1024 * 1024

abbrev pub module_slot_region_size : ℕ
module_slot_region_size = 512 * 1024

abbrev pub tx_ring_offset : ℕ
tx_ring_offset = module_slot_region_size

abbrev pub tx_ring_size : ℕ
tx_ring_size = 256 * 1024 * 1024

abbrev pub rx_ring_offset : ℕ
rx_ring_offset = tx_ring_offset + tx_ring_size

abbrev pub rx_ring_size : ℕ
rx_ring_size = 256 * 1024 * 1024

abbrev pub work_area_offset : ℕ
work_area_offset = rx_ring_offset + rx_ring_size

abbrev pub work_area_size : ℕ
work_area_size = module_size - work_area_offset

abbrev pub total_pool_size : ℕ
total_pool_size = 1040 * 1024 * 1024

abbrev pub addr_tx_ring : ℕ
addr_tx_ring = module_offset + tx_ring_offset

abbrev pub addr_rx_ring : ℕ
addr_rx_ring = module_offset + rx_ring_offset

abbrev pub status_offline : ℕ
status_offline = 0

abbrev pub status_live : ℕ
status_live = 1

abbrev pub dragon_magic : ℕ
dragon_magic = 0x4C494E4143415256

pub record DragonMap : Type 0 where
  pub global_clock : ℕ
  pub system_status : ℕ
  pub spoke_health : ℕ
  pub magic : ℕ

-- the constructor
pub dragon_map : DragonMap
dragon_map = record {
  global_clock = 0;
  system_status = status_offline;
  spoke_health = 0;
  magic = dragon_magic;
}

-- `global_clock.fetch_add(1)`
abbrev pub tick : DragonMap → DragonMap
tick m = record m { global_clock = (m.global_clock + 1) % 2 ^ 64 }

unfoldable pub dragonmap_set_live : DragonMap → DragonMap
dragonmap_set_live m = tick (record m { system_status = status_live })

unfoldable pub dragonmap_spoke_ready : DragonMap → ℕ → DragonMap
dragonmap_spoke_ready m spoke_bit =
    tick (record m { spoke_health = bit_or m.spoke_health spoke_bit })

unfoldable pub dragonmap_spoke_offline : DragonMap → ℕ → DragonMap
dragonmap_spoke_offline m spoke_bit =
    tick (record m { spoke_health = bit_and m.spoke_health (complement 32 spoke_bit) })

unfoldable pub dragonmap_clock : DragonMap → ℕ
dragonmap_clock m = m.global_clock

unfoldable pub dragonmap_spokes : DragonMap → ℕ
dragonmap_spokes m = m.spoke_health

unfoldable pub dragonmap_status : DragonMap → ℕ
dragonmap_status m = m.system_status
