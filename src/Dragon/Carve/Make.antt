-- ===== src/Dragon/Carve/Make.antt =====
-- `do_carve` of scripts/dragoncache_carve.cpp: the huge pages, the pool with its header, slots and rings, the two
-- models, and the map of addresses.
use lina_cpx.Prelude.{
  ℕ, ◌+◌, ◌-◌, ◌/◌, ◌%◌, Bool, false, not, ◌&&◌, ◌||◌, List, [], ◌∷◌, ◌++◌, Option, none, some,
  Bytes, codes, ltb, leb, ◌==◌, if◌then◌else◌,
}
use lina_cpx.Prelude.Decimal.{to_string}
use lina_cpx.Browser.Handshake.{has}
use lina_cpx.Dragon.Map.{
  page_2m, header_offset, header_size, module_offset, module_size, tx_ring_size, rx_ring_size,
  work_area_offset, work_area_size, total_pool_size, addr_tx_ring, addr_rx_ring, dragon_magic,
  DragonMap, dragonmap_set_live,
}
use lina_cpx.Dragon.Ring.{RingBuffer}
use lina_cpx.Dragon.Carve.{
  model_qwen_pages, model_mmproj_pages, total_carve_pages, headroom_pages, status_booting,
  addr_service_state, addr_value_state, addr_memory_state, ModelFile, PoolFile, Held, PlaceAnswers,
  place_model,
}

-- the files, what was written last to `nr_hugepages`, and what the process holds
pub record Machine : Type 0 where
  pub pool : Option PoolFile
  pub qwen : Option ModelFile
  pub mmproj : Option ModelFile
  pub address_map : Option Bytes
  pub nr_hugepages : Option ℕ
  pub held : Held

-- `is_mounted`, over the lines of /proc/mounts
unfoldable pub is_mounted : Bytes → List Bytes → Bool
is_mounted path [] = false
is_mounted path (line ∷ lines) =
    has path line && has (codes "hugetlbfs") line || is_mounted path lines

-- `reserve_pages`; `current` is what `nr_hugepages` holds, `opens` whether it can be written
unfoldable pub reserve_pages : ℕ → ℕ → Bool → Machine → Machine
reserve_pages total_pages current opens m =
    let target = total_pages + headroom_pages in
    if ltb current target && opens then (record m { nr_hugepages = some target }) else m

unfoldable pub mount_hugetlbfs : List Bytes → Bool → Bool
mount_hugetlbfs mounts mounted = is_mounted (codes "/mnt/huge") mounts || mounted

abbrev pub fresh_ring : RingBuffer
fresh_ring = record { head = 0; tail = 0; payload = λ i. 0 }

-- what `ftruncate` makes of a new file
abbrev pub fresh_pool : PoolFile
fresh_pool = record {
  size = total_pool_size;
  slots = λ i. 0;
  pool = record {
    header = record { global_clock = 0; system_status = 0; spoke_health = 0; magic = 0 };
    tx = fresh_ring;
    rx = fresh_ring;
  };
}

-- what `open` gives: the file that is there, or a new one
abbrev pub opened_pool : Option PoolFile → PoolFile
opened_pool none = record fresh_pool { size = 0 }
opened_pool (some f) = f

-- what `ftruncate` makes of it; the bytes behind the size of a file are 0
abbrev pub sized_pool : Option PoolFile → PoolFile
sized_pool left = record (opened_pool left) { size = total_pool_size }

abbrev pub booting : DragonMap
booting = record {
  global_clock = 0;
  system_status = status_booting;
  spoke_health = 0;
  magic = dragon_magic;
}

-- one byte of each page is set to 0; the head and the tail of a ring do not stand at the start of a page
abbrev pub touch_ring : ℕ → RingBuffer → RingBuffer
touch_ring start r = record r {
  payload = λ i. if (start + 128 + i) % page_2m == 0 then 0 else r.payload i;
}

unfoldable pub touch_pages : PoolFile → PoolFile
touch_pages f = record f {
  slots = λ i. if i % page_2m == 0 then 0 else f.slots i;
  pool = record (f.pool) {
    header = record (f.pool.header) {
      global_clock = f.pool.header.global_clock - f.pool.header.global_clock % 256;
    };
    tx = touch_ring addr_tx_ring f.pool.tx;
    rx = touch_ring addr_rx_ring f.pool.rx;
  };
}

-- `zero_region` on a slot, and on the first page of a ring
unfoldable pub zero_slot : ℕ → ℕ → (ℕ → ℕ) → ℕ → ℕ
zero_slot offset size mem i = if leb offset i && ltb i (offset + size) then 0 else mem i

unfoldable pub zero_ring : RingBuffer → RingBuffer
zero_ring r = record {
  head = 0;
  tail = 0;
  payload = λ i. if ltb (128 + i) page_2m then 0 else r.payload i;
}

unfoldable pub zero_regions : PoolFile → PoolFile
unfolding zero_slot zero_ring
zero_regions f = record f {
  slots =
      zero_slot addr_memory_state 512
        (zero_slot addr_value_state 512 (zero_slot addr_service_state 512 f.slots));
  pool = record (f.pool) { tx = zero_ring f.pool.tx; rx = zero_ring f.pool.rx };
}

unfoldable pub live : PoolFile → PoolFile
unfolding dragonmap_set_live
live f = record f { pool = record (f.pool) { header = dragonmap_set_live f.pool.header } }

-- the pool's file from the header to `dragonmap_set_live`
unfoldable pub carved : PoolFile → PoolFile
unfolding live zero_regions touch_pages
carved f =
    live (zero_regions (touch_pages (record f { pool = record (f.pool) { header = booting } })))

abbrev entry : Bytes → ℕ → Bytes
entry key n = codes "DRAGONCACHE_" ++ (key ++ (codes "=" ++ (to_string n ++ codes "\n")))

abbrev entry_text : Bytes → Bytes → Bytes
entry_text key text = codes "DRAGONCACHE_" ++ (key ++ (codes "=" ++ (text ++ codes "\n")))

unfoldable pub joined_lines : List Bytes → Bytes
joined_lines [] = []
joined_lines (line ∷ lines) = line ++ joined_lines lines

unfoldable pub address_map_text : Bytes
unfolding to_string joined_lines
address_map_text = joined_lines (
    (codes "# DragonCache Address Map (v2 "
      ++ (0xe2 ∷ 0x80 ∷ 0x94 ∷ codes " LINA Core Substrate)\n"))
    ∷ codes "# Generated by dragoncache_carve on carve\n"
    ∷ (codes "# Pool: "
        ++ (to_string (total_pool_size / 1024 / 1024)
            ++ (codes " MiB ("
                ++ (to_string (total_pool_size / page_2m) ++ codes " huge pages)\n"))))
    ∷ entry (codes "POOL_SIZE") total_pool_size
    ∷ entry_text (codes "POOL_FILE") (codes "/mnt/huge/lina_pool")
    ∷ entry (codes "HEADER_OFFSET") header_offset
    ∷ entry (codes "HEADER_SIZE") header_size
    ∷ entry (codes "MODULE_OFFSET") module_offset
    ∷ entry (codes "MODULE_SIZE") module_size
    ∷ entry (codes "SLOT_SERVICE_STATE") addr_service_state
    ∷ entry (codes "SLOT_VALUE_STATE") addr_value_state
    ∷ entry (codes "SLOT_MEMORY_STATE") addr_memory_state
    ∷ entry (codes "TX_RING_OFFSET") addr_tx_ring
    ∷ entry (codes "TX_RING_SIZE") tx_ring_size
    ∷ entry (codes "RX_RING_OFFSET") addr_rx_ring
    ∷ entry (codes "RX_RING_SIZE") rx_ring_size
    ∷ entry (codes "WORK_AREA_OFFSET") (module_offset + work_area_offset)
    ∷ entry (codes "WORK_AREA_SIZE") work_area_size
    ∷ entry_text (codes "MODEL_QWEN") (codes "/mnt/huge/lina_model.gguf")
    ∷ entry_text (codes "MODEL_MMPROJ") (codes "/mnt/huge/lina_mmproj.gguf")
    ∷ entry (codes "TOTAL_CARVE_PAGES") total_carve_pages
    ∷ [])

unfoldable pub write_address_map : Bool → Machine → Machine
write_address_map opens m = if opens then (record m { address_map = some address_map_text }) else m

pub record CarveAnswers : Type 0 where
  pub root : Bool
  pub huge_pages : ℕ
  pub sysfs_opens : Bool
  pub mounts : List Bytes
  pub mounted : Bool
  -- whether `unlink` takes away the pool that is there
  pub removed : Bool
  pub created : Bool
  pub truncated : Bool
  pub mapped : Bool
  pub qwen : PlaceAnswers
  pub mmproj : PlaceAnswers
  pub map_opens : Bool

-- from the models on
unfoldable pub place_models : CarveAnswers → Machine → ℕ × Machine
unfolding place_model write_address_map
place_models a m =
    let q = place_model model_qwen_pages a.qwen m.qwen m.held in
    let m1 = record m { qwen = q.file; held = q.held } in
    let p = place_model model_mmproj_pages a.mmproj m1.mmproj m1.held in
    let m2 = record m1 { mmproj = p.file; held = p.held } in
    if not q.done
    then (1, m1)
    else if not p.done
    then (1, m2)
    else (0, write_address_map a.map_opens m2)

-- The exit code. The descriptor and the mapping of the pool are left to the end of the process.
unfoldable pub do_carve : CarveAnswers → Machine → ℕ × Machine
unfolding carved place_models reserve_pages mount_hugetlbfs
do_carve a m =
    let m1 = reserve_pages total_carve_pages a.huge_pages a.sysfs_opens m in
    let h = m1.held in
    let left = if a.removed then none else m1.pool in
    if not a.root
    then (1, m)
    else if not (mount_hugetlbfs a.mounts a.mounted)
    then (1, m1)
    else if not a.created
    then (1, record m1 { pool = left })
    else if not a.truncated
    then (1, record m1 { pool = some (opened_pool left) })
    else if not a.mapped
    then (1, record m1 { pool = some (sized_pool left) })
    else place_models a (record m1 {
      pool = some (carved (sized_pool left));
      held = record { fds = h.fds + 1; maps = h.maps + 1 };
    })
