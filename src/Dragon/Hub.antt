-- ===== src/Dragon/Hub.antt =====
-- src/dragoncache.cpp: the hub, one process's hold on the pool. `mutex_` makes each method atomic.
-- The operating system's part is the record `Os`: the pool in the file, shared with the other
-- processes, and how many descriptors and mappings this hub holds open.
pub mod Laws
mod Tests
use lina_cpx.Prelude.{
  ℕ, suc, ◌+◌, ◌-◌, ◌%◌, ◌^◌, Bool, true, false, not, Option, none, some, Bytes, ltb, ◌==◌,
  if◌then◌else◌,
}
use lina_cpx.Dragon.Map.{
  DragonMap, dragon_magic, status_offline, total_pool_size, tick, dragonmap_spoke_ready,
  dragonmap_spoke_offline, dragonmap_clock, dragonmap_status, dragonmap_spokes,
}
use lina_cpx.Dragon.Ring.{RingBuffer, Popped, ring_push, ring_pop}

-- The pool's three regions that the hub touches; they do not overlap (`Laws.regions`).
pub record Pool : Type 0 where
  pub header : DragonMap
  pub tx : RingBuffer
  pub rx : RingBuffer

pub record Os : Type 0 where
  pub pool : Pool
  pub open_fds : ℕ
  pub mappings : ℕ

-- what `stat`, `open` and `mmap` answer: the file's size if it is there, a descriptor if it opens,
-- whether it can be mapped
pub record Answers : Type 0 where
  pub st_size : Option ℕ
  pub opened : Option ℕ
  pub mapped : Bool

-- `base_`, `tx_` and `rx_` are set and cleared together: they point into the pool or are null.
pub record Hub : Type 0 where
  pub fd : Option ℕ
  pub base : Bool

abbrev pub detached : Hub
detached = record { fd = none; base = false }

pub record Attached : Type 0 where
  pub done : Bool
  pub hub : Hub
  pub os : Os

abbrev fails : Hub → Os → Attached
fails h os = record { done = false; hub = h; os = os }

-- from `mmap` on
map_pool : Hub → Os → Bool → ℕ → Attached
map_pool h os mapped fd =
    let opened = record os { open_fds = os.open_fds + 1 } in
    let held = record opened { mappings = os.mappings + 1 } in
    if not mapped
    then fails h (record opened { open_fds = opened.open_fds - 1 })
    else if not (os.pool.header.magic == dragon_magic)
    then fails h (record held { mappings = held.mappings - 1; open_fds = held.open_fds - 1 })
    else record { done = true; hub = record { fd = some fd; base = true }; os = held }

unfoldable pub attach : Hub → Os → Answers → Attached
unfolding map_pool
attach h os a = if h.base then record { done = true; hub = h; os = os } else elim a.st_size [
  | none ↦ fails h os
  | some size ↦
      if ltb size total_pool_size
      then fails h os
      else elim a.opened [ none ↦ fails h os | some fd ↦ map_pool h os a.mapped fd ]
]

abbrev is_some : Option ℕ → Bool
is_some none = false
is_some (some n) = true

unfoldable pub detach : Hub → Os → Hub × Os
detach h os = (
  detached,
  record os {
    mappings = if h.base then os.mappings - 1 else os.mappings;
    open_fds = if is_some h.fd then os.open_fds - 1 else os.open_fds;
  },
)

-- a method that does nothing on a detached hub
abbrev on_header : Hub → Os → (DragonMap → DragonMap) → Os
on_header h os f =
    if h.base then record os { pool = record (os.pool) { header = f os.pool.header } } else os

unfoldable pub set_status : Hub → Os → ℕ → Os
set_status h os status = on_header h os λ m. tick (record m { system_status = status })

unfoldable pub spoke_ready : Hub → Os → ℕ → Os
unfolding dragonmap_spoke_ready
spoke_ready h os bit = on_header h os λ m. dragonmap_spoke_ready m bit

unfoldable pub spoke_offline : Hub → Os → ℕ → Os
unfolding dragonmap_spoke_offline
spoke_offline h os bit = on_header h os λ m. dragonmap_spoke_offline m bit

unfoldable pub clock : Hub → Os → ℕ
unfolding dragonmap_clock
clock h os = if h.base then dragonmap_clock os.pool.header else 0

unfoldable pub status : Hub → Os → ℕ
unfolding dragonmap_status
status h os = if h.base then dragonmap_status os.pool.header else status_offline

unfoldable pub spokes : Hub → Os → ℕ
unfolding dragonmap_spokes
spokes h os = if h.base then dragonmap_spokes os.pool.header else 0

-- the ring that `tx` names, and the pool with that ring replaced
abbrev pub ring_of : Bool → Pool → RingBuffer
ring_of true p = p.tx
ring_of false p = p.rx

abbrev pub with_ring : Bool → Pool → RingBuffer → Pool
with_ring true p r = record p { tx = r }
with_ring false p r = record p { rx = r }

unfoldable pub push_frame : Hub → Os → Bool → ℕ → Bytes → Bool × Os
push_frame h os tx type bytes =
    let (done, ring) = ring_push (ring_of tx os.pool) type bytes in
    if h.base then (done, record os { pool = with_ring tx os.pool ring }) else (false, os)

unfoldable pub pop_frame : Hub → Os → Bool → Option ℕ → Option Popped × Os
pop_frame h os tx payload_out =
    let (out, ring) = ring_pop (ring_of tx os.pool) payload_out in
    if h.base then (out, record os { pool = with_ring tx os.pool ring }) else (none, os)
