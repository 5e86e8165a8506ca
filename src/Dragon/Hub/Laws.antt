-- ===== src/Dragon/Hub/Laws.antt =====
-- What the hub of src/dragoncache.cpp keeps: its descriptor and mapping are never leaked, a foreign
-- pool is never touched, and each health bit is set and cleared alone.
use lina_cpx.Prelude.{
  ℕ, ◌+◌, ◌-◌, ◌≤◌, ◌<◌, ◌^◌, ◌≡◌, refl, Bool, true, false, not, Option, none, some, arith, List,
  ap, ◌∙◌,
}
use lina_cpx.Prelude.Bits.{digit, digit-bit_or, digit-bit_and, digit-complement, complement}
use Prim.Native.Nat.{min, max}
use lina_cpx.Dragon.Map.{
  dragon_magic, total_pool_size, addr_tx_ring, addr_rx_ring, tx_ring_size, rx_ring_size,
  header_size,
}
use lina_cpx.Dragon.Ring.Queue.{Frame, frame_len, enqueue, dequeue}
use lina_cpx.Dragon.Ring.Frames.{Holds}
use lina_cpx.Dragon.Ring.Push.{push_refines}
use lina_cpx.Dragon.Ring.Pop.{pop_refines}
use lina_cpx.Dragon.Hub.{
  Os, Answers, Hub, detached, attach, detach, spoke_ready, spoke_offline, spokes, clock, push_frame,
  pop_frame, ring_of,
}

-- what the hub holds open
abbrev held : Bool → ℕ
held true = 1
held false = 0

abbrev held_fd : Option ℕ → ℕ
held_fd none = 0
held_fd (some n) = 1

-- The hub holds a descriptor exactly when it holds a mapping, and nothing else is open.
pub record NoLeak (h : Hub) (os : Os) : Type 0 where
  pub paired : held_fd h.fd ≡ held h.base
  pub maps : os.mappings ≡ held h.base
  pub fds : os.open_fds ≡ held_fd h.fd
  pub ours : h.base ≡ true → os.pool.header.magic ≡ dragon_magic

-- Whatever the system answers, from a hub that leaks nothing: attach leaks neither a descriptor
-- nor a mapping, leaves the pool alone, and holds afterwards only a pool that has the magic
-- number.
pub attach-NoLeak :
    (h : Hub) (os : Os) (a : Answers)
    → NoLeak h os
    → let r = attach h os a in NoLeak r.hub r.os × (r.done ≡ r.hub.base) × (r.os.pool ≡ os.pool)
unfolding attach
attach-NoLeak h os a v = ground arith

-- From a hub that leaks nothing, detach gives the descriptor and the mapping back, forgets them,
-- and leaves the pool alone.
pub detach-NoLeak :
    (h : Hub) (os : Os)
    → NoLeak h os
    → let (h', os') = detach h os in
      (h' ≡ detached) × (os'.mappings ≡ 0) × (os'.open_fds ≡ 0) × (os'.pool ≡ os.pool)
unfolding detach
detach-NoLeak h os v = ground arith

-- On an attached hub whose clock does not wrap, spoke_ready sets exactly the health bits of its
-- 32-bit mask, and spoke_offline clears exactly those; each ticks the clock by one.
pub spoke_bits :
    (h : Hub) (os : Os) (bit k : ℕ)
    → h.base ≡ true
    → bit < 2 ^ 32
    → k < 32
    → os.pool.header.global_clock + 1 < 2 ^ 64
    → (digit k (spokes h (spoke_ready h os bit)) ≡ max (digit k (spokes h os)) (digit k bit))
      × (digit k (spokes h (spoke_offline h os bit))
          ≡ min (digit k (spokes h os)) (1 - digit k bit))
      × (clock h (spoke_ready h os bit) ≡ clock h os + 1)
      × (clock h (spoke_offline h os bit) ≡ clock h os + 1)
unfolding spokes spoke_ready spoke_offline clock
spoke_bits h os bit k on hb hk fits = rw on (
  digit-bit_or k os.pool.header.spoke_health bit,
  digit-bit_and k os.pool.header.spoke_health (complement 32 bit)
      ∙ ap (min (digit k os.pool.header.spoke_health)) (digit-complement 32 k bit hb hk),
  omega arith,
  omega arith,
)

-- On an attached hub whose named ring holds a queue, with a head that does not wrap: a frame goes
-- to the end of the queue, if there is room; the other ring and the header stay as they were.
pub push_frame_refines :
    (h : Hub) (os : Os) (tx : Bool) (q : List Frame) (f : Frame)
    → h.base ≡ true
    → Holds (ring_of tx os.pool) q
    → (ring_of tx os.pool).head + frame_len f < 2 ^ 64
    → let (done, os') = push_frame h os tx f.type f.bytes in
      (done ≡ (enqueue q f).0)
      × Holds (ring_of tx os'.pool) (enqueue q f).1
      × (ring_of (not tx) os'.pool ≡ ring_of (not tx) os.pool)
      × (os'.pool.header ≡ os.pool.header)
unfolding push_frame
push_frame_refines h os true q f on v fits =
    let (same, v') = push_refines os.pool.tx q f v fits in rw on (same, v', refl, refl)
push_frame_refines h os false q f on v fits =
    let (same, v') = push_refines os.pool.rx q f v fits in rw on (same, v', refl, refl)

-- On an attached hub whose named ring holds a queue: a pop takes the oldest frame of the queue;
-- the other ring and the header stay as they were.
pub pop_frame_refines :
    (h : Hub) (os : Os) (tx : Bool) (q : List Frame) (out : Option ℕ)
    → h.base ≡ true
    → Holds (ring_of tx os.pool) q
    → let (r, os') = pop_frame h os tx out in
      (r ≡ (dequeue q out).0)
      × Holds (ring_of tx os'.pool) (dequeue q out).1
      × (ring_of (not tx) os'.pool ≡ ring_of (not tx) os.pool)
      × (os'.pool.header ≡ os.pool.header)
unfolding pop_frame
pop_frame_refines h os true q out on v =
    let (same, v') = pop_refines os.pool.tx q out v in rw on (same, v', refl, refl)
pop_frame_refines h os false q out on v =
    let (same, v') = pop_refines os.pool.rx q out v in rw on (same, v', refl, refl)

-- The header and the two rings lie behind one another in the pool and do not overlap.
regions :
    (header_size ≤ addr_tx_ring)
    × (addr_tx_ring + tx_ring_size ≤ addr_rx_ring)
    × (addr_rx_ring + rx_ring_size ≤ total_pool_size)
regions = omega arith
