-- ===== src/Dragon/Carve.antt =====
-- scripts/dragoncache_carve.cpp: the pool and the models in their files, made, checked and removed. The answers
-- of the system's calls are arguments. What is printed, and the ownership and modes of the files, are left out.
pub mod Make
pub mod Check
pub mod Laws
mod Tests
use Prim.Native.Nat.{min}
use lina_cpx.Prelude.{
  ℕ, suc, ◌+◌, ◌-◌, ◌*◌, ◌/◌, ◌%◌, Bool, true, false, not, ◌&&◌, List, [], ◌∷◌, ◌++◌, Option, none,
  some, Bytes, codes, length, take, get_elem?, ltb, leb, ◌==◌, if◌then◌else◌,
}
use lina_cpx.Prelude.Decimal.{to_string}
use lina_cpx.Text.{find}
use lina_cpx.Dragon.Map.{
  page_2m, header_offset, header_size, module_offset, module_size, tx_ring_size, rx_ring_size,
  work_area_offset, work_area_size, total_pool_size, addr_tx_ring, addr_rx_ring, dragon_magic,
  DragonMap, dragonmap_set_live,
}
use lina_cpx.Dragon.Ring.{RingBuffer}
use lina_cpx.Dragon.Hub.{Pool}

abbrev pub model_qwen_pages : ℕ
model_qwen_pages = 607

abbrev pub model_mmproj_pages : ℕ
model_mmproj_pages = 635

abbrev pub total_carve_pages : ℕ
total_carve_pages = total_pool_size / page_2m + model_qwen_pages + model_mmproj_pages

abbrev pub headroom_pages : ℕ
headroom_pages = 96

abbrev pub status_booting : ℕ
status_booting = 3

abbrev pub addr_service_state : ℕ
addr_service_state = module_offset + 0x100

abbrev pub addr_value_state : ℕ
addr_value_state = module_offset + 0x300

abbrev pub addr_memory_state : ℕ
addr_memory_state = module_offset + 0x500

-- a file of the models: its size, and the bytes that were copied to its front; the others are 0
pub record ModelFile : Type 0 where
  pub size : ℕ
  pub bytes : Bytes

-- the file of the pool: its size, the bytes of the slots by their offset in the file, and the regions of the hub
pub record PoolFile : Type 0 where
  pub size : ℕ
  pub slots : ℕ → ℕ
  pub pool : Pool

-- what the process holds open
pub record Held : Type 0 where
  pub fds : ℕ
  pub maps : ℕ

-- `stat` of the source, whether the file is created, truncated and mapped and the source opened, the bytes of
-- the source, and how many of them each `fread` brings at most
pub record PlaceAnswers : Type 0 where
  pub src_size : Option ℕ
  pub created : Bool
  pub truncated : Bool
  pub mapped : Bool
  pub opened : Bool
  pub src : Bytes
  pub reads : List ℕ

-- `file_size`
abbrev pub file_size : Option ℕ → ℕ
file_size none = 0
file_size (some n) = n

-- the loop of the copy: the bytes written at its end, from those so far
unfoldable pub copied : ℕ → List ℕ → ℕ → ℕ
copied src_size [] written = written
copied src_size (r ∷ reads) written =
    let want = min page_2m (src_size - written) in
    let got = min r want in
    let rest = copied src_size reads (written + got) in
    if ltb written src_size then (if got == 0 then written else rest) else written

pub record Placed : Type 0 where
  pub done : Bool
  pub file : Option ModelFile
  pub held : Held

-- `place_model`; `old` is the file that was there
unfoldable pub place_model : ℕ → PlaceAnswers → Option ModelFile → Held → Placed
unfolding copied
place_model pages a old h =
    let placed = pages * page_2m in
    let src_size = file_size a.src_size in
    let with_fd = record h { fds = h.fds + 1 } in
    let with_map = record with_fd { maps = h.maps + 1 } in
    let without_map = record with_map { maps = with_map.maps - 1 } in
    if src_size == 0
    then record { done = false; file = old; held = h }
    else if ltb placed src_size
    then record { done = false; file = old; held = h }
    else if not a.created
    then record { done = false; file = none; held = h }
    else if not a.truncated
    then record {
      done = false;
      file = some (record { size = 0; bytes = [] });
      held = record with_fd { fds = with_fd.fds - 1 };
    }
    else if not a.mapped
    then record {
      done = false;
      file = some (record { size = placed; bytes = [] });
      held = record with_fd { fds = with_fd.fds - 1 };
    }
    else if not a.opened
    then record {
      done = false;
      file = some (record { size = placed; bytes = [] });
      held = record without_map { fds = without_map.fds - 1 };
    }
    else record {
      done = true;
      file = some (record { size = placed; bytes = take (copied src_size a.reads 0) a.src });
      held = record without_map { fds = without_map.fds - 1 };
    }
