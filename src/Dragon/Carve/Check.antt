-- ===== src/Dragon/Carve/Check.antt =====
-- `check_gguf`, `do_verify`, `do_status` and `do_release` of scripts/dragoncache_carve.cpp. What they print is left out.
use lina_cpx.Prelude.{
  ℕ, ◌+◌, ◌*◌, ◌^◌, Bool, true, false, not, ◌&&◌, ◌||◌, List, Option, none, some, Bytes, codes,
  get_elem?, ltb, ◌==◌, if◌then◌else◌,
}
use lina_cpx.Dragon.Map.{total_pool_size, dragon_magic}
use lina_cpx.Dragon.Carve.{ModelFile, PoolFile}
use lina_cpx.Dragon.Carve.Make.{Machine, is_mounted}

abbrev pub gguf_magic : ℕ
gguf_magic = 0x46554747

abbrev pub size_of : Option ModelFile → ℕ
size_of none = 0
size_of (some f) = f.size

-- a byte of the file; those behind the copy are 0
abbrev pub byte_of : Bytes → ℕ → ℕ
byte_of bytes i = elim (get_elem? bytes i) [ none ↦ 0 | some b ↦ b ]

abbrev pub magic_of : Bytes → ℕ
magic_of bytes =
    byte_of bytes 0 + byte_of bytes 1 * 2 ^ 8 + byte_of bytes 2 * 2 ^ 16 + byte_of bytes 3 * 2 ^ 24

-- `opens` and `reads` are whether the file opens and its first four bytes are read, where it has them
unfoldable pub check_gguf : Option ModelFile → Bool → Bool → Bool
check_gguf none opens reads = false
check_gguf (some f) opens reads =
    if f.size == 0
    then false
    else if not opens
    then false
    else if not reads || ltb f.size 4
    then false
    else magic_of f.bytes == gguf_magic

abbrev pub pool_size_of : Option PoolFile → ℕ
pool_size_of none = 0
pool_size_of (some f) = f.size

pub record VerifyAnswers : Type 0 where
  pub pool_opens : Bool
  pub pool_maps : Bool
  pub qwen_opens : Bool
  pub qwen_reads : Bool
  pub mmproj_opens : Bool
  pub mmproj_reads : Bool

-- the header's part of the check
unfoldable pub header_ok : Option PoolFile → Bool → Bool → Bool
header_ok none opens maps = false
header_ok (some f) opens maps =
    if opens then (if maps then f.pool.header.magic == dragon_magic else true) else false

-- the exit code
unfoldable pub do_verify : VerifyAnswers → Machine → ℕ
unfolding header_ok check_gguf
do_verify a m =
    let all_ok =
      (pool_size_of m.pool == total_pool_size && header_ok m.pool a.pool_opens a.pool_maps)
      && (check_gguf m.qwen a.qwen_opens a.qwen_reads
          && check_gguf m.mmproj a.mmproj_opens a.mmproj_reads) in
    if all_ok then 0 else 1

pub record ReleaseAnswers : Type 0 where
  pub root : Bool
  -- whether each file can be removed, where it is there
  pub pool_goes : Bool
  pub qwen_goes : Bool
  pub mmproj_goes : Bool
  pub mounts : List Bytes
  pub unmounted : Bool
  pub sysfs_opens : Bool
  pub map_goes : Bool

abbrev removed : {A : Type 0} → Bool → Option A → Option A
removed true file = none
removed false file = file

-- The exit code. With hugetlbfs its files are out of reach.
unfoldable pub do_release : ReleaseAnswers → Machine → ℕ × Machine
do_release a m =
    let gone = is_mounted (codes "/mnt/huge") a.mounts && a.unmounted in
    if not a.root then (1, m) else (
      0,
      record m {
        pool = removed (a.pool_goes || gone) m.pool;
        qwen = removed (a.qwen_goes || gone) m.qwen;
        mmproj = removed (a.mmproj_goes || gone) m.mmproj;
        nr_hugepages = if a.sysfs_opens then some 0 else m.nr_hugepages;
        address_map = removed a.map_goes m.address_map;
      },
    )
