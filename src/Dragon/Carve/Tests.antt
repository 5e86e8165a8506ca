-- ===== src/Dragon/Carve/Tests.antt =====
-- A carve of scripts/dragoncache_carve.cpp on small models.
use lina_cpx.Prelude.{◌≡◌, refl, true, false, [], ◌∷◌, none, some, ◌*◌, ◌≤◌, take}
use lina_cpx.Dragon.Map.{page_2m}
use lina_cpx.Dragon.Hub.{Os, detached, attach}
use lina_cpx.Dragon.Carve.{PoolFile, Held, PlaceAnswers, copied, place_model}
use lina_cpx.Dragon.Carve.Make.{
  Machine, CarveAnswers, do_carve, place_models, mount_hugetlbfs, is_mounted, fresh_pool,
}
use lina_cpx.Dragon.Carve.Check.{header_ok, check_gguf, do_verify, do_release}
use lina_cpx.Dragon.Carve.Laws.{IsFresh, gguf, readable, do_carve-attach, place_model_reports}

-- two reads bring the six bytes
abbrev small : PlaceAnswers
small = record {
  src_size = some 6;
  created = true;
  truncated = true;
  mapped = true;
  opened = true;
  src = gguf (3 ∷ 0 ∷ []);
  reads = 4 ∷ 9 ∷ [];
}

abbrev answers : CarveAnswers
answers = record {
  root = true;
  huge_pages = 2000;
  sysfs_opens = true;
  mounts = [];
  mounted = true;
  removed = true;
  created = true;
  truncated = true;
  mapped = true;
  qwen = small;
  mmproj = small;
  map_opens = true;
}

abbrev nothing_held : Held
nothing_held = record { fds = 0; maps = 0 }

abbrev bare : Machine
bare = record {
  pool = none;
  qwen = none;
  mmproj = none;
  address_map = none;
  nr_hugepages = none;
  held = nothing_held;
}

carve_done : (do_carve answers bare).0 ≡ 0
unfolding do_carve place_models place_model copied mount_hugetlbfs is_mounted
carve_done = refl

not_root : (do_carve (record answers { root = false }) bare).0 ≡ 1
unfolding do_carve
not_root = refl

verify_bare : do_verify readable bare ≡ 1
unfolding do_verify header_ok check_gguf
verify_bare = refl

abbrev os : Os
os = record { pool = fresh_pool.pool; open_fds = 0; mappings = 0 }

do_carve-attach_example :
    (f : PoolFile) × ((do_carve answers bare).1.pool ≡ some f)
    × IsFresh f
    × ((attach detached
          (record os { pool = f.pool })
          (record { st_size = some f.size; opened = some 3; mapped = true })).done
        ≡ true)
do_carve-attach_example = do_carve-attach answers bare os 3 carve_done

six : copied 6 (4 ∷ 9 ∷ []) 0 ≡ 6
unfolding copied
six = refl

small_placed : (place_model 1 small none nothing_held).done ≡ true
unfolding place_model
small_placed = refl

-- the first read fails, and the model is empty
place_model_reports_example :
    let p = place_model 1 (record small { reads = [] }) none nothing_held in
    let n = copied 6 [] 0 in
    (p.done ≡ true)
    × (p.file ≡ some (record { size = 1 * page_2m; bytes = take n small.src }))
    × (n ≤ 1 * page_2m)
place_model_reports_example = place_model_reports 1 small [] none nothing_held small_placed

release_all :
    (do_release
      (record {
        root = true;
        pool_goes = true;
        qwen_goes = true;
        mmproj_goes = true;
        mounts = [];
        unmounted = true;
        sysfs_opens = true;
        map_goes = true;
      })
      bare).0
    ≡ 0
unfolding do_release
release_all = refl
