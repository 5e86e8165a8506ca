-- ===== src/Dragon/Carve/Laws.antt =====
-- What a carve of scripts/dragoncache_carve.cpp leaves behind.
use Prim.Native.Nat.{min}
use lina_cpx.Prelude.{
  ℕ, zero, suc, ◌+◌, ◌-◌, ◌*◌, ◌≤◌, ◌≡◌, refl, sym, ap, subst, ◌∙◌, true, none, if◌then◌else◌, List,
  [], ◌∷◌, Option, some, Bytes, take, ltb→le, arith,
}
use lina_cpx.Dragon.Map.{page_2m, total_pool_size, dragon_magic, status_live, dragonmap_set_live}
use lina_cpx.Dragon.Ring.Frames.{Holds}
use lina_cpx.Dragon.Hub.{Os, detached, attach}
use lina_cpx.Dragon.Carve.{
  model_qwen_pages, model_mmproj_pages, total_carve_pages, ModelFile, PoolFile, Held, PlaceAnswers,
  Placed, place_model, copied, file_size,
}
use lina_cpx.Dragon.Carve.Make.{
  Machine, write_address_map, reserve_pages, CarveAnswers, do_carve, place_models, carved,
  opened_pool, sized_pool, live, zero_regions, touch_pages, zero_ring,
}
use lina_cpx.Dragon.Carve.Check.{gguf_magic, magic_of, VerifyAnswers, header_ok, do_verify}

-- what a placed model is
pub record IsPlaced (pages : ℕ) (a : PlaceAnswers) (p : Placed) : Type 0 where
  pub file :
      p.file
      ≡ some (record {
        size = pages * page_2m;
        bytes = take (copied (file_size a.src_size) a.reads 0) a.src;
      })
  pub fits : file_size a.src_size ≤ pages * page_2m

-- Whatever the system answers, `place_model` gives back its descriptor and its mapping.
pub place_model_closes :
    (pages : ℕ) (a : PlaceAnswers) (old : Option ModelFile) (h : Held)
    → (place_model pages a old h).held ≡ h
unfolding place_model
place_model_closes pages a old h = ground arith

place_model-IsPlaced :
    (pages : ℕ) (a : PlaceAnswers) (old : Option ModelFile) (h : Held)
    → (place_model pages a old h).done ≡ true
    → IsPlaced pages a (place_model pages a old h)
unfolding place_model
place_model-IsPlaced pages a old h e = record {
  file = ground arith;
  fits = ground (arith, ltb→le (pages * page_2m) (file_size a.src_size));
}

-- what a carve with exit code 0 leaves
record Carved (a : CarveAnswers) (m : Machine) : Type 0 where
  pool : (f : PoolFile) × (m.pool ≡ some (carved (record f { size = total_pool_size })))
  qwen :
      m.qwen
      ≡ some (record {
        size = model_qwen_pages * page_2m;
        bytes = take (copied (file_size a.qwen.src_size) a.qwen.reads 0) a.qwen.src;
      })
  mmproj :
      m.mmproj
      ≡ some (record {
        size = model_mmproj_pages * page_2m;
        bytes = take (copied (file_size a.mmproj.src_size) a.mmproj.reads 0) a.mmproj.src;
      })

place_models-Carved :
    (a : CarveAnswers) (m : Machine) (f : PoolFile)
    → m.pool ≡ some (carved (record f { size = total_pool_size }))
    → (place_models a m).0 ≡ 0
    → Carved a (place_models a m).1
unfolding place_models write_address_map
place_models-Carved a m f e done =
    let q = place_model model_qwen_pages a.qwen m.qwen m.held in
    let p = place_model model_mmproj_pages a.mmproj m.mmproj q.held in
    let q_done : q.done ≡ true = ground arith in
    let p_done : p.done ≡ true = ground arith in
    let q_placed = place_model-IsPlaced model_qwen_pages a.qwen m.qwen m.held q_done in
    let p_placed = place_model-IsPlaced model_mmproj_pages a.mmproj m.mmproj q.held p_done in
    record { pool = (f, ground arith); qwen = ground arith; mmproj = ground arith }

abbrev left_pool : CarveAnswers → Machine → Option PoolFile
left_pool a m =
    if a.removed then none else (reserve_pages total_carve_pages a.huge_pages a.sysfs_opens m).pool

-- the machine before the models
abbrev with_pool : CarveAnswers → Machine → Machine
with_pool a m =
    let m1 = reserve_pages total_carve_pages a.huge_pages a.sysfs_opens m in
    record m1 {
      pool = some (carved (sized_pool (left_pool a m)));
      held = record { fds = m1.held.fds + 1; maps = m1.held.maps + 1 };
    }

do_carve_last :
    (a : CarveAnswers) (m : Machine)
    → (do_carve a m).0 ≡ 0
    → do_carve a m ≡ place_models a (with_pool a m)
unfolding do_carve
do_carve_last a m e = ground arith

do_carve-Carved :
    (a : CarveAnswers) (m : Machine) → (do_carve a m).0 ≡ 0 → Carved a (do_carve a m).1
do_carve-Carved a m e =
    let last = do_carve_last a m e in
    subst (λ (r : ℕ × Machine). Carved a r.1) (sym last)
      (place_models-Carved a (with_pool a m) (opened_pool (left_pool a m)) refl
        (ap (λ (r : ℕ × Machine). r.0) (sym last) ∙ e))

-- an empty pool, live, that any hub takes for its own
pub record IsFresh (f : PoolFile) : Type 0 where
  pub size : f.size ≡ total_pool_size
  pub ours : f.pool.header.magic ≡ dragon_magic
  pub status : f.pool.header.system_status ≡ status_live
  pub quiet : f.pool.header.spoke_health ≡ 0
  pub tx : Holds f.pool.tx []
  pub rx : Holds f.pool.rx []

carved-IsFresh : (f : PoolFile) → IsFresh (carved (record f { size = total_pool_size }))
unfolding carved live zero_regions touch_pages zero_ring dragonmap_set_live
carved-IsFresh f = record {
  size = refl;
  ours = refl;
  status = refl;
  quiet = refl;
  tx = omega arith;
  rx = omega arith;
}

-- The hub finds the pool of a carve with exit code 0: where the system opens and maps the file, `attach` takes
-- it. It is live, no spoke is in it, and its rings hold empty queues.
pub do_carve-attach :
    (a : CarveAnswers) (m : Machine) (os : Os) (fd : ℕ)
    → (do_carve a m).0 ≡ 0
    → (f : PoolFile) × ((do_carve a m).1.pool ≡ some f)
      × IsFresh f
      × ((attach detached
            (record os { pool = f.pool })
            (record { st_size = some f.size; opened = some fd; mapped = true })).done
          ≡ true)
unfolding attach
do_carve-attach a m os fd e =
    let done = do_carve-Carved a m e in
    let (f, there) = done.pool in
    let fresh = carved-IsFresh f in
    (carved (record f { size = total_pool_size }), there, fresh, ground arith)

-- the first four bytes of a model, "GGUF"
abbrev pub gguf : Bytes → Bytes
gguf rest = 0x47 ∷ 0x47 ∷ 0x55 ∷ 0x46 ∷ rest

magic-take : (rest : Bytes) (k : ℕ) → 4 ≤ k → magic_of (take k (gguf rest)) ≡ gguf_magic
magic-take rest (suc (suc (suc (suc k)))) le = refl
magic-take rest zero le = absurd (omega arith)
magic-take rest (suc zero) le = absurd (omega arith)
magic-take rest (suc (suc zero)) le = absurd (omega arith)
magic-take rest (suc (suc (suc zero))) le = absurd (omega arith)

magic_of-copy :
    (src rest : Bytes) (k : ℕ) → src ≡ gguf rest → 4 ≤ k → magic_of (take k src) ≡ gguf_magic
magic_of-copy src rest k e le = ap (λ s. magic_of (take k s)) e ∙ magic-take rest k le

abbrev pub readable : VerifyAnswers
readable = record {
  pool_opens = true;
  pool_maps = true;
  qwen_opens = true;
  qwen_reads = true;
  mmproj_opens = true;
  mmproj_reads = true;
}

-- After a carve with exit code 0 from two models that begin with "GGUF", of which four bytes at least came over:
-- where the files can be opened, mapped and read, the verification finds everything in order.
pub do_verify-do_carve :
    (a : CarveAnswers) (m : Machine) (qwen_rest mmproj_rest : Bytes)
    → (do_carve a m).0 ≡ 0
    → a.qwen.src ≡ gguf qwen_rest
    → a.mmproj.src ≡ gguf mmproj_rest
    → 4 ≤ copied (file_size a.qwen.src_size) a.qwen.reads 0
    → 4 ≤ copied (file_size a.mmproj.src_size) a.mmproj.reads 0
    → do_verify readable (do_carve a m).1 ≡ 0
unfolding do_verify header_ok
do_verify-do_carve a m qwen_rest mmproj_rest e q p qn pn =
    let done = do_carve-Carved a m e in
    let (f, there) = done.pool in
    let fresh = carved-IsFresh f in
    let q_magic =
      magic_of-copy a.qwen.src qwen_rest (copied (file_size a.qwen.src_size) a.qwen.reads 0) q qn in
    let p_magic =
      magic_of-copy a.mmproj.src mmproj_rest (copied (file_size a.mmproj.src_size) a.mmproj.reads 0)
        p pn in
    rw (there, done.qwen, done.mmproj, do_verify) (ground (arith, fresh.size, fresh.ours))

copied-le : (n : ℕ) (reads : List ℕ) (written : ℕ) → written ≤ n → copied n reads written ≤ n
unfolding copied
copied-le n [] written le = le
copied-le n (r ∷ reads) written le =
    let want = min page_2m (n - written) in
    let later = copied-le n reads (written + min r want) (omega arith) in ground arith

-- A model is placed whole or in part: where `place_model` returns true, it does so whatever the reads of the
-- source bring. The file then has its full size, with just the bytes that came at its front, and none is
-- written behind its end.
pub place_model_reports :
    (pages : ℕ) (a : PlaceAnswers) (reads : List ℕ) (old : Option ModelFile) (h : Held)
    → (place_model pages a old h).done ≡ true
    → let p = place_model pages (record a { reads = reads }) old h in
      let n = copied (file_size a.src_size) reads 0 in
      (p.done ≡ true)
      × (p.file ≡ some (record { size = pages * page_2m; bytes = take n a.src }))
      × (n ≤ pages * page_2m)
place_model_reports pages a reads old h e =
    let b = record a { reads = reads } in
    let done : (place_model pages b old h).done ≡ true = unfold place_model in ground arith in
    let placed = place_model-IsPlaced pages b old h done in
    (
      done,
      placed.file,
      omega (arith, placed.fits, copied-le (file_size a.src_size) reads 0 (omega arith)),
    )
