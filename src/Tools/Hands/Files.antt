-- ===== src/Tools/Hands/Files.antt =====
-- The file hands of src/tool_engine.cpp together: how much of what one writes the other reads.
use lina_cpx.Prelude.{
  ◌≡◌, ◌++◌, Option, take, length, inl, inr, refl, sym, ap, ◌∙◌, [], true, false, some,
  Option-cases, Bool-cases, Bytes, codes, arith, is_empty,
}
use lina_cpx.Prelude.Decimal.{to_string}
use lina_cpx.Tools.Json.{json_string}
use lina_cpx.Tools.Hands.{Disk, resolve_path, file_read, file_write}

-- What streams do on regular files.
pub record RegularFiles {W : Type 0} (disk : Disk W) : Type 0 where
  -- the bytes of a regular file; a device, a directory and a missing file have none
  pub contents : W → Bytes → Option Bytes
  -- opening with `trunc` empties the file
  pub on_open :
      (w w' : W) (path bytes : Bytes)
      → disk.open_out w path ≡ some w'
      → contents w' path ≡ some bytes
      → bytes ≡ []
  -- a write adds those first bytes that arrive, and makes no file a regular one
  pub on_put :
      (w : W) (path content after : Bytes)
      → contents (disk.put w path content).1 path ≡ some after
      → (before : Bytes) × (contents w path ≡ some before)
        × (after ≡ before ++ take (disk.put w path content).0 content)
  -- an input stream gives the bytes of the file
  pub on_read :
      (w : W) (path got bytes : Bytes)
      → disk.read w path ≡ some got
      → contents w path ≡ some bytes
      → got ≡ bytes

module _ {W : Type 0} (disk : Disk W) (workspace : Bytes) where
  abbrev pub path_of : Bytes → Bytes
  path_of args = resolve_path disk workspace (json_string args (codes "path"))

  -- What a successful write says of its path, of its own text and of the disk.
  abbrev HasWritten : W → Bytes → Type 0
  HasWritten w args =
      let path = path_of args in
      let content = json_string args (codes "content") in
      (is_empty (json_string args (codes "path")) ≡ false)
      × ((file_write disk workspace w args).0.output
          ≡ codes "wrote " ++ (to_string (length content) ++ (codes " bytes to " ++ path)))
      × ((w' : W) × (w0 : W) × (disk.open_out w' path ≡ some w0)
          × ((file_write disk workspace w args).1 ≡ (disk.put w0 path content).1))

  write_says :
      (w : W) (args : Bytes) → (file_write disk workspace w args).0.is_ok ≡ true → HasWritten w args
  unfolding file_write
  write_says w args =
      let raw_path = json_string args (codes "path") in
      let path = path_of args in
      elim (Bool-cases (is_empty raw_path)) [
        | inl e ↦ rw e (λ h. ground arith)
        | inr named ↦ elim (Option-cases (disk.create_directories w (disk.parent_path path)).0) [
          | inr (error, e) ↦ rw (named, e) (λ h. ground arith)
          | inl made ↦
              let w' = (disk.create_directories w (disk.parent_path path)).1 in
              elim (Option-cases (disk.open_out w' path)) [
                | inl e ↦ rw (named, made, e) (λ h. ground arith)
                | inr (w0, e) ↦ rw (named, made, e) (λ h. (refl, refl, (w', w0, e, refl)))
              ]
        ]
      ]

  -- What a successful read says of its path and of the disk.
  read_says :
      (w : W) (args : Bytes)
      → (file_read disk workspace w args).0.is_ok ≡ true
      → (disk.read w (path_of args) ≡ some (file_read disk workspace w args).0.output)
        × ((file_read disk workspace w args).1 ≡ w)
  unfolding file_read
  read_says w args =
      let raw_path = json_string args (codes "path") in
      let path = path_of args in
      elim (Bool-cases (is_empty raw_path)) [
        | inl e ↦ rw e (λ h. ground arith)
        | inr named ↦ elim (Bool-cases (disk.is_directory w path)) [
          | inl e ↦ rw (named, e) (λ h. ground arith)
          | inr file ↦ elim (Option-cases (disk.read w path)) [
            | inl e ↦ rw (named, file, e) (λ h. ground arith)
            | inr (content, e) ↦ rw (named, file, e) (λ h. (refl, refl))
          ]
        ]
      ]

  -- A write that reports success, after which its path is a regular file, and then a read of the
  -- same path that reports success: the write opened the path and reports as many bytes as the
  -- content has, the read gives those first bytes of the content that arrived, and leaves the disk
  -- alone. So the content comes back whole where all of it arrived, and the report does not depend
  -- on that.
  pub file_read-file_write :
      (files : RegularFiles disk) (w : W) (to_write to_read bytes : Bytes)
      → json_string to_read (codes "path") ≡ json_string to_write (codes "path")
      → (file_write disk workspace w to_write).0.is_ok ≡ true
      → let w' = (file_write disk workspace w to_write).1 in
        let path = path_of to_write in
        let content = json_string to_write (codes "content") in
        files.contents w' path ≡ some bytes
        → (file_read disk workspace w' to_read).0.is_ok ≡ true
        → ((file_write disk workspace w to_write).0.output
            ≡ codes "wrote " ++ (to_string (length content) ++ (codes " bytes to " ++ path)))
          × ((opened : W) × (w' ≡ (disk.put opened path content).1)
              × ((file_read disk workspace w' to_read).0.output
                  ≡ take (disk.put opened path content).0 content))
          × ((file_read disk workspace w' to_read).1 ≡ w')
  file_read-file_write files w to_write to_read bytes same ok regular ok' =
      let w' = (file_write disk workspace w to_write).1 in
      let path = path_of to_write in
      let content = json_string to_write (codes "content") in
      let (named, said, (w1, opened, opens, puts)) = write_says w to_write ok in
      let (got, alone) = read_says w' to_read ok' in
      let (before, was, after) =
        files.on_put opened path content bytes
          (ap (λ v. files.contents v path) (sym puts) ∙ regular) in
      let empty = files.on_open w1 opened path before opens was in
      let here : disk.read w' path ≡ some (file_read disk workspace w' to_read).0.output =
        ap (λ p. disk.read w' (resolve_path disk workspace p)) (sym same) ∙ got in
      (
        said,
        (
          opened,
          puts,
          files.on_read w' path _ bytes here regular
              ∙ (after ∙ ap (λ b. b ++ take (disk.put opened path content).0 content) empty),
        ),
        alone,
      )
