-- ===== src/Tools/Hands/Tests.antt =====
-- The file hands on a disk that holds one file and takes four bytes at a time.
use lina_cpx.Prelude.{
  ◌≡◌, ◌∙◌, inl, inr, refl, sym, subst, Bool-cases, take, length, arith, true, false, [], ◌++◌,
  Option, none, some, Bytes, codes, bytes_eq, bytes_eq_iff, if◌then◌else◌,
}
use mathlib.Core.Option.{some-injective}
use lina_cpx.Prelude.Decimal.{to_string}
use lina_cpx.Text.{find}
use lina_cpx.Tools.Json.{json_string, skip_spaces}
use lina_cpx.Tools.Hands.{Disk, resolve_path, file_read, file_write}
use lina_cpx.Tools.Hands.Files.{RegularFiles, path_of, file_read-file_write}

abbrev OneFile : Type 0
OneFile = Bytes × Bytes

abbrev one_file : Disk OneFile
one_file = record {
  is_absolute = λ path. true;
  join = λ a b. a ++ b;
  parent_path = λ path. [];
  is_directory = λ w path. false;
  read = λ w path. if bytes_eq w.0 path then some w.1 else none;
  open_out = λ w path. some (path, []);
  put = λ w path content. (4, (w.0, w.1 ++ take 4 content));
  create_directories = λ w path. (none, w);
  entries = λ w path. inr [];
}

-- A file that is not the one has no bytes.
abbrev bytes_at : OneFile → Bytes → Option Bytes
bytes_at w path = if bytes_eq w.0 path then some w.1 else none

opened : (old path bytes : Bytes) → bytes_at (path, []) path ≡ some bytes → bytes ≡ []
opened old path bytes = rw ((bytes_eq_iff path path).1 refl) (λ h. ground arith)

put_some :
    (w : OneFile) (path content after : Bytes)
    → bytes_at (w.0, w.1 ++ take 4 content) path ≡ some after
    → (before : Bytes) × (bytes_at w path ≡ some before) × (after ≡ before ++ take 4 content)
put_some w path content after = elim (Bool-cases (bytes_eq w.0 path)) [
  | inl e ↦ rw e (λ h. (w.1, refl, ground arith))
  | inr e ↦ rw e (λ h. ground arith)
]

one_file-RegularFiles : RegularFiles one_file
one_file-RegularFiles = record {
  contents = bytes_at;
  on_open = λ w w' path bytes e h.
      opened w.1 path bytes
        (subst (λ v. bytes_at v path ≡ some bytes) (sym (some-injective _ _ e)) h);
  on_put = put_some;
  on_read = λ w path got bytes e h. some-injective _ _ (sym e ∙ h);
}

abbrev note : Bytes
note = codes "{\"path\":\"/tmp/a\",\"content\":\"one\\ntwo\"}"

abbrev ask_back : Bytes
ask_back = codes "{\"path\":\"/tmp/a\"}"

-- four of the seven bytes arrive
file_read-file_write_example :
    let w' = (file_write one_file [] ([], []) note).1 in
    let path = path_of one_file [] note in
    let content = json_string note (codes "content") in
    ((file_write one_file [] ([], []) note).0.output
      ≡ codes "wrote " ++ (to_string (length content) ++ (codes " bytes to " ++ path)))
    × ((open' : OneFile) × (w' ≡ (one_file.put open' path content).1)
        × ((file_read one_file [] w' ask_back).0.output
            ≡ take (one_file.put open' path content).0 content))
    × ((file_read one_file [] w' ask_back).1 ≡ w')
unfolding json_string file_write file_read find skip_spaces one_file-RegularFiles bytes_eq
    resolve_path
file_read-file_write_example =
    file_read-file_write one_file [] one_file-RegularFiles ([], []) note ask_back (codes "one\n")
      refl refl refl refl
