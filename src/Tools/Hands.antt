-- ===== src/Tools/Hands.antt =====
-- The hands of src/tool_engine.cpp that read, write and list files, over a file system of which only
-- the calls are known: each gives its result or the text of its error.
pub mod Files
pub mod Summary
mod Tests
use lina_cpx.Prelude.{
  ℕ, ◌+◌, ◌⊎◌, inl, inr, Bool, true, false, List, [], ◌∷◌, ◌++◌, Option, none, some, Bytes, codes,
  length, is_empty, if◌then◌else◌,
}
use lina_cpx.Prelude.Decimal.{to_string}
use lina_cpx.Tools.Json.{json_string}
use lina_cpx.Tools.Engine.{ToolResult, no_result, fails, Tool, truncate, summary_limit}

pub record Disk (W : Type 0) : Type 0 where
  pub is_absolute : Bytes → Bool
  -- `fs::path(a) / b`
  pub join : Bytes → Bytes → Bytes
  pub parent_path : Bytes → Bytes
  pub is_directory : W → Bytes → Bool
  -- `std::ifstream` and all that it reads
  pub read : W → Bytes → Option Bytes
  -- `std::ofstream` with `binary | trunc`
  pub open_out : W → Bytes → Option W
  -- `out << content` and `close` on what was just opened: how many bytes arrive, which the source
  -- does not ask
  pub put : W → Bytes → Bytes → ℕ × W
  -- the error, if there is one
  pub create_directories : W → Bytes → Option Bytes × W
  -- the entries of a directory, with whether each is one
  pub entries : W → Bytes → Bytes ⊎ List (Bool × Bytes)

-- the result of a tool that did what was asked
abbrev pub succeeds : Bytes → Bytes → ToolResult
succeeds output summary = record no_result { is_ok = true; output = output; summary = summary }

-- the lines of a listing
unfoldable pub entry_lines : List (Bool × Bytes) → Bytes
entry_lines [] = []
entry_lines ((is_dir, name) ∷ es) =
    (if is_dir then codes "[dir]  " else codes "[file] ") ++ (name ++ 10 ∷ entry_lines es)

module _ {W : Type 0} (disk : Disk W) (workspace : Bytes) where
  open disk use {
    is_absolute, join, parent_path, is_directory, read, open_out, put, create_directories, entries,
  }

  -- An absolute path stays as it is; others are in the workspace.
  unfoldable pub resolve_path : Bytes → Bytes
  resolve_path path =
      if is_empty path then workspace else if is_absolute path then path else join workspace path

  unfoldable pub workspace_status : W → Bytes → ToolResult × W
  unfolding to_string
  workspace_status w args =
      let (failed, w') = create_directories w workspace in
      elim failed [
        | some error ↦ (fails error, w')
        | none ↦ elim (entries w' workspace) [
          | inl error ↦ (fails error, w')
          | inr es ↦
              let output =
                codes "workspace: "
                ++ (workspace ++ 10 ∷ (codes "entries: " ++ to_string (length es))) in
              (succeeds output output, w')
        ]
      ]

  unfoldable pub file_read : W → Bytes → ToolResult × W
  file_read w args =
      let raw_path = json_string args (codes "path") in
      let path = resolve_path raw_path in
      if is_empty raw_path
      then (fails (codes "path is required"), w)
      else if is_directory w path
      then (fails (codes "is a directory: " ++ path), w)
      else elim (read w path) [
        | none ↦ (fails (codes "cannot open: " ++ path), w)
        | some content ↦ (succeeds content (truncate content summary_limit), w)
      ]

  unfoldable pub file_write : W → Bytes → ToolResult × W
  unfolding to_string
  file_write w args =
      let raw_path = json_string args (codes "path") in
      let path = resolve_path raw_path in
      let content = json_string args (codes "content") in
      let (failed, w') = create_directories w (parent_path path) in
      if is_empty raw_path then (fails (codes "path is required"), w) else elim failed [
        | some error ↦ (fails error, w')
        | none ↦ elim (open_out w' path) [
          | none ↦ (fails (codes "cannot write: " ++ path), w')
          | some w'' ↦
              let output =
                codes "wrote " ++ (to_string (length content) ++ (codes " bytes to " ++ path)) in
              (succeeds output output, (put w'' path content).1)
        ]
      ]

  unfoldable pub file_list : W → Bytes → ToolResult × W
  unfolding to_string
  file_list w args =
      let dir = resolve_path (json_string args (codes "path")) in
      elim (entries w dir) [
        | inl error ↦ (fails error, w)
        | inr es ↦
            let output =
              entry_lines es
              ++ (codes "("
                  ++ (to_string (length es) ++ (codes " entries in " ++ (dir ++ codes ")")))) in
            (succeeds output (truncate output summary_limit), w)
      ]

  abbrev pub file_read_tool : Tool W
  file_read_tool = record {
    name = codes "file.read";
    description = codes "Read a text file. args: {\"path\": \"<absolute or workspace-relative>\"}.";
    run = file_read;
  }

  abbrev pub file_write_tool : Tool W
  file_write_tool = record {
    name = codes "file.write";
    description =
        codes
          "Write text to a file (parent directories are created). args: {\"path\": \"...\", \"content\": \"...\"}.";
    run = file_write;
  }
