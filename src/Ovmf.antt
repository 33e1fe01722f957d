-- ===== src/Ovmf.antt =====
-- The search for the firmware and its download, manager/src/ovmf.rs. A path is its text, with `/`
-- between the components; commands and files are asked for as events on a trace.
pub mod Search
pub mod Fetch
pub mod Examples
use mochivm.Prelude.{
  Bool, true, false, ◌&&◌, Option, none, some, List, [], ◌∷◌, String, if◌then◌else◌, find?,
}
use mochivm.Backend.{Result, fine, error, join}
use Prim.Native.String.{◌++◌}
use text.Mathlib.Text.{◌==◌}

-- What `read_dir` lists below a directory: `unreadable` is an error of `read_dir`, `broken` one of
-- an entry. A name that is no UTF-8 is `none`.
mutual
  pub data Node : Type 0 where
    file : Option String → Node
    directory : String → Listing → Node

  pub data Listing : Type 0 where
    unreadable : Listing
    end : Listing
    broken : Listing → Listing
    entry : Node → Listing → Listing

abbrev pub has_name : Option String → String → Bool
has_name none name = false
has_name (some n) name = n == name

-- The path of an entry that has the name that is looked for.
unfoldable mutual
  pub find_file : String → Listing → String → Option String
  find_file root unreadable name = none
  find_file root end name = none
  find_file root (broken rest) name = none
  find_file root (entry n rest) name = elim (find_entry root n name) [
    | some path ↦ some path
    | none ↦ find_file root rest name
  ]

  pub find_entry : String → Node → String → Option String
  find_entry root (file n) name = if has_name n name then some (join root name) else none
  find_entry root (directory d l) name = find_file (join root d) l name

pub data Event : Type 0 where
  create_dir : (path : String) → Event
  curl : (to url : String) → Event
  tar : (archive to : String) → Event

-- A command could not be started, or its status says whether it succeeded.
pub data Status : Type 0 where
  not_found : String → Status
  exited : (success : Bool) → Status

pub record System : Type 0 where
  pub windows : Bool
  -- `current_exe`, and its parent.
  pub exe_dir : Result (Option String)
  pub temp_dir : String
  pub exists : String → Bool
  pub create_dir : List Event → Option String
  pub command : List Event → Status
  -- The tree below the directory of the firmware.
  pub tree : List Event → Listing

abbrev pub Pair : Type 0
Pair = String × String

abbrev pub both_exist : (String → Bool) → Pair → Bool
both_exist exists (c, v) = exists c && exists v

unfoldable pub candidates : Bool → String → List Pair
candidates true exe_dir = (join exe_dir "ovmf/x64/code.fd", join exe_dir "ovmf/x64/vars.fd") ∷ []
candidates false exe_dir =
    ("/usr/share/OVMF/OVMF_CODE_4M.fd", "/usr/share/OVMF/OVMF_VARS_4M.fd")
    ∷ ("/usr/share/OVMF/OVMF_CODE.fd", "/usr/share/OVMF/OVMF_VARS.fd")
    ∷ []

-- The two `?` of `detect`.
unfoldable pub detect_in : System → Result (Option String) → Option Pair
detect_in s (error e) = none
detect_in s (fine none) = none
detect_in s (fine (some dir)) = find? (both_exist s.exists) (candidates s.windows dir)

unfoldable pub detect : System → Option Pair
unfolding detect_in
detect s = detect_in s s.exe_dir

abbrev pub ovmf_url : String
ovmf_url =
    "https://github.com/rust-osdev/ovmf-prebuilt/releases/download/edk2-stable202605-r1/edk2-stable202605-r1-bin.tar.xz"

-- The result of `download`, and the trace behind it.
abbrev pub Downloaded : Type 0
Downloaded = Result Pair × List Event

-- `ok_or(...)?` on the second file, and on the first.
unfoldable pub with_vars : String → Option String → Result Pair
with_vars code none = error "vars.fd not in archive"
with_vars code (some vars) = fine (code, vars)

unfoldable pub with_code : Option String → Option String → Result Pair
with_code none vars = error "code.fd not in archive"
with_code (some code) vars = with_vars code vars

unfoldable pub after_tar : System → String → Status → List Event → Downloaded
after_tar s target (not_found e) h = (error ("tar not found: " ++ e), h)
after_tar s target (exited false) h = (error "tar extract failed", h)
after_tar s target (exited true) h =
    (with_code (find_file target (s.tree h) "code.fd") (find_file target (s.tree h) "vars.fd"), h)

unfoldable pub after_curl : System → (target tmp : String) → Status → List Event → Downloaded
after_curl s target tmp (not_found e) h = (error ("curl not found: " ++ e), h)
after_curl s target tmp (exited false) h = (error "curl download failed", h)
after_curl s target tmp (exited true) h =
    let h = tar tmp target ∷ h in after_tar s target (s.command h) h

unfoldable pub after_create_dir :
    System → (target tmp : String) → Option String → List Event → Downloaded
after_create_dir s target tmp (some e) h = (error ("mkdir: " ++ e), h)
after_create_dir s target tmp none h =
    let h = curl tmp ovmf_url ∷ h in after_curl s target tmp (s.command h) h

unfoldable pub download_in : System → Result (Option String) → List Event → Downloaded
download_in s (error e) h = (error ("current_exe: " ++ e), h)
download_in s (fine none) h = (error "no exe parent dir", h)
download_in s (fine (some dir)) h =
    let target = join dir "ovmf" in
    let tmp = join s.temp_dir "mochivm-ovmf-bin.tar.xz" in
    let h = create_dir target ∷ h in after_create_dir s target tmp (s.create_dir h) h

unfoldable pub download : System → List Event → Downloaded
download s h = download_in s s.exe_dir h
