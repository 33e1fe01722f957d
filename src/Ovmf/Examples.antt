-- ===== src/Ovmf/Examples.antt =====
-- The firmware files of manager/src/ovmf.rs on a system that has them.
use mochivm.Prelude.{◌≡◌, refl, true, false, String, none, some, []}
use mochivm.Backend.{fine}
use mochivm.Ovmf.{
  file, directory, Listing, end, entry, System, exited, find_file, detect, candidates, download,
}
use mochivm.Ovmf.Search.{
  all_files, readable, first, Among, find_file-first, find_file-Among, detect-exists,
}
use mochivm.Ovmf.Fetch.{Fetch, download-Fetch}

-- The files stand in a directory of the release, behind another one.
abbrev release : Listing
release = entry (directory "docs" (entry (file (some "README")) end)) (
    entry
      (directory "edk2-stable" (entry (file (some "vars.fd")) (entry (file (some "code.fd")) end)))
      end)

abbrev pub linux : System
linux = record {
  windows = false;
  exe_dir = fine (some "/opt/mochivm");
  temp_dir = "/tmp";
  exists = λ p. true;
  create_dir = λ h. none;
  command = λ h. exited true;
  tree = λ h. release;
}

found : find_file "/ovmf" release "code.fd" ≡ some "/ovmf/edk2-stable/code.fd"
unfolding find_file
found = refl

find_file-first_example :
    find_file "/ovmf" release "code.fd" ≡ first (all_files "/ovmf" release "code.fd")
unfolding readable
find_file-first_example = find_file-first "/ovmf" release "code.fd" refl

find_file-Among_example : Among "/ovmf/edk2-stable/code.fd" (all_files "/ovmf" release "code.fd")
find_file-Among_example =
    find_file-Among "/ovmf" release "code.fd" "/ovmf/edk2-stable/code.fd" found

detect-exists_example :
    (linux.exists "/usr/share/OVMF/OVMF_CODE_4M.fd" ≡ true)
    × (linux.exists "/usr/share/OVMF/OVMF_VARS_4M.fd" ≡ true)
    × (dir : String) × (linux.exe_dir ≡ fine (some dir))
unfolding detect candidates
detect-exists_example =
    detect-exists linux "/usr/share/OVMF/OVMF_CODE_4M.fd" "/usr/share/OVMF/OVMF_VARS_4M.fd" refl

download-Fetch_example : Fetch linux [] (download linux [])
download-Fetch_example = download-Fetch linux []
