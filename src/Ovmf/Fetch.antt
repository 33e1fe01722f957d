-- ===== src/Ovmf/Fetch.antt =====
-- How `download` of manager/src/ovmf.rs ends.
use mochivm.Prelude.{
  ◌≡◌, ◌≢◌, ◌⊎◌, inl, inr, refl, true, false, Option, none, some, List, ◌∷◌, String,
}
use Prim.Native.String.{◌++◌ as ◌<>◌}
use mochivm.Backend.{Result, fine, error, join}
use mochivm.Ovmf.{
  Event, create_dir, curl, tar, Status, not_found, exited, System, ovmf_url, find_file, Downloaded,
  with_vars, with_code, after_tar, after_curl, after_create_dir, download_in, download,
}

-- The commands of a download below `dir`, the newest first.
abbrev pub made : System → String → List Event → List Event
made s dir h = create_dir (join dir "ovmf") ∷ h

abbrev pub fetched : System → String → List Event → List Event
fetched s dir h = curl (join s.temp_dir "mochivm-ovmf-bin.tar.xz") ovmf_url ∷ made s dir h

abbrev pub unpacked : System → String → List Event → List Event
unpacked s dir h =
    tar (join s.temp_dir "mochivm-ovmf-bin.tar.xz") (join dir "ovmf") ∷ fetched s dir h

-- How `download` ends behind the trace `h`.
pub data Fetch (s : System) (h : List Event) : Downloaded → Type 0 where
  unknown : (e : String) → s.exe_dir ≡ error e → Fetch s h (error ("current_exe: " <> e), h)
  no_parent : s.exe_dir ≡ fine none → Fetch s h (error "no exe parent dir", h)
  no_directory :
      (dir e : String)
      → s.exe_dir ≡ fine (some dir)
      → s.create_dir (made s dir h) ≡ some e
      → Fetch s h (error ("mkdir: " <> e), made s dir h)
  not_fetched :
      (dir e : String)
      → s.exe_dir ≡ fine (some dir)
      → s.create_dir (made s dir h) ≡ none
      → s.command (fetched s dir h) ≢ exited true
      → Fetch s h (error e, fetched s dir h)
  not_unpacked :
      (dir e : String)
      → s.exe_dir ≡ fine (some dir)
      → s.create_dir (made s dir h) ≡ none
      → s.command (fetched s dir h) ≡ exited true
      → s.command (unpacked s dir h) ≢ exited true
      → Fetch s h (error e, unpacked s dir h)
  incomplete :
      (dir e : String)
      → s.exe_dir ≡ fine (some dir)
      → s.create_dir (made s dir h) ≡ none
      → s.command (fetched s dir h) ≡ exited true
      → s.command (unpacked s dir h) ≡ exited true
      → (find_file (join dir "ovmf") (s.tree (unpacked s dir h)) "code.fd" ≡ none)
        ⊎ (find_file (join dir "ovmf") (s.tree (unpacked s dir h)) "vars.fd" ≡ none)
      → Fetch s h (error e, unpacked s dir h)
  complete :
      (dir code vars : String)
      → s.exe_dir ≡ fine (some dir)
      → s.create_dir (made s dir h) ≡ none
      → s.command (fetched s dir h) ≡ exited true
      → s.command (unpacked s dir h) ≡ exited true
      → find_file (join dir "ovmf") (s.tree (unpacked s dir h)) "code.fd" ≡ some code
      → find_file (join dir "ovmf") (s.tree (unpacked s dir h)) "vars.fd" ≡ some vars
      → Fetch s h (fine (code, vars), unpacked s dir h)

module _ (s : System) (h : List Event) (dir : String) (known : s.exe_dir ≡ fine (some dir)) where
  found-Fetch :
      (c v : Option String)
      → s.create_dir (made s dir h) ≡ none
      → s.command (fetched s dir h) ≡ exited true
      → s.command (unpacked s dir h) ≡ exited true
      → find_file (join dir "ovmf") (s.tree (unpacked s dir h)) "code.fd" ≡ c
      → find_file (join dir "ovmf") (s.tree (unpacked s dir h)) "vars.fd" ≡ v
      → Fetch s h (with_code c v, unpacked s dir h)
  unfolding with_code with_vars
  found-Fetch none v m p q ec ev = incomplete dir _ known m p q (inl ec)
  found-Fetch (some c) none m p q ec ev = incomplete dir _ known m p q (inr ev)
  found-Fetch (some c) (some v) m p q ec ev = complete dir c v known m p q ec ev

  after_tar-Fetch :
      (r : Status)
      → s.create_dir (made s dir h) ≡ none
      → s.command (fetched s dir h) ≡ exited true
      → s.command (unpacked s dir h) ≡ r
      → Fetch s h (after_tar s (join dir "ovmf") r (unpacked s dir h))
  unfolding after_tar
  after_tar-Fetch (not_found e) m p q = not_unpacked dir _ known m p (λ t. cc)
  after_tar-Fetch (exited false) m p q = not_unpacked dir _ known m p (λ t. cc)
  after_tar-Fetch (exited true) m p q = found-Fetch _ _ m p q refl refl

  after_curl-Fetch :
      (r : Status)
      → s.create_dir (made s dir h) ≡ none
      → s.command (fetched s dir h) ≡ r
      → Fetch s h (
          after_curl s
            (join dir "ovmf")
            (join s.temp_dir "mochivm-ovmf-bin.tar.xz")
            r
            (fetched s dir h))
  unfolding after_curl
  after_curl-Fetch (not_found e) p q = not_fetched dir _ known p (λ t. cc)
  after_curl-Fetch (exited false) p q = not_fetched dir _ known p (λ t. cc)
  after_curl-Fetch (exited true) p q = after_tar-Fetch _ p q refl

  after_create_dir-Fetch :
      (r : Option String)
      → s.create_dir (made s dir h) ≡ r
      → Fetch s h (
          after_create_dir s
            (join dir "ovmf")
            (join s.temp_dir "mochivm-ovmf-bin.tar.xz")
            r
            (made s dir h))
  unfolding after_create_dir
  after_create_dir-Fetch (some e) p = no_directory dir e known p
  after_create_dir-Fetch none p = after_curl-Fetch _ p refl

download_in-Fetch :
    (s : System) (r : Result (Option String)) (h : List Event)
    → s.exe_dir ≡ r
    → Fetch s h (download_in s r h)
unfolding download_in
download_in-Fetch s (error e) h p = unknown e p
download_in-Fetch s (fine none) h p = no_parent p
download_in-Fetch s (fine (some dir)) h p = after_create_dir-Fetch s h dir p _ refl

-- Where the directory of the executable is not known, `download` asks the system for nothing and
-- returns an error. Else it makes the directory, runs curl and runs tar, in this order, and stops
-- with an error at the first of these that fails. It returns `Ok` just when all three succeeded and
-- both files are found below the directory, with the two paths that `find_file` gives; otherwise it
-- returns an error.
pub download-Fetch : (s : System) (h : List Event) → Fetch s h (download s h)
unfolding download
download-Fetch s h = download_in-Fetch s s.exe_dir h refl
