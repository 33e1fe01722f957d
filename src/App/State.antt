-- ===== src/App/State.antt =====
-- The state of the window of manager/src/main.rs, `run`, and what a frame does with the output that
-- has come.
use mochivm.Prelude.{
  ℕ, ◌-◌, Bool, true, not, ◌&&◌, Option, none, some, List, [], ◌∷◌, ◌++◌, String, leb, ltb,
  if◌then◌else◌, Outcome, ok, panic, ◌>>=◌, length, get_elem?, drop, bytes,
}
use Prim.Native.String.{◌++◌ as ◌<>◌}
use mochivm.Backend.{
  VmConfig, default_config, fine, error, System, Backend, Started, join, new, start, is_running,
  drain_log,
}
use mochivm.Ovmf
use mochivm.Ovmf.{Pair, detect, download}

abbrev pub log_cap : ℕ
log_cap = 250000

pub record App : Type 0 where
  pub vms : List VmConfig
  pub selected : ℕ
  pub backend : Backend
  pub log : List ℕ
  pub auto_scroll : Bool
  pub efi_path : String
  pub ovmf_code : String
  pub ovmf_vars : String
  pub status : String
  -- What manager/src/ovmf.rs asks of the system.
  pub firmware : Ovmf.System
  pub fetches : List Ovmf.Event

-- `exe_dir().join(name)`, where `exe_dir` is empty if it is not known.
abbrev pub beside : Option String → String → String
beside none name = name
beside (some dir) name = join dir name

abbrev pub detected : Option String → Option Pair → Pair
detected dir none = (beside dir "ovmf/x64/code.fd", beside dir "ovmf/x64/vars.fd")
detected dir (some p) = p

unfoldable pub new_app : System → Ovmf.System → App
new_app s f =
    let (code, vars) = detected s.exe_dir (detect f) in
    record {
      vms = default_config ∷ [];
      selected = 0;
      backend = new s (beside s.exe_dir "runtime");
      log = [];
      auto_scroll = true;
      efi_path = beside s.exe_dir "mochivm.efi";
      ovmf_code = code;
      ovmf_vars = vars;
      status = "idle";
      firmware = f;
      fetches = [];
    }

-- `run`, behind `start`.
unfoldable pub started : App → Started → App
started a (fine _, b) = record a { backend = b; status = "running"; log = bytes ">> vm started\n" }
started a (error e, b) = record a {
  backend = b;
  status = e;
  log = a.log ++ bytes (">> " <> (e <> "\n"));
}

unfoldable pub run_vm : VmConfig → App → Outcome App
run_vm cfg a = do
  r ← start cfg (record { efi = a.efi_path; code = a.ovmf_code; vars = a.ovmf_vars }) a.backend
  ok (started a r)

-- A byte that goes on with a character.
abbrev pub continues : ℕ → Bool
continues b = leb 0x80 b && ltb b 0xC0

-- `is_char_boundary` at the end of what was dropped.
abbrev pub boundary : List ℕ → Bool
boundary [] = true
boundary (b ∷ rest) = not (continues b)

-- `self.log.drain(..n)`, which panics inside a character.
unfoldable pub drain_front : ℕ → List ℕ → Outcome (List ℕ)
drain_front n l = if boundary (drop n l) then ok (drop n l) else panic

unfoldable pub trim : List ℕ → Outcome (List ℕ)
unfolding drain_front
trim l = if ltb log_cap (length l) then drain_front (length l - log_cap) l else ok l

-- `update` up to the side panel.
unfoldable pub append_chunk : List ℕ → App → Outcome App
append_chunk [] a = ok a
append_chunk (c ∷ chunk) a = do l ← trim (a.log ++ c ∷ chunk); ok (record a { log = l })

unfoldable pub receive : App → Outcome App
receive a = let (chunk, b) = drain_log a.backend in append_chunk chunk (record a { backend = b })

-- `v[i]`.
unfoldable pub index : List VmConfig → ℕ → Outcome VmConfig
index v i = elim (get_elem? v i) [ some x ↦ ok x | none ↦ panic ]

-- A call of `is_running` of which only the effect counts.
unfoldable pub poll : App → App
poll a = record a { backend = (is_running a.backend).1 }
