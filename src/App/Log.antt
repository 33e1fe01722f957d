-- ===== src/App/Log.antt =====
-- The console's log in manager/src/main.rs and its cap.
use mochivm.Prelude.{
  ℕ, zero, suc, ◌+◌, ◌-◌, ◌<◌, ◌≤◌, ◌≡◌, ◌≢◌, refl, ◌∙◌, sym, ap, arith, true, false, Bool-cases,
  inl, inr, Option, none, some, List, [], ◌∷◌, ◌++◌, ltb, Outcome, ok, panic, ◌>>=◌, length,
  length-append, length-drop, drop,
}
use mochivm.Backend.{receive_all, drain_log}
use mochivm.Backend.Readers.{waiting}
use mochivm.App.{App, log_cap, continues, boundary, drain_front, trim, append_chunk, receive}

-- The bytes in front of the `n`th.
front : (n : ℕ) (l : List ℕ) → (p : List ℕ) × (l ≡ p ++ drop n l)
front zero l = ([], refl)
front (suc n) [] = ([], refl)
front (suc n) (x ∷ l) = let (p, e) = front n l in (x ∷ p, ap (λ t. x ∷ t) e)

drop-append : (p l : List ℕ) → drop (length p) (p ++ l) ≡ l
drop-append [] l = refl
drop-append (x ∷ p) l = drop-append p l

-- The channel with nothing in it, and the window with that channel.
abbrev pub empty_rx : Option (List (List ℕ)) → Option (List (List ℕ))
empty_rx none = none
empty_rx (some texts) = some []

abbrev pub emptied : App → App
emptied a = record a { backend = record a.backend { rx = empty_rx a.backend.rx } }

-- What `receive` makes of the window: `whole` is the log with the text that waited in the channel.
pub data Received (a : App) : Outcome App → Type 0 where
  unchanged : waiting a.backend.rx ≡ [] → Received a (ok (emptied a))
  fitting :
      (whole : List ℕ)
      → waiting a.backend.rx ≢ []
      → a.log ++ waiting a.backend.rx ≡ whole
      → length whole ≤ log_cap
      → Received a (ok (record (emptied a) { log = whole }))
  cut :
      (dropped kept : List ℕ)
      → waiting a.backend.rx ≢ []
      → a.log ++ waiting a.backend.rx ≡ dropped ++ kept
      → 0 < length dropped
      → length kept ≡ log_cap
      → boundary kept ≡ true
      → Received a (ok (record (emptied a) { log = kept }))
  inside :
      (dropped kept : List ℕ)
      → waiting a.backend.rx ≢ []
      → a.log ++ waiting a.backend.rx ≡ dropped ++ kept
      → 0 < length dropped
      → length kept ≡ log_cap
      → boundary kept ≡ false
      → Received a panic

abbrev keep_log : App → Outcome (List ℕ) → Outcome App
keep_log a r = r >>= λ l. ok (record a { log = l })

trim-Received :
    (a : App) (whole : List ℕ)
    → waiting a.backend.rx ≢ []
    → a.log ++ waiting a.backend.rx ≡ whole
    → Received a (keep_log (emptied a) (trim whole))
unfolding trim drain_front
trim-Received a whole ne w = elim (Bool-cases (ltb log_cap (length whole))) [
  | inl long ↦
      let n = length whole - log_cap in
      let (p, e) = front n whole in
      let kept : length (drop n whole) ≡ log_cap = ground (arith, length-drop {0} n whole) in
      let some_cut : 0 < length p =
        ground (arith, ap length e, length-append {0} p (drop n whole), kept) in
      elim (Bool-cases (boundary (drop n whole))) [
        | inl good ↦ rw (long, good) (cut p _ ne (w ∙ e) some_cut kept good)
        | inr bad ↦ rw (long, bad) (inside p _ ne (w ∙ e) some_cut kept bad)
      ]
  | inr short ↦ rw short (fitting whole ne w (ground arith))
]

append_chunk-Received :
    (a : App) (chunk : List ℕ)
    → waiting a.backend.rx ≡ chunk
    → Received a (append_chunk chunk (emptied a))
unfolding append_chunk
append_chunk-Received a [] e = unchanged e
append_chunk-Received a (c ∷ chunk) e =
    trim-Received a (a.log ++ c ∷ chunk) (λ z. let f = sym e ∙ z in cc) (ap (λ t. a.log ++ t) e)

waiting-receive_all : (rx : Option (List (List ℕ))) → waiting rx ≡ (receive_all rx).0
unfolding receive_all
waiting-receive_all none = refl
waiting-receive_all (some texts) = refl

receive_all-empty : (rx : Option (List (List ℕ))) → receive_all rx ≡ (waiting rx, empty_rx rx)
unfolding receive_all
receive_all-empty none = refl
receive_all-empty (some texts) = refl

-- At the start of a frame the channel is emptied, and the text that waited in it is put behind the
-- log. If there was any, the log is then cut in front to exactly 250000 bytes where it is longer, and
-- not at all where it is not; the frame panics just when that cut is inside a character. Nothing else
-- of the window is changed.
pub receive-Received : (a : App) → Received a (receive a)
unfolding receive drain_log
receive-Received a =
    rw (receive_all-empty a.backend.rx) (append_chunk-Received a (waiting a.backend.rx) refl)

append-panic :
    (a : App) (chunk p rest : List ℕ) (b : ℕ)
    → chunk ≢ []
    → a.log ++ chunk ≡ p ++ b ∷ rest
    → 0 < length p
    → length rest + 1 ≡ log_cap
    → continues b ≡ true
    → append_chunk chunk a ≡ panic
unfolding append_chunk trim drain_front
append-panic a [] p rest b ne e h k c = absurd (ne refl)
append-panic a (x ∷ chunk) p rest b ne e h k c =
    let whole = length-append {0} p (b ∷ rest) in
    let long : ltb log_cap (length (p ++ b ∷ rest)) ≡ true = ground (arith, whole, h, k) in
    let cut : length (p ++ b ∷ rest) - log_cap ≡ length p = omega (arith, whole, h, k) in
    rw (e, long, cut, drop-append p (b ∷ rest), c) refl

-- Whenever the log with the text received is longer than 250000 bytes and the byte at which it is to
-- be cut goes on with a character, the frame panics.
pub receive-panic :
    (a : App) (p rest : List ℕ) (b : ℕ)
    → waiting a.backend.rx ≢ []
    → a.log ++ waiting a.backend.rx ≡ p ++ b ∷ rest
    → 0 < length p
    → length rest + 1 ≡ log_cap
    → continues b ≡ true
    → receive a ≡ panic
unfolding receive drain_log
receive-panic a p rest b ne e h k c =
    append-panic (record a { backend = (drain_log a.backend).1 }) (receive_all a.backend.rx).0 p
      rest b (λ z. ne (waiting-receive_all a.backend.rx ∙ z))
      (ap (λ t. a.log ++ t) (sym (waiting-receive_all a.backend.rx)) ∙ e) h k c
