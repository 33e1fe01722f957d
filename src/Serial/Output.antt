-- ===== src/Serial/Output.antt =====
-- What reaches COM1 from src/serial.rs: the bytes in order, each behind a poll that found the
-- transmitter empty.
use mochivm.Prelude.{
  ℕ, zero, suc, ◌+◌, ◌≤◌, ◌<◌, ◌≡◌, refl, ◌∙◌, sym, ap, subst, arith, bit_and, Bool, true, false,
  not, ◌&&◌, List, [], ◌∷◌, ◌++◌, ◌==◌, if◌then◌else◌, Bool-cases, ==-eq, inl, inr, Outcome, ok,
  ◌>>=◌, pushed, pushed-append,
}
use mochivm.Serial.{
  com1, Access, read, written, Device, inb, outb, wait, put_char_raw, put_char, write, write_pieces,
  serial_println,
}

-- The bytes written to COM1, the newest first.
unfoldable pub sent : List Access → List ℕ
sent [] = []
sent (read p ∷ h) = sent h
sent (written p v ∷ h) = let rest = sent h in if p == com1 then v ∷ rest else rest

-- Whether the newest access is a poll of the line status that found the transmitter empty.
unfoldable pub polled_empty : (List Access → ℕ) → List Access → Bool
polled_empty answer [] = false
polled_empty answer (read p ∷ h) = p == com1 + 5 && not (bit_and (answer (read p ∷ h)) 0x20 == 0)
polled_empty answer (written p v ∷ h) = false

-- The accesses from `old` on are polls of the line status, and bytes written to COM1, each right
-- behind a poll that found the transmitter empty.
pub data Paced (answer : List Access → ℕ) (old : List Access) : List Access → Type 0 where
  start : Paced answer old old
  poll : (h : List Access) → Paced answer old h → Paced answer old (read (com1 + 5) ∷ h)
  put :
      (v : ℕ) (h : List Access)
      → polled_empty answer h ≡ true
      → Paced answer old h
      → Paced answer old (written com1 v ∷ h)

Paced-trans :
    {answer : List Access → ℕ} {a b c : List Access}
    → Paced answer a b
    → Paced answer b c
    → Paced answer a c
Paced-trans p start = p
Paced-trans p (poll h q) = poll h (Paced-trans p q)
Paced-trans p (put v h e q) = put v h e (Paced-trans p q)

-- `k` polls more.
unfoldable pub polls : ℕ → List Access → List Access
polls zero h = h
polls (suc k) h = polls k (read (com1 + 5) ∷ h)

-- Wherever it is, the transmitter is empty within `bound` polls.
pub record Drains (answer : List Access → ℕ) (bound : ℕ) : Type 0 where
  pub drains :
      (h : List Access) → (k : ℕ) × (k < bound) × (polled_empty answer (polls (suc k) h) ≡ true)

-- The run from `d` returns, and has written the bytes `bs`, each behind a poll that allowed it.
pub data Sent (bs : List ℕ) (d : Device) : Outcome Device → Type 0 where
  finished :
      (d' : Device)
      → d'.answer ≡ d.answer
      → sent d'.accesses ≡ pushed bs (sent d.accesses)
      → Paced d.answer d.accesses d'.accesses
      → Sent bs d (ok d')

-- The run from `d` returns with polls only, the last of which found the transmitter empty.
data Waited (d : Device) : Outcome Device → Type 0 where
  waited :
      (d' : Device)
      → d'.answer ≡ d.answer
      → sent d'.accesses ≡ sent d.accesses
      → Paced d.answer d.accesses d'.accesses
      → polled_empty d'.answer d'.accesses ≡ true
      → Waited d (ok d')

abbrev after_poll : Device → Device
after_poll d = record d { accesses = read (com1 + 5) ∷ d.accesses }

Waited-poll : (d : Device) (r : Outcome Device) → Waited (after_poll d) r → Waited d r
unfolding sent
Waited-poll d _ (waited d' a s p e) = waited d' a s (Paced-trans (poll d.accesses start) p) e

free_lem :
    (answer : List Access → ℕ) (h : List Access)
    → polled_empty answer (read (com1 + 5) ∷ h) ≡ true
    → (bit_and (answer (read (com1 + 5) ∷ h)) 0x20 == 0) ≡ false
unfolding polled_empty
free_lem answer h e = elim (Bool-cases (bit_and (answer (read (com1 + 5) ∷ h)) 0x20 == 0)) [
  | inl busy ↦ cc
  | inr free ↦ free
]

found :
    (d : Device)
    → (bit_and (d.answer (read (com1 + 5) ∷ d.accesses)) 0x20 == 0) ≡ false
    → Waited d (ok (after_poll d))
unfolding polled_empty sent
found d free = waited (after_poll d) refl refl (poll d.accesses start) (rw free refl)

wait-Waited :
    (fuel k : ℕ) (d : Device)
    → k < fuel
    → polled_empty d.answer (polls (suc k) d.accesses) ≡ true
    → Waited d (wait fuel d)
unfolding wait inb polls
wait-Waited zero k d h e = absurd (omega arith)
wait-Waited (suc fuel) zero d h e =
    let free = free_lem d.answer d.accesses e in rw free (found d free)
wait-Waited (suc fuel) (suc k) d h e =
    elim (Bool-cases (bit_and (d.answer (read (com1 + 5) ∷ d.accesses)) 0x20 == 0)) [
      | inl busy ↦ rw busy (Waited-poll d _ (wait-Waited fuel k (after_poll d) (omega arith) e))
      | inr free ↦ rw free (found d free)
    ]

-- The bytes of a text as they go out: a carriage return before each line feed.
unfoldable pub crlf : List ℕ → List ℕ
crlf [] = []
crlf (c ∷ s) = let rest = crlf s in if c == 10 then 13 ∷ 10 ∷ rest else c ∷ rest

-- A text as a row of pieces.
abbrev pub concat : List (List ℕ) → List ℕ
concat [] = []
concat (s ∷ pieces) = s ++ concat pieces

crlf-cons : (c : ℕ) (s : List ℕ) → crlf (c ∷ []) ++ crlf s ≡ crlf (c ∷ s)
unfolding crlf
crlf-cons c s = elim (Bool-cases (c == 10)) [ inl e ↦ rw e refl | inr ne ↦ rw ne refl ]

crlf-append : (s t : List ℕ) → crlf s ++ crlf t ≡ crlf (s ++ t)
unfolding crlf
crlf-append [] t = refl
crlf-append (c ∷ s) t = elim (Bool-cases (c == 10)) [
  | inl e ↦ rw e (ap (λ l. 13 ∷ 10 ∷ l) (crlf-append s t))
  | inr ne ↦ rw ne (ap (λ l. c ∷ l) (crlf-append s t))
]

module _ (bound : ℕ) where
  put_char_raw-Sent :
      (fuel c : ℕ) (d : Device)
      → bound ≤ fuel
      → Drains d.answer bound
      → Sent (c ∷ []) d (put_char_raw fuel c d)
  unfolding put_char_raw outb sent
  put_char_raw-Sent fuel c d f q =
      let t = q.drains d.accesses in
      behind (wait fuel d) (wait-Waited fuel t.0 d (omega (arith, t.1)) t.2)
    where
      behind : (r : Outcome Device) → Waited d r → Sent (c ∷ []) d (r >>= (λ d. ok (outb com1 c d)))
      behind _ (waited d' a s p e) =
          finished _ a (ap (λ l. c ∷ l) s)
            (put c d'.accesses (ap (λ f. polled_empty f d'.accesses) (sym a) ∙ e) p)

  Sent-from :
      (us : List ℕ) {vs : List ℕ} {d d' : Device} {r : Outcome Device}
      → d'.answer ≡ d.answer
      → sent d'.accesses ≡ pushed us (sent d.accesses)
      → Paced d.answer d.accesses d'.accesses
      → Sent vs d' r
      → Sent (us ++ vs) d r
  Sent-from us {vs} {d} {d'} a s p (finished d'' a' s' p') =
      finished d'' (a' ∙ a) (s' ∙ ap (pushed vs) s ∙ sym (pushed-append us vs (sent d.accesses)))
        (Paced-trans p (subst (λ f. Paced f d'.accesses d''.accesses) a p'))

  Sent-bind :
      {us vs : List ℕ} {d : Device} (f : Device → Outcome Device) (r : Outcome Device)
      → Sent us d r
      → Drains d.answer bound
      → ((d' : Device) → Drains d'.answer bound → Sent vs d' (f d'))
      → Sent (us ++ vs) d (r >>= f)
  Sent-bind {us} f _ (finished d' a s p) q next = Sent-from us a s p (next d' (rw a q))

  put_char-Sent :
      (fuel c : ℕ) (d : Device)
      → bound ≤ fuel
      → Drains d.answer bound
      → Sent (crlf (c ∷ [])) d (put_char fuel c d)
  unfolding put_char crlf
  put_char-Sent fuel c d f q = elim (Bool-cases (c == 10)) [
    | inl e ↦ rw e (
        Sent-bind _ _ (put_char_raw-Sent fuel 13 d f q) q
          (λ d' q'. rw (==-eq c 10 e) (put_char_raw-Sent fuel 10 d' f q')))
    | inr ne ↦ rw ne (put_char_raw-Sent fuel c d f q)
  ]

  write-Sent :
      (fuel : ℕ) (s : List ℕ) (d : Device)
      → bound ≤ fuel
      → Drains d.answer bound
      → Sent (crlf s) d (write fuel s d)
  unfolding write crlf
  write-Sent fuel [] d f q = finished d refl refl start
  write-Sent fuel (c ∷ s) d f q =
      subst (λ l. Sent l d (write fuel (c ∷ s) d)) (crlf-cons c s)
        (Sent-bind _ _ (put_char-Sent fuel c d f q) q (λ d' q'. write-Sent fuel s d' f q'))

  write_pieces-Sent :
      (fuel : ℕ) (pieces : List (List ℕ)) (d : Device)
      → bound ≤ fuel
      → Drains d.answer bound
      → Sent (crlf (concat pieces)) d (write_pieces fuel pieces d)
  unfolding write_pieces crlf
  write_pieces-Sent fuel [] d f q = finished d refl refl start
  write_pieces-Sent fuel (s ∷ pieces) d f q =
      subst (λ l. Sent l d (write_pieces fuel (s ∷ pieces) d)) (crlf-append s (concat pieces))
        (Sent-bind _ _ (write-Sent fuel s d f q) q (λ d' q'. write_pieces-Sent fuel pieces d' f q'))

-- Where the transmitter is empty within `bound` polls, and with that many rounds for each wait,
-- `serial_println!` returns, what it writes to COM1 is the text and a line feed, with a carriage
-- return before each line feed, and its accesses are polls of the line status and these bytes, each
-- written right behind a poll that found the transmitter empty.
pub serial_println-sent :
    (bound fuel : ℕ) (pieces : List (List ℕ)) (d : Device)
    → bound ≤ fuel
    → Drains d.answer bound
    → (d' : Device) × (serial_println fuel pieces d ≡ ok d')
      × (sent d'.accesses ≡ pushed (crlf (concat pieces ++ 10 ∷ [])) (sent d.accesses))
      × Paced d.answer d.accesses d'.accesses
unfolding serial_println
serial_println-sent bound fuel pieces d f q = from (
    subst (λ l. Sent l d (serial_println fuel pieces d)) (crlf-append (concat pieces) (10 ∷ []))
      (Sent-bind bound _ _ (write_pieces-Sent bound fuel pieces d f q) q
        (λ d' q'. write-Sent bound fuel (10 ∷ []) d' f q')))
  where
    from :
        {bs : List ℕ} {r : Outcome Device}
        → Sent bs d r
        → (d' : Device) × (r ≡ ok d')
          × (sent d'.accesses ≡ pushed bs (sent d.accesses))
          × Paced d.answer d.accesses d'.accesses
    from (finished d' _ s p) = (d', refl, s, p)
