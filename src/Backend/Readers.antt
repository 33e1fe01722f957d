-- ===== src/Backend/Readers.antt =====
-- The threads of manager/src/vm.rs that read the output of QEMU, the channel, and `drain_log`, in
-- any order of their turns.
use mochivm.Prelude.{
  ℕ, ◌≡◌, refl, ◌∙◌, sym, ap, Bool, true, Option, none, some, List, [], ◌∷◌, ◌++◌, map, concat,
  concat-append,
}
use mathlib.Core.List.{reverse, reverse-append, append_assoc, append-nil}
use mochivm.Backend.{Backend, Read, failed, got, send, read_turn, drain_log, receive_all}

-- The threads of the process's output and of its error output, and who drains the channel.
pub record World : Type 0 where
  pub backend : Backend
  -- What each thread has read, the newest first, and whether it goes on.
  pub out : List (List ℕ)
  pub err : List (List ℕ)
  pub out_open : Bool
  pub err_open : Bool
  -- What `drain_log` has returned so far, put together.
  pub drained : List ℕ

-- `xs` with what a turn has read: nothing at the end of the pipe or for an error.
abbrev pub seen : Read → List (List ℕ) → List (List ℕ)
seen failed xs = xs
seen (got []) xs = xs
seen (got (b ∷ bs)) xs = (b ∷ bs) ∷ xs

module _ (lossy : List ℕ → List ℕ) where
  pub data Turn : World → World → Type 0 where
    read_out :
        (w : World) (r : Read)
        → w.out_open ≡ true
        → Turn w (record w {
          backend = record w.backend { rx = (read_turn lossy r w.backend.rx).1 };
          out = seen r w.out;
          out_open = (read_turn lossy r w.backend.rx).0;
        })
    read_err :
        (w : World) (r : Read)
        → w.err_open ≡ true
        → Turn w (record w {
          backend = record w.backend { rx = (read_turn lossy r w.backend.rx).1 };
          err = seen r w.err;
          err_open = (read_turn lossy r w.backend.rx).0;
        })
    drain :
        (w : World)
        → Turn w (record w {
          backend = (drain_log w.backend).1;
          drained = w.drained ++ (drain_log w.backend).0;
        })

  pub data Turns (w : World) : World → Type 0 where
    here : Turns w w
    next : {u v : World} → Turns w u → Turn u v → Turns w v

-- `zs` is made of `xs` and `ys`, each in its order.
pub data Interleaved : List (List ℕ) → List (List ℕ) → List (List ℕ) → Type 0 where
  neither : Interleaved [] [] []
  left :
      (x : List ℕ) {xs ys zs : List (List ℕ)}
      → Interleaved xs ys zs
      → Interleaved (x ∷ xs) ys (x ∷ zs)
  right :
      (y : List ℕ) {xs ys zs : List (List ℕ)}
      → Interleaved xs ys zs
      → Interleaved xs (y ∷ ys) (y ∷ zs)

-- The texts that wait in the channel, put together in the order in which they were sent.
abbrev pub waiting : Option (List (List ℕ)) → List ℕ
waiting none = []
waiting (some texts) = concat (reverse texts)

-- Nothing read is lost and nothing is out of its order.
pub record Complete (lossy : List ℕ → List ℕ) (w : World) : Type 0 where
  pub order : List (List ℕ)
  pub interleaved : Interleaved (map lossy w.out) (map lossy w.err) order
  pub text : w.drained ++ waiting w.backend.rx ≡ concat (reverse order)
  pub receiver : (texts : List (List ℕ)) × (w.backend.rx ≡ some texts)

concat_snoc :
    (x : List ℕ) (xs : List (List ℕ)) → concat (reverse (x ∷ xs)) ≡ concat (reverse xs) ++ x
concat_snoc x xs =
    ap concat (reverse-append (x ∷ []) xs)
    ∙ concat-append (reverse xs) (x ∷ [])
    ∙ ap (λ l. concat (reverse xs) ++ l) (append-nil x)

module _ (lossy : List ℕ → List ℕ) where
  -- A text behind what was read and sent before.
  text_sent :
      (d x : List ℕ) (texts order : List (List ℕ))
      → d ++ waiting (some texts) ≡ concat (reverse order)
      → d ++ waiting (some (x ∷ texts)) ≡ concat (reverse (x ∷ order))
  text_sent d x texts order e =
      ap (λ l. d ++ l) (concat_snoc x texts)
      ∙ sym (append_assoc d (concat (reverse texts)) x)
      ∙ ap (λ l. l ++ x) e
      ∙ sym (concat_snoc x order)

  text_after :
      (d bs : List ℕ) (rx : Option (List (List ℕ))) (texts order : List (List ℕ))
      → rx ≡ some texts
      → d ++ waiting rx ≡ concat (reverse order)
      → d ++ waiting (send lossy bs rx).1 ≡ concat (reverse (lossy bs ∷ order))
  unfolding send
  text_after d bs none texts order e t = cc
  text_after d bs (some sent) texts order e t = text_sent d (lossy bs) sent order t

  receiver_after :
      (bs : List ℕ) (rx : Option (List (List ℕ))) (texts : List (List ℕ))
      → rx ≡ some texts
      → (send lossy bs rx).1 ≡ some (lossy bs ∷ texts)
  unfolding send
  receiver_after bs rx texts e = rw e refl

  text_drained :
      (d : List ℕ) (rx : Option (List (List ℕ)))
      → (d ++ (receive_all rx).0) ++ waiting (receive_all rx).1 ≡ d ++ waiting rx
  unfolding receive_all
  text_drained d none = append-nil (d ++ [])
  text_drained d (some texts) = append-nil (d ++ concat (reverse texts))

  still_receiver :
      (rx : Option (List (List ℕ))) (texts : List (List ℕ))
      → rx ≡ some texts
      → (receive_all rx).1 ≡ some []
  unfolding receive_all
  still_receiver rx texts e = rw e refl

  Turn-Complete : {u v : World} → Turn lossy u v → Complete lossy u → Complete lossy v
  unfolding read_turn drain_log
  Turn-Complete (read_out w failed o) c = record {
    order = c.order;
    interleaved = c.interleaved;
    text = c.text;
    receiver = c.receiver;
  }
  Turn-Complete (read_out w (got []) o) c = record {
    order = c.order;
    interleaved = c.interleaved;
    text = c.text;
    receiver = c.receiver;
  }
  Turn-Complete (read_out w (got (b ∷ bs)) o) c = record {
    order = lossy (b ∷ bs) ∷ c.order;
    interleaved = left (lossy (b ∷ bs)) c.interleaved;
    text = text_after w.drained (b ∷ bs) w.backend.rx c.receiver.0 c.order c.receiver.1 c.text;
    receiver = (
      lossy (b ∷ bs) ∷ c.receiver.0,
      receiver_after (b ∷ bs) w.backend.rx c.receiver.0 c.receiver.1,
    );
  }
  Turn-Complete (read_err w failed o) c = record {
    order = c.order;
    interleaved = c.interleaved;
    text = c.text;
    receiver = c.receiver;
  }
  Turn-Complete (read_err w (got []) o) c = record {
    order = c.order;
    interleaved = c.interleaved;
    text = c.text;
    receiver = c.receiver;
  }
  Turn-Complete (read_err w (got (b ∷ bs)) o) c = record {
    order = lossy (b ∷ bs) ∷ c.order;
    interleaved = right (lossy (b ∷ bs)) c.interleaved;
    text = text_after w.drained (b ∷ bs) w.backend.rx c.receiver.0 c.order c.receiver.1 c.text;
    receiver = (
      lossy (b ∷ bs) ∷ c.receiver.0,
      receiver_after (b ∷ bs) w.backend.rx c.receiver.0 c.receiver.1,
    );
  }
  Turn-Complete (drain w) c = record {
    order = c.order;
    interleaved = c.interleaved;
    text = text_drained w.drained w.backend.rx ∙ c.text;
    receiver = ([], still_receiver w.backend.rx c.receiver.0 c.receiver.1);
  }

  Turns-Complete : {u v : World} → Turns lossy u v → Complete lossy u → Complete lossy v
  Turns-Complete here c = c
  Turns-Complete (next ts t) c = Turn-Complete t (Turns-Complete ts c)

  -- Where `start` has made the channel and the threads, and as long as the receiver is kept, after
  -- any turns of the two threads and of `drain_log`, in any order, what `drain_log` has returned and
  -- what waits in the channel are together all that the threads have read, as `from_utf8_lossy`
  -- gives it chunk by chunk, each thread's chunks in the order in which it read them.
  pub Turns-Interleaved :
      (b : Backend) {w : World}
      → b.rx ≡ some []
      → Turns lossy
          (record {
            backend = b;
            out = [];
            err = [];
            out_open = true;
            err_open = true;
            drained = [];
          })
          w
      → (order : List (List ℕ)) × (Interleaved (map lossy w.out) (map lossy w.err) order)
        × (w.drained ++ waiting w.backend.rx ≡ concat (reverse order))
  Turns-Interleaved b e ts =
      let c =
        Turns-Complete ts
          (record { order = []; interleaved = neither; text = rw e refl; receiver = ([], e) }) in
      (c.order, c.interleaved, c.text)
