-- ===== src/Rpc/Connecter/Writes.antt =====
-- The writes of a connection: one is on its way at a time, and they go out in the order in which they
-- were asked for.
use newbee.Base.{
  ◌+◌, ◌-◌, ◌%◌, ◌<◌, ◌≡◌, refl, sym, ap, ◌∙◌, Bool, true, false, not, List, [], ◌∷◌, ◌++◌, length,
  append_assoc, append-nil, arith,
}
use newbee.Memory.{ok, Returns, returns, Returns-ok}
use newbee.Rpc.Message.{Byte}
use newbee.Rpc.Connecter.{
  Connecter, CloseType, Request, write_some, size_mod, request, is_nil, sync_write_i,
  start_sending_buffer_i, write_complete_i, remote_open, connecter,
}
use newbee.Rpc.Connecter.Wire.{wire, wire-append, front, size_of, size_of-snoc, Sent}

module _ (set_write_state : Bool → Connecter → Connecter)
    (sync_close_i : CloseType → Connecter → Connecter)
    (sets : (w : Bool) (c : Connecter) → set_write_state w c ≡ record c { is_writing = w }) where
  start-nil :
      (c : Connecter)
      → c.write_queue ≡ []
      → start_sending_buffer_i set_write_state sync_close_i c ≡ ok c
  unfolding start_sending_buffer_i
  start-nil c e = simp e refl

  start-cons :
      (c : Connecter) (bytes : List Byte) (queue : List (List Byte))
      → c.write_queue ≡ bytes ∷ queue
      → start_sending_buffer_i set_write_state sync_close_i c
        ≡ ok (request (write_some bytes) (record c { is_writing = true }))
  unfolding start_sending_buffer_i
  start-cons c bytes queue e = simp (e, sets true c) refl

  abbrev queued : List Byte → Connecter → Connecter
  queued bytes c = record c {
    total_wait_write = (c.total_wait_write + length bytes) % size_mod;
    write_queue = c.write_queue ++ bytes ∷ [];
  }

  sync_write-idle :
      (c : Connecter) (bytes : List Byte)
      → c.is_writing ≡ false
      → sync_write_i set_write_state sync_close_i bytes c
        ≡ start_sending_buffer_i set_write_state sync_close_i (queued bytes c)
  unfolding sync_write_i
  sync_write-idle c bytes e = simp e refl

  sync_write-busy :
      (c : Connecter) (bytes : List Byte)
      → c.is_writing ≡ true
      → sync_write_i set_write_state sync_close_i bytes c ≡ ok (queued bytes c)
  unfolding sync_write_i
  sync_write-busy c bytes e = simp e refl

  module _ (posted completed : List (List Byte)) (bytes : List Byte) (c : Connecter)
      (s : Sent posted completed c) where
    queued-in_order : posted ++ bytes ∷ [] ≡ completed ++ (c.write_queue ++ bytes ∷ [])
    queued-in_order =
        ap (λ ps. ps ++ bytes ∷ []) s.in_order ∙ append_assoc completed c.write_queue (bytes ∷ [])

    queued-waiting :
        (c.total_wait_write + length bytes) % size_mod
        ≡ size_of (c.write_queue ++ bytes ∷ []) % size_mod
    queued-waiting = omega (arith, s.waiting, size_of-snoc c.write_queue bytes)

    sync_write-Sent :
        (queue : List (List Byte))
        → c.write_queue ≡ queue
        → Returns
            (Sent (posted ++ bytes ∷ []) completed)
            (sync_write_i set_write_state sync_close_i bytes c)
    sync_write-Sent [] e =
        let ran =
          sync_write-idle c bytes (s.busy ∙ ap (λ q. not (is_nil q)) e)
          ∙ start-cons (queued bytes c) bytes [] (ap (λ q. q ++ bytes ∷ []) e) in
        rw ran (
          returns (record {
            in_order = queued-in_order;
            busy = ap (λ q. not (is_nil (q ++ bytes ∷ []))) (sym e);
            in_flight =
                wire-append c.requests (write_some bytes ∷ [])
                ∙ ap (λ w. w ++ bytes ∷ [])
                    (s.in_flight ∙ ap (λ q. completed ++ front q) e ∙ append-nil completed)
                ∙ ap (λ q. completed ++ front (q ++ bytes ∷ [])) (sym e);
            waiting = queued-waiting;
          }))
    sync_write-Sent (b ∷ rest) e =
        rw (sync_write-busy c bytes (s.busy ∙ ap (λ q. not (is_nil q)) e)) (
          returns (record {
            in_order = queued-in_order;
            busy =
                s.busy
                ∙ ap (λ q. not (is_nil q)) e
                ∙ ap (λ q. not (is_nil (q ++ bytes ∷ []))) (sym e);
            in_flight =
                s.in_flight
                ∙ ap (λ q. completed ++ front q) e
                ∙ ap (λ q. completed ++ front (q ++ bytes ∷ [])) (sym e);
            waiting = queued-waiting;
          }))

  abbrev popped : List Byte → List (List Byte) → Connecter → Connecter
  popped bytes rest c = record c {
    is_writing = false;
    total_wait_write = (c.total_wait_write + size_mod - length bytes) % size_mod;
    write_queue = rest;
  }

  write_complete-ok :
      (c : Connecter) (bytes : List Byte) (rest : List (List Byte))
      → c.write_queue ≡ bytes ∷ rest
      → write_complete_i set_write_state sync_close_i false (length bytes) c
        ≡ start_sending_buffer_i set_write_state sync_close_i (popped bytes rest c)
  unfolding write_complete_i
  write_complete-ok c bytes rest e = simp (e, sets false c) refl

  module _ (posted completed : List (List Byte)) (bytes : List Byte) (c : Connecter)
      (s : Sent posted completed c) (fits : size_of c.write_queue < size_mod) where
    popped-in_order :
        (rest : List (List Byte))
        → c.write_queue ≡ bytes ∷ rest
        → posted ≡ (completed ++ bytes ∷ []) ++ rest
    popped-in_order rest e =
        s.in_order ∙ ap (λ q. completed ++ q) e ∙ sym (append_assoc completed (bytes ∷ []) rest)

    popped-in_flight :
        (rest : List (List Byte))
        → c.write_queue ≡ bytes ∷ rest
        → wire c.requests ≡ completed ++ bytes ∷ []
    popped-in_flight rest e = s.in_flight ∙ ap (λ q. completed ++ front q) e

    popped-waiting :
        (rest : List (List Byte))
        → c.write_queue ≡ bytes ∷ rest
        → (c.total_wait_write + size_mod - length bytes) % size_mod ≡ size_of rest % size_mod
    popped-waiting rest e =
        let whole : size_of c.write_queue ≡ length bytes + size_of rest = ap size_of e in
        omega (arith, s.waiting)

    write_complete-Sent :
        (rest : List (List Byte))
        → c.write_queue ≡ bytes ∷ rest
        → Returns
            (Sent posted (completed ++ bytes ∷ []))
            (write_complete_i set_write_state sync_close_i false (length bytes) c)
    write_complete-Sent [] e =
        rw (write_complete-ok c bytes [] e ∙ start-nil (popped bytes [] c) refl) (
          returns (record {
            in_order = popped-in_order [] e;
            busy = refl;
            in_flight = popped-in_flight [] e ∙ sym (append-nil (completed ++ bytes ∷ []));
            waiting = popped-waiting [] e;
          }))
    write_complete-Sent (b ∷ rest) e =
        rw
          (write_complete-ok c bytes (b ∷ rest) e
            ∙ start-cons (popped bytes (b ∷ rest) c) b rest refl)
          (returns (record {
            in_order = popped-in_order (b ∷ rest) e;
            busy = refl;
            in_flight =
                wire-append c.requests (write_some b ∷ [])
                ∙ ap (λ w. w ++ b ∷ []) (popped-in_flight (b ∷ rest) e);
            waiting = popped-waiting (b ∷ rest) e;
          }))

  -- `Writes posted completed c`: with the writes `posted`, of which `completed` are complete, a
  -- connection that was opened can be in the state `c`.
  pub data Writes : List (List Byte) → List (List Byte) → Connecter → Type 0 where
    opened : (use_monitor : Bool) → Writes [] [] (remote_open use_monitor connecter)
    asked :
        {posted completed : List (List Byte)} {c : Connecter} (r : Request)
        → wire (r ∷ []) ≡ []
        → Writes posted completed c
        → Writes posted completed (request r c)
    written :
        {posted completed : List (List Byte)} {c c' : Connecter} (bytes : List Byte)
        → Writes posted completed c
        → sync_write_i set_write_state sync_close_i bytes c ≡ ok c'
        → Writes (posted ++ bytes ∷ []) completed c'
    finished :
        {posted completed rest : List (List Byte)} {c c' : Connecter} (bytes : List Byte)
        → Writes posted completed c
        → c.write_queue ≡ bytes ∷ rest
        → size_of c.write_queue < size_mod
        → write_complete_i set_write_state sync_close_i false (length bytes) c ≡ ok c'
        → Writes posted (completed ++ bytes ∷ []) c'

  asked-Sent :
      (posted completed : List (List Byte)) (c : Connecter) (r : Request)
      → wire (r ∷ []) ≡ []
      → Sent posted completed c
      → Sent posted completed (request r c)
  asked-Sent posted completed c r none_new s = record {
    in_order = s.in_order;
    busy = s.busy;
    in_flight =
        wire-append c.requests (r ∷ [])
        ∙ ap (λ w. wire c.requests ++ w) none_new
        ∙ append-nil (wire c.requests)
        ∙ s.in_flight;
    waiting = s.waiting;
  }

  opened-Sent : (use_monitor : Bool) → Sent [] [] (remote_open use_monitor connecter)
  unfolding remote_open connecter
  opened-Sent use_monitor = record {
    in_order = refl;
    busy = refl;
    in_flight = refl;
    waiting = refl;
  }

  -- If `set_write_state` sets the flag and nothing else, and the writes of a connection that was
  -- opened complete without an error, with fewer bytes queued than `size_t` can count: what was
  -- posted is what is complete, followed by the queue; the socket was given what is complete and
  -- the front of the queue, in that order; the connection is writing as long as there is a queue;
  -- and the counter holds the bytes of the queue.
  pub Writes-Sent :
      (posted completed : List (List Byte)) (c : Connecter)
      → Writes posted completed c
      → Sent posted completed c
  Writes-Sent posted completed c (opened use_monitor) = opened-Sent use_monitor
  Writes-Sent posted completed c' (asked {c} r none_new w) =
      asked-Sent posted completed c r none_new (Writes-Sent posted completed c w)
  Writes-Sent posted' completed c' (written {posted} {c} bytes w ran) =
      let s = Writes-Sent posted completed c w in
      Returns-ok _ _ c' (sync_write-Sent posted completed bytes c s c.write_queue refl) ran
  Writes-Sent posted completed' c' (finished {completed} {rest} {c} bytes w e fits ran) =
      let s = Writes-Sent posted completed c w in
      Returns-ok _ _ c' (write_complete-Sent posted completed bytes c s fits rest e) ran
