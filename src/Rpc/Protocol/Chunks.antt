-- ===== src/Rpc/Protocol/Chunks.antt =====
-- The posts of a protocol object do not depend on how the bytes are cut into reads.
use newbee.Base.{
  ◌+◌, ◌*◌, ◌≡◌, refl, sym, ap, ◌∙◌, List, [], ◌∷◌, ◌++◌, length, foldl, foldl-append, arith,
  append-nil, Bool-cases, inl, inr, leb,
}
use newbee.Memory.{Run, ok, and_then, Returns, returns, Returns-mono}
use newbee.Rpc.Message.{Byte, zero_head, head_cmd, head_res}
use newbee.Rpc.Protocol.{
  Conn, Event, post, async_read, monitor_add, monitor_update, monitor_del, Protocol, emit, finish,
  on_read, has_read_head_end_i, has_read_body_end_i, tell_monitor,
}
use newbee.Rpc.Protocol.Feed.{
  Framed, settle, accept, feed, is_complete, settle-open, settle_complete, add_body, add_head,
}
use newbee.Rpc.Protocol.Loop.{on_read-feed}

abbrev pub concat : List (List Byte) → List Byte
concat [] = []
concat (bs ∷ chunks) = bs ++ concat chunks

-- The reads of a connection, one after the other.
abbrev pub receive : Conn → List (List Byte) → Protocol → Run Protocol
receive c [] s = ok s
receive c (bs ∷ chunks) s = and_then (on_read c (2 * length bs + 1) bs s) (receive c chunks)

-- The posts among the events.
abbrev pub posts : List Event → List Event
posts [] = []
posts (post f c r b ∷ es) = post f c r b ∷ posts es
posts (async_read ∷ es) = posts es
posts (monitor_add ∷ es) = posts es
posts (monitor_update ∷ es) = posts es
posts (monitor_del ∷ es) = posts es

abbrev pub posted : Protocol → Protocol
posted s = record s { events = posts s.events }

pub posts-append : (es fs : List Event) → posts (es ++ fs) ≡ posts es ++ posts fs
posts-append [] fs = refl
posts-append (post f c r b ∷ es) fs = ap (◌∷◌ (post f c r b)) (posts-append es fs)
posts-append (async_read ∷ es) fs = posts-append es fs
posts-append (monitor_add ∷ es) fs = posts-append es fs
posts-append (monitor_update ∷ es) fs = posts-append es fs
posts-append (monitor_del ∷ es) fs = posts-append es fs

posts-posts : (es : List Event) → posts (posts es) ≡ posts es
posts-posts [] = refl
posts-posts (post f c r b ∷ es) = ap (◌∷◌ (post f c r b)) (posts-posts es)
posts-posts (async_read ∷ es) = posts-posts es
posts-posts (monitor_add ∷ es) = posts-posts es
posts-posts (monitor_update ∷ es) = posts-posts es
posts-posts (monitor_del ∷ es) = posts-posts es

posted-emit-async_read : (s : Protocol) → posted (emit async_read s) ≡ posted s
posted-emit-async_read s =
    ap (λ es. record s { events = es }) (posts-append s.events (async_read ∷ []) ∙ append-nil _)

posted-posted : (s : Protocol) → posted (posted s) ≡ posted s
posted-posted s = ap (λ es. record s { events = es }) (posts-posts s.events)

posts-told :
    (c : Conn) (s : Protocol) (e : Event)
    → posts ((tell_monitor c monitor_update s).events ++ e ∷ []) ≡ posts s.events ++ posts (e ∷ [])
posts-told c s e = elim (Bool-cases c.passive) [
  | inl y ↦ elim (Bool-cases c.monitored) [
    | inl z ↦
        rw (y, z)
          (posts-append (s.events ++ monitor_update ∷ []) (e ∷ [])
            ∙ ap (λ es. es ++ posts (e ∷ []))
                (posts-append s.events (monitor_update ∷ []) ∙ append-nil _))
    | inr z ↦ rw (y, z) (posts-append s.events (e ∷ []))
  ]
  | inr n ↦ rw n (posts-append s.events (e ∷ []))
]

-- What `finish` leaves, but for the monitor.
abbrev pub delivered : Protocol → Protocol
delivered s = record s {
  head = zero_head;
  msg_size = 0;
  body = [];
  events = posts s.events ++ post 1 (head_cmd s.head) (head_res s.head) s.body ∷ [];
}

pub posted-finish : (c : Conn) (s : Protocol) → posted (finish c s) ≡ delivered s
unfolding finish
posted-finish c s =
    let told : (tell_monitor c monitor_update s).is_broken ≡ s.is_broken = ground arith in
    λ i. record {
      head = zero_head;
      msg_size = 0;
      body = [];
      is_broken = told i;
      events = posts-told c s (post 1 (head_cmd s.head) (head_res s.head) s.body) i;
    }

module _ (c : Conn) where
  posted-settle : (s : Protocol) → posted (settle c s) ≡ posted (settle c (posted s))
  unfolding has_read_head_end_i has_read_body_end_i
  posted-settle s = elim (Bool-cases (is_complete s)) [
    | inl y ↦
        ap posted (settle_complete c s y)
        ∙ posted-finish c s
        ∙ ap
            (λ es. record (delivered s) {
              events = es ++ post 1 (head_cmd s.head) (head_res s.head) s.body ∷ [];
            })
            (sym (posts-posts s.events))
        ∙ sym (posted-finish c (posted s))
        ∙ sym (ap posted (settle_complete c (posted s) y))
    | inr n ↦
        ap posted (settle-open c s n)
        ∙ sym (posted-posted s)
        ∙ sym (ap posted (settle-open c (posted s) n))
  ]

  posted-accept : (s : Protocol) (b : Byte) → posted (accept c s b) ≡ posted (accept c (posted s) b)
  unfolding accept
  posted-accept s b = elim (Bool-cases (leb 8 s.msg_size)) [
    | inl y ↦ rw y (posted-settle (add_body s (b ∷ [])))
    | inr n ↦ rw n (sym (posted-posted (add_head s (b ∷ []))))
  ]

  posted-feed : (s : Protocol) (b : Byte) → posted (feed c s b) ≡ posted (feed c (posted s) b)
  unfolding feed
  posted-feed s b =
      posted-accept (settle c s) b
      ∙ ap (λ t. posted (accept c t b)) (posted-settle s)
      ∙ sym (posted-accept (settle c (posted s)) b)

  posted-foldl :
      (bs : List Byte) (s t : Protocol)
      → posted s ≡ posted t
      → posted (foldl (feed c) s bs) ≡ posted (foldl (feed c) t bs)
  posted-foldl [] s t e = e
  posted-foldl (b ∷ bs) s t e =
      posted-foldl bs (feed c s b) (feed c t b)
        (posted-feed s b ∙ ap (λ u. posted (feed c u b)) e ∙ sym (posted-feed t b))

  Framed-posted : (s : Protocol) → Framed s → Framed (emit async_read s)
  Framed-posted s f = record { measured = f.measured; within = f.within }

  -- The reads return, and post what the bytes one by one ask for.
  pub receive-feed :
      (chunks : List (List Byte)) (s : Protocol)
      → Framed s
      → Returns
          (λ s'. Framed s' × (posted s' ≡ posted (foldl (feed c) s (concat chunks))))
          (receive c chunks s)
  receive-feed [] s f = returns (f, refl)
  receive-feed (bs ∷ chunks) s f =
      let (ran, f') = on_read-feed c (2 * length bs + 1) bs s f (omega arith) in
      let fed : Protocol = foldl (feed c) s bs in
      rw ran (
        Returns-mono (receive-feed chunks (emit async_read fed) (Framed-posted fed f'))
          λ s' (f'', e). (
            f'',
            e
                ∙ posted-foldl (concat chunks) (emit async_read fed) fed
                    (posted-emit-async_read fed)
                ∙ ap posted (sym (foldl-append (feed c) s bs (concat chunks))),
          ))

  -- Two ways to cut the same bytes into reads lead a well framed protocol object to the same state
  -- and the same posts.
  pub receive-independent :
      (chunks chunks' : List (List Byte)) (s : Protocol)
      → Framed s
      → concat chunks ≡ concat chunks'
      → Returns
          (λ t. Returns (λ t'. posted t ≡ posted t') (receive c chunks' s))
          (receive c chunks s)
  receive-independent chunks chunks' s f same = Returns-mono (receive-feed chunks s f) λ t (_, e).
      Returns-mono (receive-feed chunks' s f)
        λ t' (_, e'). e ∙ ap (λ bs. posted (foldl (feed c) s bs)) same ∙ sym e'
