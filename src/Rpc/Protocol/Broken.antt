-- ===== src/Rpc/Protocol/Broken.antt =====
-- The report that a connection is broken: the post of `handle_msg` with the flag 0.
use newbee.Base.{
  ℕ, ◌+◌, ◌*◌, ◌≡◌, refl, sym, subst, ◌∙◌, Bool, true, false, ◌||◌, List, [], ◌∷◌, length, foldl,
  arith, Bool-cases, inl, inr, if◌then◌else◌,
}
use newbee.Memory.{Returns, returns, Returns-mono, Returns-bind}
use newbee.Rpc.Protocol.{
  Conn, Event, post, async_read, monitor_del, Protocol, emit, on_closed, on_connect,
  post_broken_msg_i, tell_monitor,
}
use newbee.Rpc.Protocol.Feed.{Framed, feed}
use newbee.Rpc.Protocol.Loop.{on_read-feed}
use newbee.Rpc.Protocol.Reports.{
  Call, read, closed, connect_failed, call, run, ends, reports, reports-append, Quiet, emit-Quiet,
  told-Quiet, fed-Quiet,
}

-- The report that is still to come.
abbrev debt : Bool → ℕ
debt is_broken = if is_broken then 0 else 1

-- What calls leave behind.
record Reported (s : Protocol) (ends_here : Bool) (t : Protocol) : Type 0 where
  framed : Framed t
  total : reports t.events + debt t.is_broken ≡ reports s.events + debt s.is_broken
  flag : t.is_broken ≡ (s.is_broken || ends_here)

-- The report is posted when it is due, and only then.
post_broken-again : (t : Protocol) → t.is_broken ≡ true → post_broken_msg_i t ≡ t
unfolding post_broken_msg_i
post_broken-again t y = simp y refl

post_broken-first :
    (t : Protocol)
    → t.is_broken ≡ false
    → post_broken_msg_i t ≡ emit (post 0 0 0 []) (record t { is_broken = true })
unfolding post_broken_msg_i
post_broken-first t n = simp n refl

broken_Reported : (s t : Protocol) → Framed t → Quiet s t → Reported s true (post_broken_msg_i t)
broken_Reported s t f q = elim (Bool-cases t.is_broken) [
  | inl y ↦ subst (Reported s true) (sym (post_broken-again t y)) (record {
    framed = f;
    total = ground (arith, q.same_flag, q.same_reports);
    flag = ground (arith, q.same_flag);
  })
  | inr n ↦ subst (Reported s true) (sym (post_broken-first t n)) (record {
    framed = record { measured = f.measured; within = f.within };
    total =
        ground (arith, q.same_flag, q.same_reports, reports-append t.events (post 0 0 0 [] ∷ []));
    flag = ground (arith, q.same_flag);
  })
]

told-Framed : (c : Conn) (s : Protocol) (e : Event) → Framed s → Framed (tell_monitor c e s)
told-Framed c s e f = elim (Bool-cases c.passive) [
  | inl y ↦ elim (Bool-cases c.monitored) [
    | inl z ↦ rw (y, z) (record { measured = f.measured; within = f.within })
    | inr z ↦ rw (y, z) f
  ]
  | inr n ↦ rw n f
]

module _ (c : Conn) where
  Reported-then :
      (s t u : Protocol) (first_ends rest_ends : Bool)
      → Reported s first_ends t
      → Reported t rest_ends u
      → Reported s (first_ends || rest_ends) u
  Reported-then s t u first_ends rest_ends r r' = record {
    framed = r'.framed;
    total = r'.total ∙ r.total;
    flag = ground (arith, r.flag, r'.flag);
  }

  call-Reported :
      (k : Call) (s : Protocol) → Framed s → Returns (Reported s (ends (k ∷ []))) (call c k s)
  unfolding on_closed on_connect
  call-Reported (read bs) s f =
      let (ran, f') = on_read-feed c (2 * length bs + 1) bs s f (omega arith) in
      let q = emit-Quiet s (foldl (feed c) s bs) async_read refl (fed-Quiet c bs s) in
      rw ran (
        returns (record {
          framed = record { measured = f'.measured; within = f'.within };
          total = ground (arith, q.same_flag, q.same_reports);
          flag = ground (arith, q.same_flag);
        }))
  call-Reported closed s f = returns (
      broken_Reported s (tell_monitor c monitor_del s) (told-Framed c s monitor_del f)
        (told-Quiet c s monitor_del refl))
  call-Reported connect_failed s f =
      returns (broken_Reported s s f (record { same_reports = refl; same_flag = refl }))

  ends-cons : (k : Call) (ks : List Call) → ends (k ∷ ks) ≡ (ends (k ∷ []) || ends ks)
  ends-cons (read bs) ks = refl
  ends-cons closed ks = refl
  ends-cons connect_failed ks = refl

  run-Reported :
      (ks : List Call) (s : Protocol) → Framed s → Returns (Reported s (ends ks)) (run c ks s)
  run-Reported [] s f = returns (record { framed = f; total = refl; flag = ground arith })
  run-Reported (k ∷ ks) s f = rw (ends-cons k ks) (
      Returns-bind (call-Reported k s f) λ t r.
        Returns-mono (run-Reported ks t r.framed)
          λ u r'. Reported-then s t u (ends (k ∷ [])) (ends ks) r r')

  -- Whatever is read, closed or fails to connect, and in whatever order: the calls return, and
  -- from a well framed connection that is not reported as broken exactly one report is posted if a
  -- call says that it is gone, and none if no call does.
  pub run-one_report :
      (ks : List Call) (s : Protocol)
      → Framed s
      → s.is_broken ≡ false
      → Returns
          (λ t.
            (reports t.events ≡ reports s.events + (if ends ks then 1 else 0))
            × (t.is_broken ≡ ends ks))
          (run c ks s)
  run-one_report ks s f new =
      Returns-mono (run-Reported ks s f) λ t r. ground (arith, r.total, r.flag)
