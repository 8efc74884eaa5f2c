-- ===== src/Rpc/Protocol/Reports.antt =====
-- The reports that a connection is gone, and what leaves them as they are.
use newbee.Base.{
  ℕ, suc, ◌+◌, ◌*◌, ◌≡◌, refl, ◌∙◌, Bool, true, false, List, [], ◌∷◌, ◌++◌, length, foldl, arith,
  Bool-cases, inl, inr, if◌then◌else◌, leb, ◌==◌,
}
use newbee.Memory.{Run, ok, and_then}
use newbee.Rpc.Message.{Byte}
use newbee.Rpc.Protocol.{
  Conn, Event, post, async_read, monitor_add, monitor_update, monitor_del, Protocol, emit, finish,
  on_read, on_closed, on_connect, tell_monitor,
}
use newbee.Rpc.Protocol.Feed.{
  settle, accept, feed, is_complete, settle-open, settle_complete, add_body,
}

-- The calls that a connection makes until it is opened again.
pub data Call : Type 0 where
  read : List Byte → Call
  closed : Call
  connect_failed : Call

abbrev pub call : Conn → Call → Protocol → Run Protocol
call c (read bs) s = on_read c (2 * length bs + 1) bs s
call c closed s = ok (on_closed c s)
call c connect_failed s = ok (on_connect c true s)

abbrev pub run : Conn → List Call → Protocol → Run Protocol
run c [] s = ok s
run c (k ∷ ks) s = and_then (call c k s) (run c ks)

-- Whether one of the calls says that the connection is gone.
abbrev pub ends : List Call → Bool
ends [] = false
ends (read bs ∷ ks) = ends ks
ends (closed ∷ ks) = true
ends (connect_failed ∷ ks) = true

-- The number of reports.
abbrev pub reports : List Event → ℕ
reports [] = 0
reports (post f c r b ∷ es) = if f == 0 then suc (reports es) else reports es
reports (async_read ∷ es) = reports es
reports (monitor_add ∷ es) = reports es
reports (monitor_update ∷ es) = reports es
reports (monitor_del ∷ es) = reports es

pub reports-append : (es fs : List Event) → reports (es ++ fs) ≡ reports es + reports fs
reports-append [] fs = omega arith
reports-append (post f c r b ∷ es) fs = ground (arith, reports-append es fs)
reports-append (async_read ∷ es) fs = reports-append es fs
reports-append (monitor_add ∷ es) fs = reports-append es fs
reports-append (monitor_update ∷ es) fs = reports-append es fs
reports-append (monitor_del ∷ es) fs = reports-append es fs

-- As often reported, and as broken, as before.
pub record Quiet (s t : Protocol) : Type 0 where
  pub same_reports : reports t.events ≡ reports s.events
  pub same_flag : t.is_broken ≡ s.is_broken

pub emit-Quiet :
    (s t : Protocol) (e : Event) → reports (e ∷ []) ≡ 0 → Quiet s t → Quiet s (emit e t)
emit-Quiet s t e none_new q = record {
  same_reports = omega (arith, reports-append t.events (e ∷ []), q.same_reports);
  same_flag = q.same_flag;
}

pub told-Quiet :
    (c : Conn) (s : Protocol) (e : Event) → reports (e ∷ []) ≡ 0 → Quiet s (tell_monitor c e s)
told-Quiet c s e none_new = elim (Bool-cases c.passive) [
  | inl y ↦ elim (Bool-cases c.monitored) [
    | inl z ↦
        rw (y, z) (emit-Quiet s s e none_new (record { same_reports = refl; same_flag = refl }))
    | inr z ↦ rw (y, z) (record { same_reports = refl; same_flag = refl })
  ]
  | inr n ↦ rw n (record { same_reports = refl; same_flag = refl })
]

module _ (c : Conn) where
  settle-Quiet : (s : Protocol) → Quiet s (settle c s)
  unfolding finish
  settle-Quiet s = elim (Bool-cases (is_complete s)) [
    | inl y ↦
        let told = told-Quiet c s monitor_update refl in
        rw (settle_complete c s y) (record {
          same_reports = omega (
            arith,
            told.same_reports,
            reports-append (tell_monitor c monitor_update s).events (post 1 _ _ s.body ∷ []),
          );
          same_flag = told.same_flag;
        })
    | inr n ↦ rw (settle-open c s n) (record { same_reports = refl; same_flag = refl })
  ]

  Quiet-trans : (s t u : Protocol) → Quiet s t → Quiet t u → Quiet s u
  Quiet-trans s t u q r = record {
    same_reports = r.same_reports ∙ q.same_reports;
    same_flag = r.same_flag ∙ q.same_flag;
  }

  accept-Quiet : (s : Protocol) (b : Byte) → Quiet s (accept c s b)
  unfolding accept
  accept-Quiet s b = elim (Bool-cases (leb 8 s.msg_size)) [
    | inl y ↦
        let q = settle-Quiet (add_body s (b ∷ [])) in
        rw y (record { same_reports = q.same_reports; same_flag = q.same_flag })
    | inr n ↦ rw n (record { same_reports = refl; same_flag = refl })
  ]

  feed-Quiet : (s : Protocol) (b : Byte) → Quiet s (feed c s b)
  unfolding feed
  feed-Quiet s b =
      Quiet-trans s (settle c s) (feed c s b) (settle-Quiet s) (accept-Quiet (settle c s) b)

  pub fed-Quiet : (bs : List Byte) (s : Protocol) → Quiet s (foldl (feed c) s bs)
  fed-Quiet [] s = record { same_reports = refl; same_flag = refl }
  fed-Quiet (b ∷ bs) s =
      Quiet-trans s (feed c s b) (foldl (feed c) s (b ∷ bs)) (feed-Quiet s b)
        (fed-Quiet bs (feed c s b))
