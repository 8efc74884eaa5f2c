-- ===== src/Utility/ZlibUtil/InflateLoop.antt =====
-- The inner loop of `uncompress`: the output of one chunk.
use newbee.Base.{
  ℕ, zero, suc, ◌-◌, ◌<◌, ◌≡◌, ◌≢◌, ◌⊎◌, refl, sym, ap, ◌∙◌, subst, true, false, List, [], ◌++◌,
  append_assoc, ◌==◌, length, arith, inl, inr, Bool-cases, ==_iff, none, length-append, take_all,
}
use newbee.Memory.{Run, Returns, returns}
use newbee.Rpc.Message.{Byte}
use newbee.Utility.Zlib.{ZCode, z_ok, z_stream_end, z_buf_error, Zlib, is_ok, is_stream_end}
use newbee.Utility.Zlib.Inflating.{Inflates, Reads}
use newbee.Utility.ZlibUtil.{chunk, Inflated, goes_on, returned_at_once, inflate_loop}

no_return :
    (code : ZCode)
    → (code ≡ z_ok) ⊎ (code ≡ z_stream_end) ⊎ (code ≡ z_buf_error)
    → returned_at_once code ≡ none
no_return code (inl e) = rw e refl
no_return code (inr (inl e)) = rw e refl
no_return code (inr (inr e)) = rw e refl

pub stream_end : (code : ZCode) → is_stream_end code ≡ true → code ≡ z_stream_end
stream_end z_stream_end e = refl
stream_end _ e = cc e

pub not_stream_end : (code : ZCode) → is_stream_end code ≡ false → code ≢ z_stream_end
not_stream_end code e h = cc (sym e ∙ ap is_stream_end h)

pub ok_not_end : (code : ZCode) → is_ok code ≡ true → is_stream_end code ≡ false
ok_not_end z_ok e = refl
ok_not_end z_stream_end e = cc e
ok_not_end _ e = refl

pub ==_no : (n : ℕ) → (n == 0) ≡ false → n ≢ 0
==_no n e = ground arith

module _ {z : Zlib} (d : Inflates z) where
  open d use {decode, decode_empty, Reading, opens, reads}

  -- What the inner loop leaves of `text`, where `later` follows what it was given.
  abbrev pub Inflating : (later text : List Byte) → Inflated z.Stream × List Byte → Type 0
  Inflating later text (how, output) =
      (code : ZCode) × (s : z.Stream) × (rest : List Byte) × (how ≡ goes_on code s)
      × Reading s later rest
      × (text ≡ output ++ rest)
      × (code ≡ z_stream_end → (later ≡ []) × (rest ≡ []))
      × (later ≡ [] → code ≡ z_stream_end)

  retext :
      {later text text' : List Byte} {r : Run (Inflated z.Stream × List Byte)}
      → text ≡ text'
      → Returns (Inflating later text) r
      → Returns (Inflating later text') r
  retext {later} {r} e h = subst (λ text. Returns (Inflating later text) r) e h

  -- The last call of the loop.
  drained :
      {s : z.Stream} (later due given next_in : List Byte)
      (step : Reads Reading later due chunk (z.inflate s next_in chunk))
      → (given ++ (z.inflate s next_in chunk).written) ++ step.rest ≡ given ++ due
      → 0 < (z.inflate s next_in chunk).avail_out
      → Inflating later (given ++ due) (
        goes_on (z.inflate s next_in chunk).code (z.inflate s next_in chunk).stream,
        given ++ (z.inflate s next_in chunk).written,
      )
  drained {s} later due given next_in step text left =
      let none_left = step.drained left in
      (
        _,
        _,
        step.rest,
        refl,
        subst (λ bytes. Reading (z.inflate s next_in chunk).stream (bytes ++ later) (step.rest))
            none_left (step.goes_on),
        sym text,
        λ e. let (l, r) = step.at_end e in (subst (λ bytes. bytes ++ later ≡ []) none_left l, r),
        step.ends left,
      )

  pub inflate_loop-Inflating :
      (fuel : ℕ) {s : z.Stream} (next_in later due given : List Byte)
      → Reading s (next_in ++ later) due
      → length due < fuel
      → Returns (Inflating later (given ++ due)) (inflate_loop z fuel s next_in given)
  unfolding inflate_loop
  inflate_loop-Inflating zero next_in later due given r h = absurd (omega arith)
  inflate_loop-Inflating (suc fuel) {s} next_in later due given r h =
      let step = reads next_in later due chunk r (omega arith) in
      let text : (given ++ (z.inflate s next_in chunk).written) ++ step.rest ≡ given ++ due =
        append_assoc given _ (step.rest) ∙ ap (λ bytes. given ++ bytes) (sym (step.splits)) in
      rw
        (
          inflate_loop,
          no_return (z.inflate s next_in chunk).code (step.no_error),
          take_all (chunk - (z.inflate s next_in chunk).avail_out)
              (z.inflate s next_in chunk).written (omega (arith, step.room)),
        )
        (elim (Bool-cases ((z.inflate s next_in chunk).avail_out == 0)) [
          | inl full ↦ rw full (
              retext text (
                inflate_loop-Inflating fuel _ later (step.rest) _ (step.goes_on) (
                  omega (
                    arith,
                    step.room,
                    ap length (step.splits) ∙ length-append _ (step.rest),
                    (==_iff (z.inflate s next_in chunk).avail_out 0).0 full,
                  ))))
          | inr left ↦ rw left (returns (drained later due given next_in step text (ground arith)))
        ])
