-- ===== src/Rpc/Message/Fields.antt =====
-- What the header of a message holds: the fields are read back as they were written.
use newbee.Base.{
  ℕ, ◌^◌, ◌<◌, ◌≡◌, refl, Bool, true, false, not, ◌||◌, Option, some, none, List, ◌++◌, ◌&&◌, arith,
  length, drop, leb, ltb, ◌==◌, Bool-cases, Option-cases, inl, inr, if◌then◌else◌, ap, ◌∙◌,
}
use newbee.Rpc.Message.{
  Byte, Settings, compress_msg, uncompress_msg, Head, head_of, head_size, u16_at, head_len,
  head_cmd, head_res, copy_bytes, set_byte, head_bytes,
}

-- The fields of a header that is copied in front of whatever memory.
pub head_bytes-fields :
    (h : Head) (len cmd res : ℕ)
    → len < 2 ^ 32
    → cmd < 2 ^ 16
    → res < 2 ^ 16
    → (head_len (copy_bytes h 0 (head_bytes len cmd res)) ≡ len)
      × (head_cmd (copy_bytes h 0 (head_bytes len cmd res)) ≡ cmd)
      × (head_res (copy_bytes h 0 (head_bytes len cmd res)) ≡ res)
unfolding head_len u16_at set_byte head_bytes
head_bytes-fields h len cmd res hl hc hr = (omega arith, omega arith, omega arith)

-- The header of a message, read from the message, and what stands behind it.
pub head_of-fields :
    (cmd res : ℕ) (payload : List Byte)
    → length payload < 2 ^ 32
    → cmd < 2 ^ 16
    → res < 2 ^ 16
    → (head_len (head_of (head_bytes (length payload) cmd res ++ payload)) ≡ length payload)
      × (head_cmd (head_of (head_bytes (length payload) cmd res ++ payload)) ≡ cmd)
      × (head_res (head_of (head_bytes (length payload) cmd res ++ payload)) ≡ res)
unfolding head_len u16_at set_byte head_bytes
head_of-fields cmd res payload hl hc hr = (omega arith, omega arith, omega arith)

pub drop-head_bytes :
    (len cmd res : ℕ) (payload : List Byte)
    → drop head_size (head_bytes len cmd res ++ payload) ≡ payload
unfolding head_bytes
drop-head_bytes len cmd res payload = refl

-- The payload of a message whose body has this packing, its `res`, and what a reader is to get.
abbrev pub payload_of : Option (List Byte) → List Byte → List Byte
payload_of none body = body
payload_of (some packed) body = packed

abbrev pub res_of : Option (List Byte) → ℕ
res_of none = 0
res_of (some packed) = 2 ^ 15

abbrev pub read_of :
    (uncompress : List Byte → List Byte) → Option (List Byte) → List Byte → List Byte
read_of uncompress none body = body
read_of uncompress (some packed) body = uncompress packed

res_of-lt : (p : Option (List Byte)) → res_of p < 2 ^ 16
res_of-lt none = omega arith
res_of-lt (some packed) = omega arith

module _ (compress : List Byte → Option (List Byte)) (uncompress : List Byte → List Byte)
    (s : Settings) where
  -- What the body is packed to: nothing, unless compression is on for the command and the body
  -- reaches the limit.
  abbrev pub packing : (cmd : ℕ) → List Byte → Option (List Byte)
  packing cmd body =
      if s.opened && (leb s.size_limit (length body) && (s.cmd_filter cmd == 0))
      then compress body
      else none

  compress_msg-packing :
      (cmd : ℕ) (body : List Byte)
      → compress_msg compress s cmd body
        ≡ head_bytes (length (payload_of (packing cmd body) body)) cmd (res_of (packing cmd body))
          ++ payload_of (packing cmd body) body
  unfolding compress_msg
  compress_msg-packing cmd body =
      elim (Bool-cases (s.opened && (leb s.size_limit (length body) && (s.cmd_filter cmd == 0)))) [
        | inl y ↦
            let packs : (ltb (length body) s.size_limit
                  || not s.opened
                  || not (s.cmd_filter cmd == 0))
                ≡ false =
              ground arith in
            elim (Option-cases (compress body)) [
              | inl e ↦ rw (y, packs, e) refl
              | inr (packed, e) ↦ rw (y, packs, e) refl
            ]
        | inr n ↦
            let plain : (ltb (length body) s.size_limit
                  || not s.opened
                  || not (s.cmd_filter cmd == 0))
                ≡ true =
              ground arith in
            rw (n, plain) refl
      ]

  is_opened : (a b : Bool) → (s.opened && (a && b)) ≡ true → not s.opened ≡ false
  is_opened a b h = ground arith

  uncompress_msg-read :
      (cmd : ℕ) (body : List Byte)
      → uncompress_msg uncompress s (res_of (packing cmd body)) (payload_of (packing cmd body) body)
        ≡ read_of uncompress (packing cmd body) body
  unfolding uncompress_msg
  uncompress_msg-read cmd body =
      elim (Bool-cases (s.opened && (leb s.size_limit (length body) && (s.cmd_filter cmd == 0)))) [
        | inl y ↦
            let opened = is_opened (leb s.size_limit (length body)) (s.cmd_filter cmd == 0) y in
            elim (Option-cases (compress body)) [
              | inl e ↦ rw (y, e, opened) refl
              | inr (packed, e) ↦ rw (y, e, opened) refl
            ]
        | inr n ↦ rw n (ground arith)
      ]

  -- Whatever the two functions of zlib_util do: of a message that `compress_msg` makes for a
  -- command and a payload that fit their fields, the payload is what the body was packed to, where
  -- compression is on for the command, the body reaches the limit and the packing gives something,
  -- and the body otherwise; the header says its length and the command, and has the flag in `res`
  -- exactly where the body was packed; and `uncompress_msg`, given what is read from the message,
  -- uncompresses the payload where it was packed, and gives the body otherwise.
  pub compress_msg-uncompress_msg :
      (cmd : ℕ) (body : List Byte)
      → cmd < 2 ^ 16
      → length (payload_of (packing cmd body) body) < 2 ^ 32
      → (drop head_size (compress_msg compress s cmd body) ≡ payload_of (packing cmd body) body)
        × (head_len (head_of (compress_msg compress s cmd body))
            ≡ length (payload_of (packing cmd body) body))
        × (head_cmd (head_of (compress_msg compress s cmd body)) ≡ cmd)
        × (head_res (head_of (compress_msg compress s cmd body)) ≡ res_of (packing cmd body))
        × (uncompress_msg uncompress s
              (head_res (head_of (compress_msg compress s cmd body)))
              (drop head_size (compress_msg compress s cmd body))
            ≡ read_of uncompress (packing cmd body) body)
  compress_msg-uncompress_msg cmd body hc hl =
      let p = packing cmd body in
      let made = compress_msg-packing cmd body in
      let (long, same, flag) =
        head_of-fields cmd (res_of p) (payload_of p body) hl hc (res_of-lt p) in
      let payload : drop head_size (compress_msg compress s cmd body) ≡ payload_of p body =
        ap (drop head_size) made
        ∙ drop-head_bytes (length (payload_of p body)) cmd (res_of p) (payload_of p body) in
      let res : head_res (head_of (compress_msg compress s cmd body)) ≡ res_of p =
        ap (λ msg. head_res (head_of msg)) made ∙ flag in
      (
        payload,
        ap (λ msg. head_len (head_of msg)) made ∙ long,
        ap (λ msg. head_cmd (head_of msg)) made ∙ same,
        res,
        (λ i. uncompress_msg uncompress s (res i) (payload i)) ∙ uncompress_msg-read cmd body,
      )
