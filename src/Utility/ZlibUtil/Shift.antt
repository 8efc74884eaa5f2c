-- ===== src/Utility/ZlibUtil/Shift.antt =====
-- A zlib to run the functions with: `deflate` writes each byte times 16; `inflate` reads each byte plus one, up to a 0. It holds nothing back.
use newbee.Base.{
  ℕ, zero, suc, ◌-◌, ◌*◌, if◌then◌else◌, Bool, true, false, List, [], ◌∷◌, map, length, take, drop,
}
use newbee.Rpc.Message.{Byte}
use newbee.Utility.Zlib.{z_ok, z_stream_end, z_data_error, z_buf_error, Turn, Zlib}

-- What a call of `inflate` reads with room for `n` bytes.
abbrev pub unshift : List Byte → (n : ℕ) → Turn Bool
unshift [] n = record {
  code = z_buf_error;
  stream = false;
  next_in = [];
  avail_out = n;
  written = [];
}
unshift (zero ∷ bytes) (suc n) = record {
  code = z_stream_end;
  stream = true;
  next_in = bytes;
  avail_out = suc n;
  written = [];
}
unshift (b ∷ bytes) zero = record {
  code = z_ok;
  stream = false;
  next_in = b ∷ bytes;
  avail_out = 0;
  written = [];
}
unshift (suc b ∷ bytes) (suc n) = let t = unshift bytes n in record t { written = b ∷ t.written }

-- With a given `inflate`.
abbrev pub shifting : (inflate : Bool → List Byte → ℕ → Turn Bool) → Zlib
shifting inflate = record {
  Stream = Bool;
  deflate_init = λ format. (z_ok, false);
  inflate_init = λ format. (z_ok, false);
  deflate = λ s flush bytes n. record {
    code = z_ok;
    stream = s;
    next_in = drop n bytes;
    avail_out = n - length bytes;
    written = map (λ b. b * 16) (take n bytes);
  };
  inflate = inflate;
}

abbrev pub shifted : Zlib
shifted = shifting (λ ended bytes n.
    if ended
    then record { code = z_stream_end; stream = true; next_in = bytes; avail_out = n; written = [] }
    else unshift bytes n)

-- One that looks at the header only.
abbrev pub headed : Zlib
headed = shifting (λ ended bytes n. record {
  code = z_data_error;
  stream = ended;
  next_in = bytes;
  avail_out = n;
  written = [];
})
