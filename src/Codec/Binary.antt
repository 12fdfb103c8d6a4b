-- ===== src/Codec/Binary.antt =====
-- crates/codecs/src/binary.rs: the readers of fields, and the encoding of events.
use Prim.Native.String.{String}
use high_perf_trading.Base.{
  ℕ, zero, suc, ℤ, Bool, Option, none, some, List, [], ◌∷◌, ◌++◌, ◌%◌, ◌^◌, if◌then◌else◌, ltb,
  length,
}
use high_perf_trading.Types.{
  Text, Event, ack, reject, fill, book_top, account_state, auth_success, auth_failure, RejectReason,
  invalid, risk, overloaded, not_found, post_only_would_cross, rate_limit_exceeded,
}
use high_perf_trading.Codec.Buffer.{BufferApi}

-- `ProtoError` of crates/common/src/lib.rs.
pub data ProtoError : Type 0 where
  frame_too_large : ℕ → ProtoError
  malformed : String → ProtoError

pub data Result (A : Type 0) : Type 0 where
  ok : A → Result A
  err : ProtoError → Result A

-- A reader takes a value off the front of the buffer.
abbrev pub Reader : Type 0 → Type 0
Reader A = List ℕ → Result (A × List ℕ)

infixl 5 ◌>>=◌
unfoldable pub ◌>>=◌ : {A B : Type 0} → Reader A → (A → Reader B) → Reader B
◌>>=◌ m f b = elim (m b) [ ok (a, rest) ↦ f a rest | err e ↦ err e ]

abbrev pub pure : {A : Type 0} → A → Reader A
pure a b = ok (a, b)

abbrev pub fail : {A : Type 0} → String → Reader A
fail message b = err (malformed message)

-- `&buf[..len]`, and what is left.
abbrev pub split_at : ℕ → List ℕ → Text × List ℕ
split_at zero b = ([], b)
split_at (suc n) [] = ([], [])
split_at (suc n) (x ∷ b) = let (front, rest) = split_at n b in (x ∷ front, rest)

module _ ⦃buf : BufferApi⦄ where
  abbrev pub checked : {A : Type 0} → ℕ → (List ℕ → A × List ℕ) → Reader A
  checked width get b =
      if ltb (length b) width then err (malformed "binary: underrun") else ok (get b)

  unfoldable pub get_u8 : Reader ℕ
  get_u8 = checked 1 buf.get_u8

  unfoldable pub get_u32 : Reader ℕ
  get_u32 = checked 4 buf.get_u32_le

  unfoldable pub get_u64 : Reader ℕ
  get_u64 = checked 8 buf.get_u64_le

  unfoldable pub get_i64 : Reader ℤ
  get_i64 = checked 8 buf.get_i64_le

  unfoldable pub put_opt_i64 : Option ℤ → List ℕ
  put_opt_i64 none = buf.put_u8 0
  put_opt_i64 (some x) = buf.put_u8 1 ++ buf.put_i64_le x

  -- `len as u32` drops the higher bits.
  unfoldable pub put_string : Text → List ℕ
  put_string s = buf.put_u32_le (length s % 2 ^ 32) ++ s

  abbrev pub taken : (Text → Bool) → ℕ → List ℕ → Result (Text × List ℕ)
  taken is_utf8 len b =
      if ltb (length b) len
      then err (malformed "binary: underrun")
      else let (bytes, rest) = split_at len b in
        if is_utf8 bytes then ok (bytes, rest) else err (malformed "binary: invalid utf8")

  -- `is_utf8` is the test of `String::from_utf8`.
  unfoldable pub get_string : (Text → Bool) → Reader Text
  get_string is_utf8 b =
      if ltb (length b) 4
      then err (malformed "binary: underrun")
      else let (len, rest) = buf.get_u32_le b in taken is_utf8 len rest

  abbrev pub reason_code : RejectReason → ℕ
  reason_code invalid = 1
  reason_code risk = 2
  reason_code overloaded = 3
  reason_code not_found = 4
  reason_code post_only_would_cross = 5
  reason_code rate_limit_exceeded = 6

  unfoldable pub put_opt_id : Option ℕ → List ℕ
  put_opt_id none = buf.put_u8 0
  put_opt_id (some id) = buf.put_u8 1 ++ buf.put_u64_le id

  -- What is written to the output; no event fails to encode.
  unfoldable pub encode_event : Event → List ℕ
  encode_event (ack a) =
      buf.put_u16_le 101
      ++ (buf.put_u64_le a.server_seq ++ (buf.put_u64_le a.client_seq ++ buf.put_u64_le a.order_id))
  encode_event (reject r) =
      buf.put_u16_le 102
      ++ (buf.put_u64_le r.server_seq
          ++ (buf.put_u64_le r.client_seq
              ++ (buf.put_u8 (reason_code r.reason) ++ put_opt_id r.order_id)))
  encode_event (fill f) =
      buf.put_u16_le 103
      ++ (buf.put_u64_le f.server_seq
          ++ (buf.put_u64_le f.client_seq
              ++ (buf.put_u32_le f.symbol_id
                  ++ (buf.put_u64_le f.taker_order_id
                      ++ (buf.put_u64_le f.maker_order_id
                          ++ (buf.put_i64_le f.price ++ buf.put_i64_le f.qty))))))
  encode_event (book_top t) =
      buf.put_u16_le 104
      ++ (buf.put_u64_le t.server_seq
          ++ (buf.put_u32_le t.symbol_id
              ++ (put_opt_i64 t.best_bid_px
                  ++ (put_opt_i64 t.best_bid_qty
                      ++ (put_opt_i64 t.best_ask_px ++ put_opt_i64 t.best_ask_qty)))))
  encode_event (account_state a) =
      buf.put_u16_le 105
      ++ (buf.put_u64_le a.server_seq
          ++ (buf.put_u64_le a.client_seq
              ++ (buf.put_u32_le a.account_id
                  ++ (buf.put_u32_le a.symbol_id
                      ++ (buf.put_i64_le a.position.net_position
                          ++ (buf.put_i64_le a.position.avg_price
                              ++ (buf.put_i64_le a.position.realized_pnl
                                  ++ (buf.put_i64_le a.risk_limits.max_long_position
                                      ++ (buf.put_i64_le a.risk_limits.max_short_position
                                          ++ buf.put_i64_le a.risk_limits.max_order_size)))))))))
  encode_event (auth_success a) = buf.put_u16_le 106 ++ buf.put_u32_le a.account_id
  encode_event (auth_failure a) = buf.put_u16_le 107 ++ put_string a.reason
