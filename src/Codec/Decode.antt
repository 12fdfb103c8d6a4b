-- ===== src/Codec/Decode.antt =====
-- `decode_command` of crates/codecs/src/binary.rs, one reader for each message type.
use high_perf_trading.Base.{ℕ, Bool, true, false, List, ◌==◌, if◌then◌else◌, ltb, length}
use high_perf_trading.Types.{
  Side, buy, sell, TimeInForce, gtc, ioc, Text, Command, new_order, cancel, replace,
  set_risk_limits, query_account, authenticate,
}
use high_perf_trading.Codec.Buffer.{BufferApi}
use high_perf_trading.Codec.Binary.{
  Reader, Result, ok, err, malformed, pure, fail, ◌>>=◌, get_u8, get_u32, get_u64, get_i64,
  get_string,
}

module _ ⦃buf : BufferApi⦄ where
  unfoldable pub side_of : ℕ → Reader Side
  side_of n = if n == 0 then pure buy else if n == 1 then pure sell else fail "binary: bad side"

  unfoldable pub tif_of : ℕ → Reader TimeInForce
  tif_of n = if n == 0 then pure gtc else if n == 1 then pure ioc else fail "binary: bad tif"

  unfoldable pub post_only_of : ℕ → Reader Bool
  post_only_of n =
      if n == 0 then pure false else if n == 1 then pure true else fail "binary: bad post_only"

  unfoldable pub decode_new_order : Reader Command
  decode_new_order = do
    client_seq ← get_u64
    order_id ← get_u64
    account_id ← get_u32
    symbol_id ← get_u32
    side ← get_u8 >>= side_of
    price ← get_i64
    qty ← get_i64
    tif ← get_u8 >>= tif_of
    post_only ← get_u8 >>= post_only_of
    pure (
        new_order (record {
          client_seq = client_seq;
          order_id = order_id;
          account_id = account_id;
          symbol_id = symbol_id;
          side = side;
          price = price;
          qty = qty;
          tif = tif;
          flags = record { post_only = post_only };
        }))

  unfoldable pub decode_cancel : Reader Command
  decode_cancel = do
    client_seq ← get_u64
    order_id ← get_u64
    account_id ← get_u32
    symbol_id ← get_u32
    pure (
        cancel (record {
          client_seq = client_seq;
          order_id = order_id;
          account_id = account_id;
          symbol_id = symbol_id;
        }))

  unfoldable pub decode_replace : Reader Command
  decode_replace = do
    client_seq ← get_u64
    order_id ← get_u64
    account_id ← get_u32
    symbol_id ← get_u32
    new_price ← get_i64
    new_qty ← get_i64
    pure (
        replace (record {
          client_seq = client_seq;
          order_id = order_id;
          account_id = account_id;
          symbol_id = symbol_id;
          new_price = new_price;
          new_qty = new_qty;
        }))

  unfoldable pub decode_set_risk_limits : Reader Command
  decode_set_risk_limits = do
    client_seq ← get_u64
    account_id ← get_u32
    symbol_id ← get_u32
    max_long_position ← get_i64
    max_short_position ← get_i64
    max_order_size ← get_i64
    pure (
        set_risk_limits (record {
          client_seq = client_seq;
          account_id = account_id;
          symbol_id = symbol_id;
          limits = record {
            max_long_position = max_long_position;
            max_short_position = max_short_position;
            max_order_size = max_order_size;
          };
        }))

  unfoldable pub decode_query_account : Reader Command
  decode_query_account = do
    client_seq ← get_u64
    account_id ← get_u32
    symbol_id ← get_u32
    pure (
        query_account
          (record { client_seq = client_seq; account_id = account_id; symbol_id = symbol_id }))

  unfoldable pub decode_authenticate : (Text → Bool) → Reader Command
  decode_authenticate is_utf8 = do
    api_key ← get_string is_utf8
    pure (authenticate (record { api_key = api_key }))

  unfoldable pub decode_body : (Text → Bool) → ℕ → Reader Command
  decode_body is_utf8 mt =
      if mt == 1
      then decode_new_order
      else if mt == 2
      then decode_cancel
      else if mt == 3
      then decode_replace
      else if mt == 4
      then decode_set_risk_limits
      else if mt == 5
      then decode_query_account
      else if mt == 6
      then decode_authenticate is_utf8
      else fail "binary: unknown msg_type"

  abbrev pub value : {A : Type 0} → Result (A × List ℕ) → Result A
  value (ok (a, rest)) = ok a
  value (err e) = err e

  -- Bytes behind a command are not looked at.
  unfoldable pub decode_command : (Text → Bool) → List ℕ → Result Command
  decode_command is_utf8 b =
      if ltb (length b) 2
      then err (malformed "binary: missing msg_type")
      else let (mt, rest) = buf.get_u16_le b in value (decode_body is_utf8 mt rest)
