-- ===== src/Journal/Sample.antt =====
-- Serializers, a checksum and a file that keep what the interfaces promise.
use high_perf_trading.Base.{
  ℕ, zero, suc, ℤ, pos, negsuc, Bool, true, false, Option, none, some, List, [], ◌∷◌, ◌++◌, ◌%◌,
  ◌^◌, ◌<◌, ◌≡◌, refl, sym, ap, ◌∙◌, ◌==◌, if◌then◌else◌, length, arith, some_injective,
}
use high_perf_trading.Types.{
  Side, buy, sell, TimeInForce, gtc, ioc, Command, new_order, cancel, replace, set_risk_limits,
  query_account, authenticate,
}
use high_perf_trading.Protocol.{GatewayToEngine, execute_command, ping, query_all_orders}
use high_perf_trading.Gateway.Accounts.{AccountUpdate, create_account_update}
use high_perf_trading.Journal.Postcard.{PostcardApi, CrcApi}
use high_perf_trading.Journal.File.{FileApi}

abbrev pub sign : ℤ → ℕ
sign (pos n) = 0
sign (negsuc n) = 1

abbrev pub size : ℤ → ℕ
size (pos n) = n
size (negsuc n) = n

abbrev pub int : ℕ → ℕ → ℤ
int s n = if s == 0 then pos n else negsuc n

pub int_back : (z : ℤ) → int (sign z) (size z) ≡ z
int_back (pos n) = refl
int_back (negsuc n) = refl

abbrev pub side_code : Side → ℕ
side_code buy = 0
side_code sell = 1

abbrev pub side_from : ℕ → Side
side_from n = if n == 0 then buy else sell

pub side_back : (s : Side) → side_from (side_code s) ≡ s
side_back buy = refl
side_back sell = refl

abbrev pub tif_code : TimeInForce → ℕ
tif_code gtc = 0
tif_code ioc = 1

abbrev pub tif_from : ℕ → TimeInForce
tif_from n = if n == 0 then gtc else ioc

pub tif_back : (t : TimeInForce) → tif_from (tif_code t) ≡ t
tif_back gtc = refl
tif_back ioc = refl

abbrev pub flag_code : Bool → ℕ
flag_code true = 1
flag_code false = 0

pub flag_back : (b : Bool) → (flag_code b == 1) ≡ b
flag_back true = refl
flag_back false = refl

abbrev encode : Command → List ℕ
encode (new_order o) =
    0
    ∷ o.client_seq
    ∷ o.order_id
    ∷ o.account_id
    ∷ o.symbol_id
    ∷ side_code o.side
    ∷ sign o.price
    ∷ size o.price
    ∷ sign o.qty
    ∷ size o.qty
    ∷ tif_code o.tif
    ∷ flag_code o.flags.post_only
    ∷ []
encode (cancel c) = 1 ∷ c.client_seq ∷ c.order_id ∷ c.account_id ∷ c.symbol_id ∷ []
encode (replace r) =
    2
    ∷ r.client_seq
    ∷ r.order_id
    ∷ r.account_id
    ∷ r.symbol_id
    ∷ sign r.new_price
    ∷ size r.new_price
    ∷ sign r.new_qty
    ∷ size r.new_qty
    ∷ []
encode (set_risk_limits s) =
    3
    ∷ s.client_seq
    ∷ s.account_id
    ∷ s.symbol_id
    ∷ sign s.limits.max_long_position
    ∷ size s.limits.max_long_position
    ∷ sign s.limits.max_short_position
    ∷ size s.limits.max_short_position
    ∷ sign s.limits.max_order_size
    ∷ size s.limits.max_order_size
    ∷ []
encode (query_account q) = 4 ∷ q.client_seq ∷ q.account_id ∷ q.symbol_id ∷ []
encode (authenticate a) = 5 ∷ a.api_key

abbrev decode : List ℕ → Option Command
decode (zero ∷ c ∷ o ∷ a ∷ s ∷ side ∷ ps ∷ p ∷ qs ∷ q ∷ tif ∷ flag ∷ []) = some (
    new_order (record {
      client_seq = c;
      order_id = o;
      account_id = a;
      symbol_id = s;
      side = side_from side;
      price = int ps p;
      qty = int qs q;
      tif = tif_from tif;
      flags = record { post_only = flag == 1 };
    }))
decode (suc zero ∷ c ∷ o ∷ a ∷ s ∷ []) =
    some (cancel (record { client_seq = c; order_id = o; account_id = a; symbol_id = s }))
decode (suc (suc zero) ∷ c ∷ o ∷ a ∷ s ∷ ps ∷ p ∷ qs ∷ q ∷ []) = some (
    replace (record {
      client_seq = c;
      order_id = o;
      account_id = a;
      symbol_id = s;
      new_price = int ps p;
      new_qty = int qs q;
    }))
decode (suc (suc (suc zero)) ∷ c ∷ a ∷ s ∷ ls ∷ l ∷ ss ∷ h ∷ os ∷ m ∷ []) = some (
    set_risk_limits (record {
      client_seq = c;
      account_id = a;
      symbol_id = s;
      limits = record {
        max_long_position = int ls l;
        max_short_position = int ss h;
        max_order_size = int os m;
      };
    }))
decode (suc (suc (suc (suc zero))) ∷ c ∷ a ∷ s ∷ []) =
    some (query_account (record { client_seq = c; account_id = a; symbol_id = s }))
decode (suc (suc (suc (suc (suc zero)))) ∷ key) = some (authenticate (record { api_key = key }))
decode _ = none

decode-encode : (cmd : Command) → decode (encode cmd) ≡ some cmd
decode-encode (new_order o) = cc (
  side_back o.side,
  int_back o.price,
  int_back o.qty,
  tif_back o.tif,
  flag_back o.flags.post_only,
)
decode-encode (cancel c) = refl
decode-encode (replace r) = cc (int_back r.new_price, int_back r.new_qty)
decode-encode (set_risk_limits s) = cc (
  int_back s.limits.max_long_position,
  int_back s.limits.max_short_position,
  int_back s.limits.max_order_size,
)
decode-encode (query_account q) = refl
decode-encode (authenticate a) = refl

pub commands-from-to :
    (cmd : Command) (bytes : List ℕ) → some (encode cmd) ≡ some bytes → decode bytes ≡ some cmd
commands-from-to cmd bytes e = ap decode (sym (some_injective e)) ∙ decode-encode cmd

instance unfoldable pub sample_commands : PostcardApi Command
sample_commands = record {
  to_bytes = λ cmd. some (encode cmd);
  from_bytes = decode;
  from-to = commands-from-to;
}

abbrev pub encode_message : GatewayToEngine → List ℕ
encode_message (execute_command exec) =
    0
    ∷ exec.conn_id
    ∷ exec.risk_token.account_id
    ∷ sign exec.risk_token.reserved_amount
    ∷ size exec.risk_token.reserved_amount
    ∷ exec.risk_token.gateway_seq
    ∷ encode exec.command
encode_message ping = 1 ∷ []
encode_message query_all_orders = 2 ∷ []

abbrev executed : ℕ → ℕ → ℕ → ℕ → ℕ → Option Command → Option GatewayToEngine
executed conn_id a s n g none = none
executed conn_id a s n g (some cmd) = some (
    execute_command (record {
      command = cmd;
      conn_id = conn_id;
      risk_token = record { account_id = a; reserved_amount = int s n; gateway_seq = g };
    }))

abbrev decode_message : List ℕ → Option GatewayToEngine
decode_message (zero ∷ conn_id ∷ a ∷ s ∷ n ∷ g ∷ bytes) = executed conn_id a s n g (decode bytes)
decode_message (suc zero ∷ []) = some ping
decode_message (suc (suc zero) ∷ []) = some query_all_orders
decode_message _ = none

pub messages-from-to :
    (msg : GatewayToEngine) (bytes : List ℕ)
    → some (encode_message msg) ≡ some bytes
    → decode_message bytes ≡ some msg
messages-from-to msg bytes e = ap decode_message (sym (some_injective e)) ∙ back msg
  where
    back : (msg : GatewayToEngine) → decode_message (encode_message msg) ≡ some msg
    back (execute_command exec) =
        cc (decode-encode exec.command, int_back exec.risk_token.reserved_amount)
    back ping = refl
    back query_all_orders = refl

instance unfoldable pub sample_messages : PostcardApi GatewayToEngine
sample_messages = record {
  to_bytes = λ m. some (encode_message m);
  from_bytes = decode_message;
  from-to = messages-from-to;
}

abbrev encode_update : AccountUpdate → List ℕ
encode_update (create_account_update id bp) = id ∷ sign bp ∷ size bp ∷ []

abbrev decode_update : List ℕ → Option AccountUpdate
decode_update (id ∷ s ∷ n ∷ []) = some (create_account_update id (int s n))
decode_update _ = none

pub updates-from-to :
    (u : AccountUpdate) (bytes : List ℕ)
    → some (encode_update u) ≡ some bytes
    → decode_update bytes ≡ some u
updates-from-to u bytes e = ap decode_update (sym (some_injective e)) ∙ back u
  where
    back : (u : AccountUpdate) → decode_update (encode_update u) ≡ some u
    back (create_account_update id bp) = cc (int_back bp)

instance unfoldable pub sample_updates : PostcardApi AccountUpdate
sample_updates = record {
  to_bytes = λ u. some (encode_update u);
  from_bytes = decode_update;
  from-to = updates-from-to;
}

small : (n : ℕ) → n % 2 ^ 32 < 2 ^ 32
small n = omega arith

-- The length of the bytes is their checksum.
instance unfoldable pub sample_crc : CrcApi
unfolding small
sample_crc = record {
  crc32 = λ bytes. length bytes % 2 ^ 32;
  crc32-IsU32 = λ bytes. small (length bytes);
}

-- A file that takes every write.
instance unfoldable pub sample_file : FileApi
sample_file = record {
  File = List ℕ;
  contents = λ f. f;
  empty = [];
  write_all = λ f bytes. (f ++ bytes, true);
  sync_data = λ f. (f, true);
  contents-empty = refl;
  contents-write_all = λ f bytes _. refl;
  contents-sync_data = λ f. refl;
}
