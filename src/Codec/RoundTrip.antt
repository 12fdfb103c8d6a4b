-- ===== src/Codec/RoundTrip.antt =====
-- What a client writes for a command, as crates/bench/src/main.rs and crates/test_client/src/main.rs lay
-- it out, is decoded to the command.
use high_perf_trading.Base.{
  ℕ, suc, ℤ, Bool, true, false, List, [], ◌∷◌, ◌++◌, ◌%◌, ◌^◌, ◌<◌, ◌≡◌, refl, ap, ◌∙◌, subst, ltb,
  length, length-append, arith,
}
use mathlib.Core.List.{append-nil, append_assoc}
use high_perf_trading.Base.Word.{IsI64}
use high_perf_trading.Types.{
  Side, buy, sell, TimeInForce, gtc, ioc, Text, Command, new_order, cancel, replace,
  set_risk_limits, query_account, authenticate,
}
use high_perf_trading.Codec.Buffer.{BufferApi}
use high_perf_trading.Codec.Binary.{
  Reader, Result, ok, err, checked, get_u8, get_u32, get_u64, get_i64, get_string, put_string,
  split_at, ◌>>=◌,
}
use high_perf_trading.Codec.Decode.{
  decode_new_order, decode_cancel, decode_replace, decode_set_risk_limits, decode_query_account,
  decode_authenticate, decode_body, decode_command, side_of, tif_of, post_only_of,
}

abbrev side_code : Side → ℕ
side_code buy = 0
side_code sell = 1

abbrev tif_code : TimeInForce → ℕ
tif_code gtc = 0
tif_code ioc = 1

abbrev bool_code : Bool → ℕ
bool_code false = 0
bool_code true = 1

module _ ⦃buf : BufferApi⦄ where
  abbrev pub encode_body : Command → List ℕ
  encode_body (new_order o) =
      buf.put_u64_le o.client_seq
      ++ (buf.put_u64_le o.order_id
          ++ (buf.put_u32_le o.account_id
              ++ (buf.put_u32_le o.symbol_id
                  ++ (buf.put_u8 (side_code o.side)
                      ++ (buf.put_i64_le o.price
                          ++ (buf.put_i64_le o.qty
                              ++ (buf.put_u8 (tif_code o.tif)
                                  ++ (buf.put_u8 (bool_code o.flags.post_only) ++ []))))))))
  encode_body (cancel c) =
      buf.put_u64_le c.client_seq
      ++ (buf.put_u64_le c.order_id
          ++ (buf.put_u32_le c.account_id ++ (buf.put_u32_le c.symbol_id ++ [])))
  encode_body (replace r) =
      buf.put_u64_le r.client_seq
      ++ (buf.put_u64_le r.order_id
          ++ (buf.put_u32_le r.account_id
              ++ (buf.put_u32_le r.symbol_id
                  ++ (buf.put_i64_le r.new_price ++ (buf.put_i64_le r.new_qty ++ [])))))
  encode_body (set_risk_limits s) =
      buf.put_u64_le s.client_seq
      ++ (buf.put_u32_le s.account_id
          ++ (buf.put_u32_le s.symbol_id
              ++ (buf.put_i64_le s.limits.max_long_position
                  ++ (buf.put_i64_le s.limits.max_short_position
                      ++ (buf.put_i64_le s.limits.max_order_size ++ [])))))
  encode_body (query_account q) =
      buf.put_u64_le q.client_seq
      ++ (buf.put_u32_le q.account_id ++ (buf.put_u32_le q.symbol_id ++ []))
  encode_body (authenticate a) = put_string a.api_key

  abbrev pub message_type : Command → ℕ
  message_type (new_order o) = 1
  message_type (cancel c) = 2
  message_type (replace r) = 3
  message_type (set_risk_limits s) = 4
  message_type (query_account q) = 5
  message_type (authenticate a) = 6

  pub encode_command : Command → List ℕ
  encode_command cmd = buf.put_u16_le (message_type cmd) ++ encode_body cmd

  -- The fields fit their machine types.
  abbrev pub IsU64 : ℕ → Type 0
  IsU64 n = n < 2 ^ 64

  abbrev pub IsU32 : ℕ → Type 0
  IsU32 n = n < 2 ^ 32

  abbrev pub Fits : (Text → Bool) → Command → Type 0
  Fits is_utf8 (new_order o) =
      IsU64 o.client_seq
      × IsU64 o.order_id
      × IsU32 o.account_id
      × IsU32 o.symbol_id
      × IsI64 o.price
      × IsI64 o.qty
  Fits is_utf8 (cancel c) =
      IsU64 c.client_seq × IsU64 c.order_id × IsU32 c.account_id × IsU32 c.symbol_id
  Fits is_utf8 (replace r) =
      IsU64 r.client_seq
      × IsU64 r.order_id
      × IsU32 r.account_id
      × IsU32 r.symbol_id
      × IsI64 r.new_price
      × IsI64 r.new_qty
  Fits is_utf8 (set_risk_limits s) =
      IsU64 s.client_seq
      × IsU32 s.account_id
      × IsU32 s.symbol_id
      × IsI64 s.limits.max_long_position
      × IsI64 s.limits.max_short_position
      × IsI64 s.limits.max_order_size
  Fits is_utf8 (query_account q) = IsU64 q.client_seq × IsU32 q.account_id × IsU32 q.symbol_id
  Fits is_utf8 (authenticate a) = IsU32 (length a.api_key) × (is_utf8 a.api_key ≡ true)

  enough : (width : ℕ) (p rest : List ℕ) → length p ≡ width → ltb (length (p ++ rest)) width ≡ false
  enough width p rest l =
      not_less width (length (p ++ rest)) (omega (arith, length-append {0} p rest, l))
    where
      not_less : (w n : ℕ) → w < suc n → ltb n w ≡ false
      not_less w n h = ground arith

  checked_lem :
      {A : Type 0} (width : ℕ) (get : List ℕ → A × List ℕ) (p : List ℕ) (v : A) (rest : List ℕ)
      → length p ≡ width
      → get (p ++ rest) ≡ (v, rest)
      → checked width get (p ++ rest) ≡ ok (v, rest)
  checked_lem width get p v rest l e = rw (enough width p rest l) (ap ok e)

  get_u64_lem :
      (n : ℕ) (rest : List ℕ) → IsU64 n → get_u64 (buf.put_u64_le n ++ rest) ≡ ok (n, rest)
  unfolding get_u64
  get_u64_lem n rest h =
      checked_lem 8 buf.get_u64_le _ n rest (buf.length-put_u64_le n) (buf.get-put_u64_le n rest h)

  get_u32_lem :
      (n : ℕ) (rest : List ℕ) → IsU32 n → get_u32 (buf.put_u32_le n ++ rest) ≡ ok (n, rest)
  unfolding get_u32
  get_u32_lem n rest h =
      checked_lem 4 buf.get_u32_le _ n rest (buf.length-put_u32_le n) (buf.get-put_u32_le n rest h)

  get_u8_lem : (n : ℕ) (rest : List ℕ) → n < 2 ^ 8 → get_u8 (buf.put_u8 n ++ rest) ≡ ok (n, rest)
  unfolding get_u8
  get_u8_lem n rest h =
      checked_lem 1 buf.get_u8 _ n rest (buf.length-put_u8 n) (buf.get-put_u8 n rest h)

  get_i64_lem :
      (x : ℤ) (rest : List ℕ) → IsI64 x → get_i64 (buf.put_i64_le x ++ rest) ≡ ok (x, rest)
  unfolding get_i64
  get_i64_lem x rest h =
      checked_lem 8 buf.get_i64_le _ x rest (buf.length-put_i64_le x) (buf.get-put_i64_le x rest h)

  step :
      {A B : Type 0} (m : Reader A) (f : A → Reader B) {b : List ℕ} {v : A} {rest : List ℕ}
      {r : Result (B × List ℕ)}
      → m b ≡ ok (v, rest)
      → f v rest ≡ r
      → (m >>= f) b ≡ r
  unfolding ◌>>=◌
  step m f e e' = ap (λ r. elim r [ ok (a, rest) ↦ f a rest | err x ↦ err x ]) e ∙ e'

  get_side :
      (s : Side) (rest : List ℕ)
      → (get_u8 >>= side_of) (buf.put_u8 (side_code s) ++ rest) ≡ ok (s, rest)
  unfolding side_of
  get_side buy rest = step _ _ (get_u8_lem 0 rest (omega arith)) refl
  get_side sell rest = step _ _ (get_u8_lem 1 rest (omega arith)) refl

  get_tif :
      (t : TimeInForce) (rest : List ℕ)
      → (get_u8 >>= tif_of) (buf.put_u8 (tif_code t) ++ rest) ≡ ok (t, rest)
  unfolding tif_of
  get_tif gtc rest = step _ _ (get_u8_lem 0 rest (omega arith)) refl
  get_tif ioc rest = step _ _ (get_u8_lem 1 rest (omega arith)) refl

  get_post_only :
      (p : Bool) (rest : List ℕ)
      → (get_u8 >>= post_only_of) (buf.put_u8 (bool_code p) ++ rest) ≡ ok (p, rest)
  unfolding post_only_of
  get_post_only false rest = step _ _ (get_u8_lem 0 rest (omega arith)) refl
  get_post_only true rest = step _ _ (get_u8_lem 1 rest (omega arith)) refl

  split_at-append : (s rest : List ℕ) → split_at (length s) (s ++ rest) ≡ (s, rest)
  split_at-append [] rest = refl
  split_at-append (x ∷ s) rest = rw (split_at-append s rest) refl

  get_string_lem :
      (is_utf8 : Text → Bool) (s rest : List ℕ)
      → IsU32 (length s)
      → is_utf8 s ≡ true
      → get_string is_utf8 (put_string s ++ rest) ≡ ok (s, rest)
  unfolding get_string put_string
  get_string_lem is_utf8 s rest fits valid =
      rw
        (
          append_assoc (buf.put_u32_le (length s % 2 ^ 32)) s rest,
          small (length s) fits,
          enough 4 (buf.put_u32_le (length s)) (s ++ rest) (buf.length-put_u32_le _),
          buf.get-put_u32_le (length s) (s ++ rest) fits,
          enough (length s) s rest refl,
          split_at-append s rest,
          valid,
        )
        refl
    where
      small : (n : ℕ) → IsU32 n → n % 2 ^ 32 ≡ n
      small n h = omega arith

  decode_body_lem :
      (is_utf8 : Text → Bool) (cmd : Command)
      → Fits is_utf8 cmd
      → decode_body is_utf8 (message_type cmd) (encode_body cmd) ≡ ok (cmd, [])
  unfolding decode_body decode_new_order decode_cancel decode_replace decode_set_risk_limits
      decode_query_account decode_authenticate
  decode_body_lem is_utf8 (new_order o) (h1, h2, h3, h4, h5, h6) =
      step _ _ (get_u64_lem o.client_seq _ h1) (
        step _ _ (get_u64_lem o.order_id _ h2) (
          step _ _ (get_u32_lem o.account_id _ h3) (
            step _ _ (get_u32_lem o.symbol_id _ h4) (
              step _ _ (get_side o.side _) (
                step _ _ (get_i64_lem o.price _ h5) (
                  step _ _ (get_i64_lem o.qty _ h6) (
                    step _ _ (get_tif o.tif _)
                      (step _ _ (get_post_only o.flags.post_only _) refl))))))))
  decode_body_lem is_utf8 (cancel c) (h1, h2, h3, h4) = step _ _ (get_u64_lem c.client_seq _ h1) (
      step _ _ (get_u64_lem c.order_id _ h2)
        (step _ _ (get_u32_lem c.account_id _ h3) (step _ _ (get_u32_lem c.symbol_id _ h4) refl)))
  decode_body_lem is_utf8 (replace r) (h1, h2, h3, h4, h5, h6) =
      step _ _ (get_u64_lem r.client_seq _ h1) (
        step _ _ (get_u64_lem r.order_id _ h2) (
          step _ _ (get_u32_lem r.account_id _ h3) (
            step _ _ (get_u32_lem r.symbol_id _ h4) (
              step _ _ (get_i64_lem r.new_price _ h5)
                (step _ _ (get_i64_lem r.new_qty _ h6) refl)))))
  decode_body_lem is_utf8 (set_risk_limits s) (h1, h2, h3, h4, h5, h6) =
      step _ _ (get_u64_lem s.client_seq _ h1) (
        step _ _ (get_u32_lem s.account_id _ h2) (
          step _ _ (get_u32_lem s.symbol_id _ h3) (
            step _ _ (get_i64_lem s.limits.max_long_position _ h4) (
              step _ _ (get_i64_lem s.limits.max_short_position _ h5)
                (step _ _ (get_i64_lem s.limits.max_order_size _ h6) refl)))))
  decode_body_lem is_utf8 (query_account q) (h1, h2, h3) =
      step _ _ (get_u64_lem q.client_seq _ h1)
        (step _ _ (get_u32_lem q.account_id _ h2) (step _ _ (get_u32_lem q.symbol_id _ h3) refl))
  decode_body_lem is_utf8 (authenticate a) (h1, h2) =
      step _ _
        (subst (λ b. get_string is_utf8 b ≡ ok (a.api_key, [])) (append-nil _)
          (get_string_lem is_utf8 a.api_key [] h1 h2))
        refl

  -- The encoding of a command whose fields fit their machine types, and whose key is UTF-8, decodes to it.
  pub decode_command-encode_command :
      (is_utf8 : Text → Bool) (cmd : Command)
      → Fits is_utf8 cmd
      → decode_command is_utf8 (encode_command cmd) ≡ ok cmd
  unfolding decode_command encode_command
  decode_command-encode_command is_utf8 cmd fits =
      rw
        (
          enough 2 _ _ (buf.length-put_u16_le _),
          buf.get-put_u16_le (message_type cmd) (encode_body cmd) (small cmd),
          decode_body_lem is_utf8 cmd fits,
        )
        refl
    where
      small : (cmd : Command) → message_type cmd < 2 ^ 16
      small (new_order o) = omega arith
      small (cancel c) = omega arith
      small (replace r) = omega arith
      small (set_risk_limits s) = omega arith
      small (query_account q) = omega arith
      small (authenticate a) = omega arith
