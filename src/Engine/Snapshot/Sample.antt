-- ===== src/Engine/Snapshot/Sample.antt =====
-- Serializers of a snapshot that keep what the interface promises. That of the accounts refuses all but
-- accounts without positions and limits of their own.
use high_perf_trading.Base.{
  ℕ, Option, none, some, List, [], ◌∷◌, ◌++◌, ◌≡◌, refl, ap, subst, length, some_injective, ◌>>=◌,
  ◌==◌,
}
use high_perf_trading.Base.HashMap.{HashMap}
use high_perf_trading.Types.{Position, RiskLimits}
use high_perf_trading.Journal.Postcard.{PostcardApi}
use high_perf_trading.Journal.Frames.{read_exact}
use high_perf_trading.Journal.Frames.Reading.{read_exact-append}
use high_perf_trading.Journal.Sample.{
  sign, size, int, side_code, side_from, tif_code, tif_from, flag_code, int_back, side_back,
  tif_back, flag_back,
}
use high_perf_trading.Engine.Slab.{Order}
use high_perf_trading.Engine.Accounts.{AccountManager}
use high_perf_trading.Engine.Accounts
use high_perf_trading.Engine.Snapshot.{EngineSnapshot}

abbrev orders_to : List Order → List ℕ
orders_to [] = []
orders_to (o ∷ orders) =
    o.order_id
    ∷ o.account_id
    ∷ o.symbol_id
    ∷ side_code o.side
    ∷ sign o.price
    ∷ size o.price
    ∷ sign o.qty_rem
    ∷ size o.qty_rem
    ∷ tif_code o.tif
    ∷ flag_code o.flags.post_only
    ∷ orders_to orders

abbrev orders_from : List ℕ → List Order
orders_from (i ∷ a ∷ s ∷ side ∷ ps ∷ p ∷ qs ∷ q ∷ tif ∷ flag ∷ rest) =
    record {
      order_id = i;
      account_id = a;
      symbol_id = s;
      side = side_from side;
      price = int ps p;
      qty_rem = int qs q;
      tif = tif_from tif;
      flags = record { post_only = flag == 1 };
    }
    ∷ orders_from rest
orders_from _ = []

orders_back : (orders : List Order) → orders_from (orders_to orders) ≡ orders
orders_back [] = refl
orders_back (o ∷ orders) =
    rw
      (
        side_back o.side,
        int_back o.price,
        int_back o.qty_rem,
        tif_back o.tif,
        flag_back o.flags.post_only,
        orders_back orders,
      )
      refl

pub orders-from-to :
    (orders : List Order) (bytes : List ℕ)
    → some (orders_to orders) ≡ some bytes
    → some (orders_from bytes) ≡ some orders
orders-from-to orders bytes e =
    subst (λ b. some (orders_from b) ≡ some orders) (some_injective e)
      (ap some (orders_back orders))

instance unfoldable pub sample_orders : PostcardApi (List Order)
sample_orders = record {
  to_bytes = λ orders. some (orders_to orders);
  from_bytes = λ bytes. some (orders_from bytes);
  from-to = orders-from-to;
}

abbrev limits_to : HashMap Position → HashMap RiskLimits → RiskLimits → Option (List ℕ)
limits_to [] [] l = some (
    sign l.max_long_position
    ∷ size l.max_long_position
    ∷ sign l.max_short_position
    ∷ size l.max_short_position
    ∷ sign l.max_order_size
    ∷ size l.max_order_size
    ∷ [])
limits_to _ _ l = none

abbrev limits_from : List ℕ → Option RiskLimits
limits_from (ls ∷ l ∷ ss ∷ s ∷ os ∷ o ∷ []) = some (record {
  max_long_position = int ls l;
  max_short_position = int ss s;
  max_order_size = int os o;
})
limits_from _ = none

accounts_back :
    (positions : HashMap Position) (risk_limits : HashMap RiskLimits) (l : RiskLimits)
    (bytes : List ℕ)
    → limits_to positions risk_limits l ≡ some bytes
    → (limits_from bytes >>= λ x. some (Accounts.new x))
      ≡ some (record { positions = positions; risk_limits = risk_limits; default_limits = l })
unfolding Accounts.new
accounts_back [] [] l bytes e =
    subst
      (λ b.
        (limits_from b >>= λ x. some (Accounts.new x))
        ≡ some (record { positions = []; risk_limits = []; default_limits = l }))
      (some_injective e)
      (rw (int_back l.max_long_position, int_back l.max_short_position, int_back l.max_order_size)
        refl)
accounts_back (p ∷ ps) [] l bytes e = cc e
accounts_back [] (r ∷ rs) l bytes e = cc e
accounts_back (p ∷ ps) (r ∷ rs) l bytes e = cc e

pub accounts-from-to :
    (m : AccountManager) (bytes : List ℕ)
    → limits_to m.positions m.risk_limits m.default_limits ≡ some bytes
    → (limits_from bytes >>= λ x. some (Accounts.new x)) ≡ some m
accounts-from-to m = accounts_back m.positions m.risk_limits m.default_limits

instance unfoldable pub sample_accounts : PostcardApi AccountManager
unfolding Accounts.new
sample_accounts = record {
  to_bytes = λ m. limits_to m.positions m.risk_limits m.default_limits;
  from_bytes = λ bytes. limits_from bytes >>= λ x. some (Accounts.new x);
  from-to = accounts-from-to;
}

-- The length of the book stands in front.
abbrev engine_from : List ℕ → Option EngineSnapshot
engine_from [] = none
engine_from (n ∷ bytes) =
    read_exact n bytes >>= λ (book, accounts). some (record { book = book; accounts = accounts })

pub engines-from-to :
    (s : EngineSnapshot) (bytes : List ℕ)
    → some (length s.book ∷ s.book ++ s.accounts) ≡ some bytes
    → engine_from bytes ≡ some s
engines-from-to s bytes e =
    subst (λ b. engine_from b ≡ some s) (some_injective e)
      (ap (λ r. r >>= λ (book, accounts). some (record { book = book; accounts = accounts }))
        (read_exact-append s.book s.accounts))

instance unfoldable pub sample_engines : PostcardApi EngineSnapshot
unfolding read_exact
sample_engines = record {
  to_bytes = λ s. some (length s.book ∷ s.book ++ s.accounts);
  from_bytes = engine_from;
  from-to = engines-from-to;
}
