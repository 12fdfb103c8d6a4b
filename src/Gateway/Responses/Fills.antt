-- ===== src/Gateway/Responses/Fills.antt =====
-- A fill between two orders of the gateway: `handle_engine_responses` of
-- crates/gateway_server/src/client_handler.rs and `apply_fill` of crates/gateway_server/src/account_manager.rs.
use high_perf_trading.Base.{
  ℕ, ℤ, Bool, true, false, not, Option, none, some, ◌≡◌, ◌≢◌, refl, ap, sym, ◌∙◌, subst, ◌==◌,
  ==_refl, unequal, if◌then◌else◌, picked, passed, unwrap_or, ◌+ℤ◌, ◌-ℤ◌, int_laws,
}
use high_perf_trading.Base.Word.{IsI64, add_i64, sub_i64, mul_i64, add_i64_lem, sub_i64_lem}
use high_perf_trading.Base.HashMap.{HashMap}
use high_perf_trading.Base.HashMap
use high_perf_trading.Types.{AccountId, OrderId, Event, fill, Side, is_buy, default_position}
use high_perf_trading.Types
use high_perf_trading.Protocol.{to_client}
use high_perf_trading.Gateway.DashMap.{DashMapApi}
use high_perf_trading.Gateway.Accounts.{AccountState, fill_account, get_position}
use high_perf_trading.Gateway.Manager.{apply_fill, modify_found}
use high_perf_trading.Gateway.Clients.{Gateway}
use high_perf_trading.Gateway.Pending.{OrderMetadata}
use high_perf_trading.Gateway.Responses.{
  ClientSenders, fill_order, handle_fill, handle_event, respond, deliver_to_maker,
}
use high_perf_trading.Gateway.Responses.Table.{manager-deliver, pending-handle_fill}

-- The account of an order after a fill of it.
abbrev pub after_fill : Types.Fill → OrderMetadata → AccountState → AccountState
after_fill f metadata s = fill_account s f metadata.reservation_token.amount (is_buy metadata.side)

-- The money and the position that a fill moves do not overflow.
pub record Spare (f : Types.Fill) (s : AccountState) : Type 0 where
  pub pays : IsI64 (s.buying_power -ℤ mul_i64 f.price f.qty)
  pub earns : IsI64 (s.buying_power +ℤ mul_i64 f.price f.qty)
  pub buys : IsI64 ((get_position s f.symbol_id).net_position +ℤ f.qty)
  pub sells : IsI64 ((get_position s f.symbol_id).net_position -ℤ f.qty)

abbrev pub net_of : AccountState → Types.Fill → ℤ
net_of s f = (get_position s f.symbol_id).net_position

net_after :
    (f : Types.Fill) (amount : ℤ) (s : AccountState) (buys : Bool)
    → net_of (fill_account s f amount buys) f
      ≡ (if buys then add_i64 (net_of s f) f.qty else sub_i64 (net_of s f) f.qty)
unfolding fill_account get_position
net_after f amount s buys =
    ap (λ o. (unwrap_or o default_position).net_position)
      (HashMap.get-insert f.symbol_id f.symbol_id _ s.positions
        ∙ picked _ _ _ (==_refl f.symbol_id))

buyer_moves :
    (f : Types.Fill) (amount : ℤ) (s : AccountState)
    → Spare f s
    → ((fill_account s f amount true).buying_power ≡ s.buying_power -ℤ mul_i64 f.price f.qty)
      × (net_of (fill_account s f amount true) f ≡ net_of s f +ℤ f.qty)
unfolding fill_account
buyer_moves f amount s spare = (
  sub_i64_lem s.buying_power _ spare.pays,
  net_after f amount s true ∙ add_i64_lem (net_of s f) f.qty spare.buys,
)

seller_moves :
    (f : Types.Fill) (amount : ℤ) (s : AccountState)
    → Spare f s
    → ((fill_account s f amount false).buying_power ≡ s.buying_power +ℤ mul_i64 f.price f.qty)
      × (net_of (fill_account s f amount false) f ≡ net_of s f -ℤ f.qty)
unfolding fill_account
seller_moves f amount s spare = (
  add_i64_lem s.buying_power _ spare.earns,
  net_after f amount s false ∙ sub_i64_lem (net_of s f) f.qty spare.sells,
)

-- What one side pays the other earns, and what one buys the other sells.
abbrev pub Balanced :
    Types.Fill → AccountState → AccountState → AccountState → AccountState → Type 0
Balanced f a b a' b' =
    (a'.buying_power +ℤ b'.buying_power ≡ a.buying_power +ℤ b.buying_power)
    × (net_of a' f +ℤ net_of b' f ≡ net_of a f +ℤ net_of b f)

fills_balance :
    (f : Types.Fill) (x y : ℤ) (a b : AccountState) (s : Bool)
    → Spare f a
    → Spare f b
    → Balanced f a b (fill_account a f x s) (fill_account b f y (not s))
fills_balance f x y a b true sa sb =
    let (pa, qa) = buyer_moves f x a sa in
    let (pb, qb) = seller_moves f y b sb in
    (rw (pa, pb) (omega (int_laws)), rw (qa, qb) (omega (int_laws)))
fills_balance f x y a b false sa sb =
    let (pa, qa) = seller_moves f x a sa in
    let (pb, qb) = buyer_moves f y b sb in
    (rw (pa, pb) (omega (int_laws)), rw (qa, qb) (omega (int_laws)))

module _ ⦃dash : DashMapApi AccountState⦄ where
  abbrev account : Gateway → AccountId → Option AccountState
  account g a = dash.get g.account_manager.accounts a

  -- One side of a fill changes the account of its order alone.
  account-fill_order :
      (g : Gateway) (f : Types.Fill) (id : OrderId) (metadata : OrderMetadata) (s : AccountState)
      (a : AccountId)
      → account g metadata.reservation_token.account_id ≡ some s
      → account (fill_order g (fill f) id (some metadata)) a ≡ (
          if metadata.reservation_token.account_id == a
          then some (after_fill f metadata s)
          else account g a)
  unfolding fill_order apply_fill
  account-fill_order g f id metadata s a found =
      ap
        (λ x.
          dash.get
            (modify_found g.account_manager metadata.reservation_token.account_id
              (after_fill f metadata) x).accounts
            a)
        found
      ∙ dash.get-insert g.account_manager.accounts metadata.reservation_token.account_id
          (after_fill f metadata s) a

  pending-fill_order :
      (g : Gateway) (f : Types.Fill) (id : OrderId) (metadata : OrderMetadata)
      → (fill_order g (fill f) id (some metadata)).pending_orders
        ≡ HashMap.remove id g.pending_orders
  unfolding fill_order
  pending-fill_order g f id metadata = refl

  -- The accounts after a fill, whoever is told of it.
  manager-handle_fill :
      (clients : ClientSenders) (g : Gateway) (conn_id : ℕ) (f : Types.Fill)
      → (handle_fill clients g conn_id f).0.account_manager
        ≡ (fill_order
            (fill_order g (fill f) f.maker_order_id (HashMap.get f.maker_order_id g.pending_orders))
            (fill f)
            f.taker_order_id
            (HashMap.get f.taker_order_id g.pending_orders)).account_manager
  unfolding handle_fill
  manager-handle_fill clients g conn_id f =
      (manager-deliver clients _ conn_id (fill f)).0
      ∙ to_maker (HashMap.get f.maker_order_id g.pending_orders)
    where
      filled : Gateway
      filled =
          fill_order
            (fill_order g (fill f) f.maker_order_id (HashMap.get f.maker_order_id g.pending_orders))
            (fill f) f.taker_order_id (HashMap.get f.taker_order_id g.pending_orders)

      to_maker :
          (m : Option OrderMetadata)
          → (deliver_to_maker clients filled (fill f) m).0.account_manager ≡ filled.account_manager
      to_maker none = refl
      to_maker (some metadata) = (manager-deliver clients filled metadata.conn_id (fill f)).0

  -- Both orders of a fill with their accounts, which differ.
  pub record Matched (g : Gateway) (f : Types.Fill) (maker taker : OrderMetadata)
      (a b : AccountState) : Type 0 where
    pub maker_waits : HashMap.get f.maker_order_id g.pending_orders ≡ some maker
    pub taker_waits : HashMap.get f.taker_order_id g.pending_orders ≡ some taker
    pub maker_account :
        dash.get g.account_manager.accounts maker.reservation_token.account_id ≡ some a
    pub taker_account :
        dash.get g.account_manager.accounts taker.reservation_token.account_id ≡ some b
    pub two_accounts : maker.reservation_token.account_id ≢ taker.reservation_token.account_id
    pub two_sides : is_buy taker.side ≡ not (is_buy maker.side)

  -- What a fill leaves: both accounts moved, the others as they were, both orders forgotten.
  pub record FilledBoth (g g' : Gateway) (f : Types.Fill) (maker taker : OrderMetadata)
      (a b : AccountState) : Type 0 where
    pub of_maker :
        dash.get g'.account_manager.accounts maker.reservation_token.account_id
        ≡ some (after_fill f maker a)
    pub of_taker :
        dash.get g'.account_manager.accounts taker.reservation_token.account_id
        ≡ some (after_fill f taker b)
    pub of_others :
        (c : AccountId)
        → maker.reservation_token.account_id ≢ c
        → taker.reservation_token.account_id ≢ c
        → dash.get g'.account_manager.accounts c ≡ dash.get g.account_manager.accounts c
    pub table :
        g'.pending_orders
        ≡ HashMap.remove f.taker_order_id (HashMap.remove f.maker_order_id g.pending_orders)
    pub balanced : Balanced f a b (after_fill f maker a) (after_fill f taker b)

  module _ (clients : ClientSenders) (g : Gateway) (conn_id : ℕ) (f : Types.Fill)
      (maker taker : OrderMetadata) (a b : AccountState) (m : Matched g f maker taker a b) where
    first : Gateway
    first = fill_order g (fill f) f.maker_order_id (some maker)

    second : Gateway
    second = fill_order first (fill f) f.taker_order_id (some taker)

    both_orders :
        fill_order
          (fill_order g (fill f) f.maker_order_id (HashMap.get f.maker_order_id g.pending_orders))
          (fill f)
          f.taker_order_id
          (HashMap.get f.taker_order_id g.pending_orders)
        ≡ second
    unfolding second first
    both_orders =
        ap
          (λ x.
            fill_order (fill_order g (fill f) f.maker_order_id x) (fill f) f.taker_order_id
              (HashMap.get f.taker_order_id g.pending_orders))
          m.maker_waits
        ∙ ap (λ x. fill_order first (fill f) f.taker_order_id x) m.taker_waits

    moved_first :
        (c : AccountId)
        → account first c ≡ (
            if maker.reservation_token.account_id == c
            then some (after_fill f maker a)
            else account g c)
    unfolding first
    moved_first c = account-fill_order g f f.maker_order_id maker a c m.maker_account

    moved_second :
        (c : AccountId)
        → account second c ≡ (
            if taker.reservation_token.account_id == c
            then some (after_fill f taker b)
            else account first c)
    unfolding second
    moved_second c = account-fill_order first f f.taker_order_id taker b c (
        moved_first taker.reservation_token.account_id
        ∙ passed _ _ _ (unequal _ _ m.two_accounts)
        ∙ m.taker_account)

    accounts_after :
        (c : AccountId)
        → dash.get
            (respond clients g (to_client conn_id (fill f) none)).0.account_manager.accounts
            c
          ≡ account second c
    unfolding respond handle_event
    accounts_after c =
        ap (λ x. dash.get x.accounts c)
          (manager-handle_fill clients g conn_id f ∙ ap (λ x. x.account_manager) both_orders)

    -- If the gateway has both orders of a fill in its table, of two accounts and of opposite sides, then
    -- after the message of the fill both accounts are moved by it and no other, both orders are gone from
    -- the table; and where no sum overflows, what one account pays the other earns, and what one buys the
    -- other sells.
    pub respond-FilledBoth :
        Spare f a
        → Spare f b
        → FilledBoth g (respond clients g (to_client conn_id (fill f) none)).0 f maker taker a b
    unfolding respond handle_event second first
    respond-FilledBoth sa sb = record {
      of_maker =
          accounts_after _
          ∙ moved_second _
          ∙ passed _ _ _ (unequal _ _ (λ e. m.two_accounts (sym e)))
          ∙ moved_first _
          ∙ picked _ _ _ (==_refl maker.reservation_token.account_id);
      of_taker =
          accounts_after _
          ∙ moved_second _
          ∙ picked _ _ _ (==_refl taker.reservation_token.account_id);
      of_others = λ c nm nt.
          accounts_after c
          ∙ moved_second c
          ∙ passed _ _ _ (unequal _ _ nt)
          ∙ moved_first c
          ∙ passed _ _ _ (unequal _ _ nm);
      table =
          pending-handle_fill clients g conn_id f
          ∙ ap (λ x. x.pending_orders) both_orders
          ∙ pending-fill_order first f f.taker_order_id taker
          ∙ ap (HashMap.remove f.taker_order_id) (pending-fill_order g f f.maker_order_id maker);
      balanced =
          subst
            (λ s.
              Balanced f a b (after_fill f maker a)
                (fill_account b f taker.reservation_token.amount s))
            (sym m.two_sides)
            (fills_balance f maker.reservation_token.amount taker.reservation_token.amount a b
              (is_buy maker.side) sa sb);
    }
