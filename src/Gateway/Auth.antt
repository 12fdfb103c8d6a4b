-- ===== src/Gateway/Auth.antt =====
-- crates/gateway_server/src/auth.rs: the API keys, as a list of entries with one to a key.
use high_perf_trading.Base.{
  ℕ, Bool, true, false, Option, none, some, List, [], ◌∷◌, ◌≡◌, refl, sym, ◌∙◌, inl, inr,
  Bool-cases, ◌==◌, if◌then◌else◌, ◌&&◌, is_some, length, arith,
}
use high_perf_trading.Types.{Text, AccountId}

-- Equality of strings.
unfoldable pub same_text : Text → Text → Bool
same_text [] [] = true
same_text (x ∷ a) (y ∷ b) = (x == y) && same_text a b
same_text _ _ = false

abbrev pub AuthService : Type 0
AuthService = List (Text × AccountId)

unfoldable pub new : AuthService
new = []

unfoldable pub register_api_key : Text → AccountId → AuthService → AuthService
unfolding same_text
register_api_key key account_id [] = (key, account_id) ∷ []
register_api_key key account_id ((k, a) ∷ keys) =
    if same_text k key
    then (key, account_id) ∷ keys
    else (k, a) ∷ register_api_key key account_id keys

-- `none` is the error for a key that is not there.
unfoldable pub authenticate : Text → AuthService → Option AccountId
unfolding same_text
authenticate key [] = none
authenticate key ((k, a) ∷ keys) = if same_text k key then some a else authenticate key keys

unfoldable pub has_api_key : Text → AuthService → Bool
unfolding authenticate
has_api_key key keys = is_some (authenticate key keys)

abbrev pub without : Text → AuthService → AuthService
without key [] = []
without key ((k, a) ∷ keys) =
    if same_text k key then without key keys else (k, a) ∷ without key keys

unfoldable pub revoke_api_key : Text → AuthService → Bool × AuthService
unfolding has_api_key
revoke_api_key key keys = (has_api_key key keys, without key keys)

unfoldable pub key_count : AuthService → ℕ
key_count keys = length keys

pub same_text_refl : (a : Text) → same_text a a ≡ true
unfolding same_text
same_text_refl [] = refl
same_text_refl (x ∷ a) = ground (arith, same_text_refl a)

same_text_trans : (a b c : Text) → same_text a b ≡ true → same_text a c ≡ same_text b c
unfolding same_text
same_text_trans [] [] c h = refl
same_text_trans (x ∷ a) (y ∷ b) [] h = refl
same_text_trans (x ∷ a) (y ∷ b) (z ∷ c) h = ground (arith, same_text_trans a b c)
same_text_trans [] (y ∷ b) c h = cc
same_text_trans (x ∷ a) [] c h = cc

same_text_sym : (a b : Text) → same_text a b ≡ same_text b a
unfolding same_text
same_text_sym [] [] = refl
same_text_sym (x ∷ a) (y ∷ b) = ground (arith, same_text_sym a b)
same_text_sym [] (y ∷ b) = refl
same_text_sym (x ∷ a) [] = refl

-- Text that differs from a key differs from what is equal to the key.
apart :
    (k key other : Text)
    → same_text k key ≡ false
    → same_text key other ≡ true
    → same_text k other ≡ false
apart k key other h e =
    same_text_sym k other ∙ sym (same_text_trans key other k e) ∙ same_text_sym key k ∙ h

twice :
    (t : Bool) (x y z : Option AccountId)
    → (if t then x else z) ≡ (if t then x else (if t then y else z))
twice true x y z = refl
twice false x y z = refl

if_same : (t : Bool) (x : Option AccountId) → x ≡ (if t then x else x)
if_same true x = refl
if_same false x = refl

-- A key that was registered last authenticates as its account, and every other key as before.
pub authenticate-register_api_key :
    (key other : Text) (account_id : AccountId) (keys : AuthService)
    → authenticate other (register_api_key key account_id keys)
      ≡ (if same_text key other then some account_id else authenticate other keys)
unfolding authenticate register_api_key
authenticate-register_api_key key other account_id [] = refl
authenticate-register_api_key key other account_id ((k, a) ∷ keys) =
    elim (Bool-cases (same_text k key)) [
      | inl same ↦ rw (same, same_text_trans k key other same) (twice (same_text key other) _ _ _)
      | inr differ ↦
          rw (differ, authenticate-register_api_key key other account_id keys)
            (elim (Bool-cases (same_text key other)) [
              | inl same ↦ rw (same, apart k key other differ same) refl
              | inr foreign ↦ rw foreign refl
            ])
    ]

-- A key that was revoked no longer authenticates, every other key does as before, and the answer says
-- whether the key was there.
pub authenticate-revoke_api_key :
    (key other : Text) (keys : AuthService)
    → (authenticate other (revoke_api_key key keys).1
        ≡ (if same_text key other then none else authenticate other keys))
      × ((revoke_api_key key keys).0 ≡ is_some (authenticate key keys))
unfolding revoke_api_key has_api_key
authenticate-revoke_api_key key other keys = (removed keys, refl)
  where
    removed :
        (keys : AuthService)
        → authenticate other (without key keys)
          ≡ (if same_text key other then none else authenticate other keys)
    removed [] = if_same (same_text key other) none
    removed ((k, a) ∷ keys) = elim (Bool-cases (same_text k key)) [
      | inl same ↦
          rw (same, removed keys, same_text_trans k key other same)
            (twice (same_text key other) _ _ _)
      | inr differ ↦
          rw (differ, removed keys)
            (elim (Bool-cases (same_text key other)) [
              | inl same ↦ rw (same, apart k key other differ same) refl
              | inr foreign ↦ rw foreign refl
            ])
    ]
