-- ===== src/Accounts/Tokens.antt =====
-- A token that resets a password is used once.
use tenara.Prelude.{
  String, Bool, not, ◌&&◌, ◌||◌, List, [], ◌∷◌, ◌==◌, nat_Eq, string_Eq, any, all, int_Eq,
}
use tenara.Orchestrator.Deploy.{Time}
use tenara.Accounts.{TokenRow, Store, has_hash, store_reset_token, consume_reset_token}

-- the statements on the resets, in the order in which the database runs them
pub data Op : Type 0 where
  store_op : String → String → Op
  consume_op : String → String → Op

unfoldable pub run : Store → List (Time × Op) → Store
unfolding store_reset_token consume_reset_token
run st [] = st
run st ((now, store_op user hash) ∷ ops) = run (store_reset_token st user hash now).0 ops
run st ((now, consume_op hash new_hash) ∷ ops) =
    run (consume_reset_token st hash new_hash now).0 ops

abbrev is_spent : String → TokenRow → Bool
is_spent hash t = not (t.token_hash == hash) || t.consumed

-- the token is there, and consumed wherever it is
abbrev spent : String → List TokenRow → Bool
spent hash ts = any (has_hash hash) ts && all (is_spent hash) ts
