-- ===== src/Subroutines/ManageAccountInfo/Waits.antt =====
-- When ManageAccountInfo writes nothing.
use account_operator.Base.{ℕ, String, ◌≡◌, arith}
use account_operator.Platform.{Platform, Context}
use account_operator.ClusteredName.{Object}
use account_operator.Exec.{State, returns, stop_with_requeue}
use account_operator.Subroutines.ManageAccountInfo.{process}

module _ (P : Platform) (server_ca : String) (ctx : Context) (obj : Object) (s : State P) where
  -- A run of the subroutine that asks to be called again has changed nothing in the world.
  pub process_requeue :
      (after : ℕ) (reason : String)
      → (process P server_ca ctx obj s).0 ≡ returns (stop_with_requeue after reason)
      → (process P server_ca ctx obj s).1.world ≡ s.world
  unfolding process
  process_requeue after reason h = ground arith
