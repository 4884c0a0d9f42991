-- ===== src/Subroutines/Construct.antt =====
-- The constructors of the subroutines, `New` in each of their packages. A rate limiter is made by
-- golang-commons from a list of settings; what it returns is a parameter.
use account_operator.Base.{ℕ, ◌*◌, String, List, [], ◌∷◌}
use account_operator.Platform.{Result, ok, err}

-- `time.Second`
abbrev pub second : ℕ
second = 1000000000

-- The options of `ratelimiter.NewConfig`, in nanoseconds.
pub data LimiterOption : Type 0 where
  requeue_delay : ℕ → LimiterOption
  static_window : ℕ → LimiterOption
  exponential_initial_backoff : ℕ → LimiterOption
  exponential_max_backoff : ℕ → LimiterOption

-- `fmt.Errorf("…: %w", err)`, once or several times over: the texts, the outermost first.
pub record SetupError (E : Type 0) : Type 0 where
  pub texts : List String
  pub cause : E

abbrev pub wrap : {E A : Type 0} → String → Result (SetupError E) A → Result (SetupError E) A
wrap text (ok a) = ok a
wrap text (err e) = err (record { texts = text ∷ e.texts; cause = e.cause })

infixl 5 ◌>>=◌
abbrev pub ◌>>=◌ : {E A B : Type 0} → Result E A → (A → Result E B) → Result E B
◌>>=◌ (ok a) f = f a
◌>>=◌ (err e) f = err e

pub record WorkspaceTypeSubroutine (Manager : Type 0) : Type 0 where
  pub mgr : Manager

module _ (Manager RateLimiter : Type 0) where
  pub record WorkspaceSubroutine : Type 0 where
    pub mgr : Manager
    pub limiter : RateLimiter

  pub record ManageAccountInfoSubroutine : Type 0 where
    pub mgr : Manager
    pub server_ca : String
    pub limiter : RateLimiter

  pub record WorkspaceReadySubroutine : Type 0 where
    pub mgr : Manager
    pub limiter : RateLimiter

  pub record FinalizeAccountInfoSubroutine : Type 0 where
    pub mgr : Manager
    pub limiter : RateLimiter

-- `ratelimiter.NewStaticThenExponentialRateLimiter(ratelimiter.NewConfig(options…))`
abbrev pub NewRateLimiter : Type 0 → Type 0 → Type 0
NewRateLimiter E L = List LimiterOption → Result E L

-- With the text that every caller puts before the error.
abbrev pub create_limiter :
    {E L : Type 0} → NewRateLimiter E L → List LimiterOption → Result (SetupError E) L
create_limiter new_limiter options = elim (new_limiter options) [
  | ok l ↦ ok l
  | err e ↦ err (record { texts = "creating RateLimiter" ∷ []; cause = e })
]

unfoldable pub new_workspace_type_subroutine : {M : Type 0} → M → WorkspaceTypeSubroutine M
new_workspace_type_subroutine mgr = record { mgr = mgr }

abbrev pub manage_account_info_options : List LimiterOption
manage_account_info_options =
    requeue_delay second
    ∷ static_window second
    ∷ exponential_initial_backoff second
    ∷ exponential_max_backoff (120 * second)
    ∷ []

module _ {M L E : Type 0} (new_limiter : NewRateLimiter E L) (mgr : M) where
  unfoldable pub new_workspace_subroutine : Result (SetupError E) (WorkspaceSubroutine M L)
  new_workspace_subroutine = do
    rl ← create_limiter new_limiter []
    ok (record { mgr = mgr; limiter = rl })

  unfoldable pub new_manage_account_info_subroutine :
      String → Result (SetupError E) (ManageAccountInfoSubroutine M L)
  new_manage_account_info_subroutine server_ca = do
    rl ← create_limiter new_limiter manage_account_info_options
    ok (record { mgr = mgr; server_ca = server_ca; limiter = rl })

  unfoldable pub new_workspace_ready_subroutine :
      Result (SetupError E) (WorkspaceReadySubroutine M L)
  new_workspace_ready_subroutine = do
    limiter ← create_limiter new_limiter []
    ok (record { mgr = mgr; limiter = limiter })

  unfoldable pub new_finalize_account_info_subroutine :
      Result (SetupError E) (FinalizeAccountInfoSubroutine M L)
  new_finalize_account_info_subroutine = do
    rl ← create_limiter new_limiter []
    ok (record { mgr = mgr; limiter = rl })
