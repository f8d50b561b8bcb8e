-- ===== src/Pool/Config.antt =====
-- `ThreadType` and `PostConfig` of ecs/concurrency/threadpool/threadpool.h.
use engi_cs.Base.{Bool, true, false, Option, none, some, if◌then◌else◌, ◌==◌}
use engi_cs.Base.Int.{ℤ, pos, negsuc}

-- `Any` is another name for `Unknown`.
pub data ThreadType : Type 0 where
  unknown async compute : ThreadType

abbrev pub any : ThreadType
any = unknown

abbrev pub type_value : ThreadType → ℤ
type_value unknown = negsuc 0
type_value async = negsuc 1
type_value compute = negsuc 2

pub record PostConfig : Type 0 where
  pub config : ℤ

abbrev pub thread : ℤ → PostConfig
thread token = record { config = token }

abbrev pub group : ThreadType → PostConfig
group type = record { config = type_value type }

abbrev thread_value : ℤ → Bool
thread_value (pos n) = true
thread_value (negsuc n) = false

abbrev group_value : ℤ → Bool
group_value (pos n) = false
group_value (negsuc n) = if n == 0 then false else true

abbrev any_value : ℤ → Bool
any_value (pos n) = false
any_value (negsuc n) = n == 0

-- `m_config > -1`, `m_config < -1`, `m_config == -1`
unfoldable pub is_thread_token : PostConfig → Bool
is_thread_token c = thread_value c.config

unfoldable pub is_thread_group : PostConfig → Bool
is_thread_group c = group_value c.config

unfoldable pub is_any : PostConfig → Bool
is_any c = any_value c.config

-- `none` is `std::errc::invalid_argument`. The type is the value of `m_config`, which may be that
-- of no enumerator.
unfoldable pub get_thread_type : PostConfig → Option ℤ
unfolding is_thread_token
get_thread_type c = if is_thread_token c then none else some c.config

unfoldable pub get_thread_token : PostConfig → Option ℤ
unfolding is_thread_group
get_thread_token c = if is_thread_group c then none else some c.config
