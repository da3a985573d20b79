-- ===== src/Host.antt =====
-- src/include/host.h: what the scanner knows of a host.
use zero_trust_public.Base.{ℕ, List, Bytes, codes}
use zero_trust_public.Finding.{Port, Finding}

pub data HostState : Type 0 where
  unknown alive unreachable : HostState

-- `kb` has the pairs of the map; a time to live that is not positive is 0.
pub record Host (D : Type 0) : Type 0 where
  pub ip : Bytes
  pub hostname : Bytes
  pub state : HostState
  pub ttl : ℕ
  os_guess : Bytes
  pub ports : List Port
  pub findings : List (Finding D)
  pub kb : List (Bytes × Bytes)

unfoldable host_state_name : HostState → Bytes
host_state_name unknown = codes "UNKNOWN"
host_state_name alive = codes "ALIVE"
host_state_name unreachable = codes "UNREACHABLE"
